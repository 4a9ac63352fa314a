-- ===== src/Htproc/Store/Valid.antt =====
-- The invariant of the store of htproc/procStore.go, and that removing and creating keep it.
use Prim.Native.String.{String}
use mathlib.Core.List.{Perm, perm_middle}
use mathlib.Core.List.Perm
use text.Mathlib.Text.{◌==◌ as same_user}
use text.Mathlib.TextEquality.{eq_iff}
use tasked.Base.{
  if◌then◌else◌, Option-cases, length, ℕ, zero, suc, ◌≤◌, ◌<◌, ◌≡◌, inl, inr, none, some, List, [],
  ◌∷◌, ◌++◌, arith,
}
use tasked.Base.Dict.{
  lookup, insert, delete, vals, IsMap, lookup-insert, lookup-delete, delete-IsMap, length-delete,
  vals-delete-perm,
}
use tasked.Htproc.Store.{max_socket_failures, Store, time_of, remove_proc, failures_of}

-- The numbers below `n`.
unfoldable pub below : ℕ → List ℕ
below zero = []
below (suc n) = n ∷ below n

pub record IsValid (now : ℕ) (ps : Store) : Type 0 where
  -- No user has two runners.
  pub is_map : IsMap ps.procs
  -- No access is in the future.
  pub past : (u : String) → time_of u ps.accessed ≤ now
  -- The access times are those of the runners.
  pub absent : (u : String) → lookup u ps.procs ≡ none → lookup u ps.accessed ≡ none
  -- There are no more runners than the option allows.
  pub bounded : 0 < ps.max_procs → length ps.procs ≤ ps.max_procs
  -- Each runner ever created stands once in the store, or was closed once.
  pub accounted : Perm (vals ps.procs ++ ps.closed) (below ps.next)
  pub few_failures : (u : String) → length (failures_of u ps) ≤ max_socket_failures

pub IsValid-later : {now now' : ℕ} {ps : Store} → now ≤ now' → IsValid now ps → IsValid now' ps
IsValid-later {now} {now'} {ps} h v = record {
  is_map = v.is_map;
  past = λ u. omega (arith, v.past u);
  absent = v.absent;
  bounded = v.bounded;
  accounted = v.accounted;
  few_failures = v.few_failures;
}

pub time_of-delete : (u v : String) (m : List (String × ℕ)) → time_of u (delete v m) ≤ time_of u m
unfolding time_of
time_of-delete u v m = ground (arith, lookup-delete v u m)

pub time_of-insert :
    (u v : String) (t : ℕ) (m : List (String × ℕ))
    → time_of u (insert v t m) ≡ (if same_user v u then t else time_of u m)
unfolding time_of
time_of-insert u v t m = ground (arith, lookup-insert v u t m)

pub lookup-remove_proc :
    (u v : String) (ps : Store)
    → lookup v (remove_proc u ps).procs ≡ (if same_user u v then none else lookup v ps.procs)
unfolding remove_proc
lookup-remove_proc u v ps = ground (arith, lookup-delete u v ps.procs, eq_iff u v)

taken :
    (u : String) (p now : ℕ) (ps : Store)
    → IsValid now ps
    → lookup u ps.procs ≡ some p
    → IsValid now (record ps {
      procs = delete u ps.procs;
      accessed = delete u ps.accessed;
      closed = p ∷ ps.closed;
    })
taken u p now ps v e = record {
  is_map = delete-IsMap u ps.procs v.is_map;
  past = λ w. omega (arith, v.past w, time_of-delete w u ps.accessed);
  absent =
      λ w h. ground (arith, lookup-delete u w ps.procs, lookup-delete u w ps.accessed, v.absent w);
  bounded = λ h. omega (arith, length-delete u p ps.procs v.is_map e, v.bounded h);
  accounted = Perm.trans (perm_middle (vals (delete u ps.procs)) ps.closed) (
      Perm.trans
        (Perm.append_right ps.closed (Perm.symm (vals-delete-perm u p ps.procs v.is_map e)))
        v.accounted);
  few_failures = λ w. (unfold failures_of in v.few_failures w);
}

-- `removeProc` keeps the invariant: it closes a runner that was not closed before, or none.
pub remove_proc-IsValid :
    (now : ℕ) (u : String) (ps : Store) → IsValid now ps → IsValid now (remove_proc u ps)
unfolding remove_proc
remove_proc-IsValid now u ps v = elim (Option-cases (lookup u ps.procs)) [
  | inl e ↦ rw (e, remove_proc) v
  | inr (p, e) ↦ rw (e, remove_proc) (taken u p now ps v e)
]

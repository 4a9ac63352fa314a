-- ===== src/Htproc/Store/Requests.antt =====
-- `getCreateProc` of htproc/procStore.go.
use Prim.Native.String.{String}
use mathlib.Core.List.Perm
use text.Mathlib.TextEquality.{eq_iff}
use tasked.Base.{
  Bool-cases, Option-cases, length, ℕ, ◌<◌, ◌≡◌, inl, inr, Bool, true, false, none, some, List,
  arith,
}
use tasked.Base.Dict.{
  lookup, insert, delete, lookup-insert, insert-IsMap, length-insert_new, vals-insert-perm,
}
use tasked.Htproc.Status.{temporarily_banned}
use tasked.Htproc.Store.{
  failure_recovery_time, Store, is_within, remove_idle, evict, create, got, refused, get_new,
  get_create_proc, failures_of,
}
use tasked.Htproc.Store.Valid.{below, IsValid, time_of-insert}
use tasked.Htproc.Store.Evict.{evict-IsValid, evict_keeps, evict_room, evict_absent}
use tasked.Htproc.Store.Idle.{lookup-remove_idle, remove_idle-IsValid}

-- What the store is when a new runner is created.
record IsReady (now : ℕ) (user : String) (ps : Store) : Type 0 where
  valid : IsValid now ps
  room : 0 < ps.max_procs → length ps.procs < ps.max_procs
  new : lookup user ps.procs ≡ none

created :
    (now : ℕ) (user : String) (ps : Store) → IsReady now user ps → IsValid now (create now user ps)
unfolding create failures_of below
created now user ps r = record {
  is_map = insert-IsMap user ps.next ps.procs r.valid.is_map;
  past = λ u. ground (arith, time_of-insert u user now ps.accessed, r.valid.past u);
  absent = λ u h. ground (
    arith,
    lookup-insert user u ps.next ps.procs,
    lookup-insert user u now ps.accessed,
    r.valid.absent u,
  );
  bounded = λ h. omega (arith, length-insert_new user ps.next ps.procs r.new, r.room h);
  accounted =
      Perm.trans (Perm.append_right ps.closed (vals-insert-perm user ps.next ps.procs r.new))
        (Perm.cons ps.next r.valid.accounted);
  few_failures = r.valid.few_failures;
}

abbrev pub cleared : ℕ → Store → Store
cleared now ps = evict now (remove_idle now ps)

cleared-IsReady :
    (now : ℕ) (user : String) (ps : Store)
    → IsValid now ps
    → lookup user ps.procs ≡ none
    → IsReady now user (cleared now ps)
cleared-IsReady now user ps v n = record {
  valid = evict-IsValid now (remove_idle now ps) idle;
  room = λ h.
      ground
        (arith, evict_keeps now (remove_idle now ps), evict_room now (remove_idle now ps) idle);
  new = evict_absent now user (remove_idle now ps) (ground (arith, lookup-remove_idle now user ps));
}
  where
    idle : IsValid now (remove_idle now ps)
    idle = remove_idle-IsValid now ps v

get_new-IsValid :
    (now : ℕ) (user : String) (ps : Store)
    → IsValid now ps
    → lookup user ps.procs ≡ none
    → IsValid now (get_new now user ps).0
unfolding get_new
get_new-IsValid now user ps v n =
    created now user (cleared now ps) (cleared-IsReady now user ps v n)

touched :
    (now : ℕ) (user : String) (p : ℕ) (ps : Store)
    → IsValid now ps
    → lookup user ps.procs ≡ some p
    → IsValid now (record ps { accessed = insert user now ps.accessed })
touched now user p ps v e = record {
  is_map = v.is_map;
  past = λ u. ground (arith, time_of-insert u user now ps.accessed, v.past u);
  absent = λ u h. ground (arith, lookup-insert user u now ps.accessed, v.absent u, eq_iff user u);
  bounded = v.bounded;
  accounted = v.accounted;
  few_failures = λ u. (unfold failures_of in v.few_failures u);
}

with_banned-IsValid :
    (now : ℕ) (ps : Store) (m : List (String × ℕ))
    → IsValid now ps
    → IsValid now (record ps { banned = m })
with_banned-IsValid now ps m v = record {
  is_map = v.is_map;
  past = v.past;
  absent = v.absent;
  bounded = v.bounded;
  accounted = v.accounted;
  few_failures = λ u. (unfold failures_of in v.few_failures u);
}

-- A ban of the user that has not run out.
abbrev pub is_banned : ℕ → String → Store → Bool
is_banned now user ps = elim (lookup user ps.banned) [
  | none ↦ false
  | some bt ↦ is_within now bt failure_recovery_time
]

-- The store without the ban of a user.
abbrev pub unbanned : String → Store → Store
unbanned user ps = elim (lookup user ps.banned) [
  | none ↦ ps
  | some bt ↦ record ps { banned = delete user ps.banned }
]

pub refuses :
    (now : ℕ) (user : String) (ps : Store)
    → lookup user ps.procs ≡ none
    → is_banned now user ps ≡ true
    → get_create_proc now user ps ≡ (ps, refused temporarily_banned)
unfolding get_create_proc
refuses now user ps n b = ground arith

pub creates :
    (now : ℕ) (user : String) (ps : Store)
    → lookup user ps.procs ≡ none
    → is_banned now user ps ≡ false
    → get_create_proc now user ps ≡ get_new now user (unbanned user ps)
unfolding get_create_proc
creates now user ps n b = ground arith

pub reuses :
    (now : ℕ) (user : String) (p : ℕ) (ps : Store)
    → lookup user ps.procs ≡ some p
    → get_create_proc now user ps ≡ (record ps { accessed = insert user now ps.accessed }, got p)
unfolding get_create_proc
reuses now user p ps e = rw (e, get_create_proc)

pub unbanned_keeps :
    (user : String) (ps : Store)
    → ((unbanned user ps).procs ≡ ps.procs) × ((unbanned user ps).next ≡ ps.next)
unbanned_keeps user ps = ground arith

unbanned-IsValid :
    (now : ℕ) (user : String) (ps : Store) → IsValid now ps → IsValid now (unbanned user ps)
unbanned-IsValid now user ps v = elim (Option-cases (lookup user ps.banned)) [
  | inl e ↦ rw (e, unbanned) v
  | inr (bt, e) ↦ rw (e, unbanned) (with_banned-IsValid now ps (delete user ps.banned) v)
]

-- `getCreateProc` keeps the invariant, whatever it answers: among others, there are never more
-- runners than the option allows, and no runner is closed twice.
pub get_create_proc-IsValid :
    (now : ℕ) (user : String) (ps : Store)
    → IsValid now ps
    → IsValid now (get_create_proc now user ps).0
get_create_proc-IsValid now user ps v = elim (Option-cases (lookup user ps.procs)) [
  | inr (p, e) ↦ rw (reuses now user p ps e) (touched now user p ps v e)
  | inl n ↦ elim (Bool-cases (is_banned now user ps)) [
    | inl b ↦ rw (refuses now user ps n b) v
    | inr b ↦ rw (creates now user ps n b) (
        get_new-IsValid now user (unbanned user ps) (unbanned-IsValid now user ps v)
          (ground (arith, unbanned_keeps user ps)))
  ]
]

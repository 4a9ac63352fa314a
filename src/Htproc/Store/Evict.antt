-- ===== src/Htproc/Store/Evict.antt =====
-- The eviction in `getCreateProc` of htproc/procStore.go.
use Prim.Native.String.{String}
use text.Mathlib.Text.{◌==◌ as same_user}
use tasked.Base.{
  ltb, leb, if◌then◌else◌, Bool-cases, Option-cases, length, ℕ, suc, ◌≤◌, ◌<◌, ◌≡◌, ap, ◌∙◌, inl,
  inr, Bool, true, false, ◌&&◌, none, some, List, [], ◌∷◌, arith,
}
use tasked.Base.Dict.{has, lookup, keys, keys_absent, length-delete}
use tasked.Htproc.Store.{Store, time_of, remove_proc, oldest_loop, evict}
use tasked.Htproc.Store.Valid.{IsValid, lookup-remove_proc, remove_proc-IsValid}
use tasked.Htproc.Store.Oldest.{IsOldest, oldest_loop-IsOldest}
use tasked.Htproc.Store.Idle.{remove_proc_keeps}

-- The user whose runner is evicted.
abbrev pub victim : ℕ → Store → String
victim now ps = oldest_loop ps.accessed (keys ps.procs) "" now

abbrev pub is_full : Store → Bool
is_full ps = ltb 0 ps.max_procs && leb ps.max_procs (length ps.procs)

victim_lem :
    (now : ℕ) (procs accessed : List (String × ℕ))
    → ((u : String) → time_of u accessed ≤ now)
    → 0 < length procs
    → (has (oldest_loop accessed (keys procs) "" now) (keys procs) ≡ true)
      × IsOldest accessed (keys procs) (oldest_loop accessed (keys procs) "" now)
unfolding keys
victim_lem now [] accessed h k = absurd (omega arith)
victim_lem now ((u, p) ∷ m) accessed h k = oldest_loop-IsOldest accessed u (keys m) "" now (h u)

lookup_of_has :
    (u : String) (m : List (String × ℕ)) → has u (keys m) ≡ true → (p : ℕ) × (lookup u m ≡ some p)
lookup_of_has u m h = elim (Option-cases (lookup u m)) [
  | inl e ↦ absurd (absent_has (keys_absent u m e) h)
  | inr found ↦ found
]
  where
    absent_has : {b : Bool} → b ≡ false → b ≡ true → ⊥
    absent_has p q = cc

evict_full :
    (now : ℕ) (ps : Store) → is_full ps ≡ true → evict now ps ≡ remove_proc (victim now ps) ps
unfolding evict
evict_full now ps f = rw f

pub closed-remove_proc :
    (u : String) (p : ℕ) (ps : Store)
    → lookup u ps.procs ≡ some p
    → (remove_proc u ps).closed ≡ p ∷ ps.closed
unfolding remove_proc
closed-remove_proc u p ps e = rw (e, remove_proc)

full_pos : (ps : Store) → is_full ps ≡ true → 0 < length ps.procs
full_pos ps f = ground arith

-- Where the store is full, one runner is removed and closed: one whose user was away for as long as
-- any, of the users of the runners. All other runners stay.
pub evict_lem :
    (now : ℕ) (ps : Store)
    → IsValid now ps
    → is_full ps ≡ true
    → IsOldest ps.accessed (keys ps.procs) (victim now ps)
      × ((p : ℕ) × (lookup (victim now ps) ps.procs ≡ some p)
          × ((evict now ps).closed ≡ p ∷ ps.closed))
      × ((v : String)
          → lookup v (evict now ps).procs
            ≡ (if same_user (victim now ps) v then none else lookup v ps.procs))
evict_lem now ps v f =
    let (h, oldest) = victim_lem now ps.procs ps.accessed v.past (full_pos ps f) in
    let (p, e) = lookup_of_has (victim now ps) ps.procs h in
    (
      oldest,
      (
        p,
        e,
        ap (λ (q : Store). q.closed) (evict_full now ps f)
            ∙ closed-remove_proc (victim now ps) p ps e,
      ),
      λ w.
          ap (λ (q : Store). lookup w q.procs) (evict_full now ps f)
          ∙ lookup-remove_proc (victim now ps) w ps,
    )

pub evict-IsValid : (now : ℕ) (ps : Store) → IsValid now ps → IsValid now (evict now ps)
unfolding evict
evict-IsValid now ps v = elim (Bool-cases (is_full ps)) [
  | inl full ↦ rw full (remove_proc-IsValid now (victim now ps) ps v)
  | inr room ↦ rw room v
]

pub evict_keeps :
    (now : ℕ) (ps : Store)
    → ((evict now ps).max_procs ≡ ps.max_procs) × ((evict now ps).next ≡ ps.next)
unfolding evict
evict_keeps now ps = ground (arith, remove_proc_keeps (victim now ps) ps)

length-remove_proc :
    (u : String) (p now : ℕ) (ps : Store)
    → IsValid now ps
    → lookup u ps.procs ≡ some p
    → suc (length (remove_proc u ps).procs) ≡ length ps.procs
unfolding remove_proc
length-remove_proc u p now ps v e = ground (arith, length-delete u p ps.procs v.is_map)

-- There is room for one more.
pub evict_room :
    (now : ℕ) (ps : Store)
    → IsValid now ps
    → 0 < ps.max_procs
    → length (evict now ps).procs < ps.max_procs
unfolding evict
evict_room now ps v h = elim (Bool-cases (is_full ps)) [
  | inl full ↦
      let (p, e) =
        lookup_of_has (victim now ps) ps.procs
          (victim_lem now ps.procs ps.accessed v.past (ground arith)).0 in
      rw full (omega (arith, length-remove_proc (victim now ps) p now ps v e, v.bounded h))
  | inr room ↦ rw room (ground arith)
]

pub evict_absent :
    (now : ℕ) (u : String) (ps : Store)
    → lookup u ps.procs ≡ none
    → lookup u (evict now ps).procs ≡ none
unfolding evict
evict_absent now u ps h = ground (arith, lookup-remove_proc (victim now ps) u ps)

-- ===== src/Htproc/Store/Answers.antt =====
-- What `getCreateProc` of htproc/procStore.go answers.
use Prim.Native.String.{String}
use text.Mathlib.TextPositions.{eq_refl}
use tasked.Base.{
  if◌then◌else◌, Bool-cases, Option-cases, ℕ, ◌≡◌, sym, ◌≢◌, inl, inr, true, Option, none, some,
  arith,
}
use tasked.Base.Dict.{lookup, lookup-insert}
use tasked.Htproc.Status.{Error, temporarily_banned}
use tasked.Htproc.Store.{
  Store, time_of, remove_idle, create, GetCreateResult, got, refused, get_new, get_create_proc,
}
use tasked.Htproc.Store.Valid.{time_of-insert}
use tasked.Htproc.Store.Evict.{evict_keeps}
use tasked.Htproc.Store.Idle.{remove_idle_keeps}
use tasked.Htproc.Store.Requests.{
  cleared, is_banned, unbanned, refuses, creates, reuses, unbanned_keeps,
}

get_new-got :
    (now : ℕ) (user : String) (ps : Store)
    → ((get_new now user ps).1 ≡ got ps.next)
      × (lookup user (get_new now user ps).0.procs ≡ some ps.next)
      × (time_of user (get_new now user ps).0.accessed ≡ now)
unfolding get_new create
get_new-got now user ps = ground (
  arith,
  evict_keeps now (remove_idle now ps),
  remove_idle_keeps now ps,
  eq_refl user,
  lookup-insert user user (cleared now ps).next (cleared now ps).procs,
  time_of-insert user user now (cleared now ps).accessed,
)

got-ne-refused : (p : ℕ) (e : Error) → got p ≢ refused e
got-ne-refused p e h = cc

-- What a user is told: the runner in the store, or that the ban has not run out, or the next runner.
abbrev pub answer : ℕ → String → Store → GetCreateResult
answer now user ps = elim (lookup user ps.procs) [
  | some p ↦ got p
  | none ↦ if is_banned now user ps then refused temporarily_banned else got ps.next
]

abbrev pub runner_of : GetCreateResult → Option ℕ
runner_of (got p) = some p
runner_of (refused e) = none

-- A user with a runner gets it; one without, but with a ban that has not run out, gets an error; any
-- other gets a runner that was never there before. The runner that was given out, and no other, is the
-- user's runner from then on.
pub get_create_proc_lem :
    (now : ℕ) (user : String) (ps : Store)
    → ((get_create_proc now user ps).1 ≡ answer now user ps)
      × (lookup user (get_create_proc now user ps).0.procs ≡ runner_of (answer now user ps))
get_create_proc_lem now user ps = elim (Option-cases (lookup user ps.procs)) [
  | inr (p, e) ↦ rw (reuses now user p ps e) (ground arith)
  | inl n ↦ elim (Bool-cases (is_banned now user ps)) [
    | inl b ↦ rw (refuses now user ps n b) (ground arith)
    | inr b ↦
        rw (creates now user ps n b)
          (ground (arith, get_new-got now user (unbanned user ps), unbanned_keeps user ps))
  ]
]

-- A user who is refused has no runner and a ban that has not run out, and the store stays as it is.
pub get_create_proc-refused :
    (now : ℕ) (user : String) (ps : Store) (e : Error)
    → (get_create_proc now user ps).1 ≡ refused e
    → (get_create_proc now user ps ≡ (ps, refused temporarily_banned))
      × (is_banned now user ps ≡ true)
      × (lookup user ps.procs ≡ none)
get_create_proc-refused now user ps e h = elim (Option-cases (lookup user ps.procs)) [
  | inr (p, f) ↦ absurd (got-ne-refused p e (rw (reuses now user p ps f) at h))
  | inl n ↦ elim (Bool-cases (is_banned now user ps)) [
    | inl b ↦ (refuses now user ps n b, b, n)
    | inr b ↦
        let g = (get_new-got now user (unbanned user ps)).0 in
        absurd (got-ne-refused (unbanned user ps).next e (rw (creates now user ps n b, g) at h))
  ]
]

-- A user who is served is on record as having used the runner at this time.
pub time_of-get_create_proc :
    (now : ℕ) (user : String) (ps : Store) (p : ℕ)
    → (get_create_proc now user ps).1 ≡ got p
    → time_of user (get_create_proc now user ps).0.accessed ≡ now
time_of-get_create_proc now user ps p h = elim (Option-cases (lookup user ps.procs)) [
  | inr (q, e) ↦
      rw (reuses now user q ps e)
        (ground (arith, time_of-insert user user now ps.accessed, eq_refl user))
  | inl n ↦ elim (Bool-cases (is_banned now user ps)) [
    | inl b ↦ absurd (got-ne-refused p temporarily_banned (sym (rw (refuses now user ps n b) at h)))
    | inr b ↦ rw (creates now user ps n b) (get_new-got now user (unbanned user ps)).2
  ]
]

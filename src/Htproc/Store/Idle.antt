-- ===== src/Htproc/Store/Idle.antt =====
-- `removeIdle` of htproc/procStore.go removes the runners that were not used for a time, and no other.
use Prim.Native.String.{String}
use text.Mathlib.Text.{◌==◌ as same_user}
use text.Mathlib.TextEquality.{eq_iff}
use tasked.Base.{
  if◌then◌else◌, Bool-cases, length, ℕ, ◌≤◌, ◌≡◌, refl, ap, ◌∙◌, inl, inr, Bool, false, not, ◌&&◌,
  none, List, [], ◌∷◌, arith,
}
use tasked.Base.Dict.{has, lookup, keys, lookup-delete, has-keys, length-delete-le}
use tasked.Htproc.Store.{
  proc_idle_timeout, Store, time_of, remove_proc, is_within, remove_idle_loop, remove_idle,
}
use tasked.Htproc.Store.Valid.{IsValid, lookup-remove_proc, remove_proc-IsValid}

pub time_of-remove_proc :
    (u v : String) (ps : Store)
    → same_user u v ≡ false
    → time_of v (remove_proc u ps).accessed ≡ time_of v ps.accessed
unfolding remove_proc time_of
time_of-remove_proc u v ps h = ground (arith, lookup-delete u v ps.accessed)

pub remove_proc_keeps :
    (u : String) (ps : Store)
    → ((remove_proc u ps).max_procs ≡ ps.max_procs)
      × ((remove_proc u ps).next ≡ ps.next)
      × (length (remove_proc u ps).procs ≤ length ps.procs)
unfolding remove_proc
remove_proc_keeps u ps = ground (arith, length-delete-le u ps.procs)

abbrev pub is_idle : ℕ → String → Store → Bool
is_idle now u ps = not (is_within now (time_of u ps.accessed) proc_idle_timeout)

idle_step : ℕ → String → Store → Store
idle_step now u ps = if is_idle now u ps then remove_proc u ps else ps

loop_step :
    (now : ℕ) (u : String) (us : List String) (ps : Store)
    → remove_idle_loop now (u ∷ us) ps ≡ remove_idle_loop now us (idle_step now u ps)
unfolding remove_idle_loop idle_step
loop_step now u us ps = ground arith

step-lookup :
    (now : ℕ) (u v : String) (ps : Store)
    → lookup v (idle_step now u ps).procs
      ≡ (if same_user u v && is_idle now v ps then none else lookup v ps.procs)
unfolding idle_step
step-lookup now u v ps = ground (arith, lookup-remove_proc u v ps, eq_iff u v)

step-is_idle :
    (now : ℕ) (u v : String) (ps : Store)
    → same_user u v ≡ false
    → is_idle now v (idle_step now u ps) ≡ is_idle now v ps
unfolding idle_step
step-is_idle now u v ps h = ground (arith, time_of-remove_proc u v ps)

busy_step : (now : ℕ) (u : String) (ps : Store) → is_idle now u ps ≡ false → idle_step now u ps ≡ ps
unfolding idle_step
busy_step now u ps h = rw h

after_step :
    (now : ℕ) (u : String) (us : List String) (v : String) (ps : Store)
    → (if has v us && is_idle now v (idle_step now u ps)
        then none
        else lookup v (idle_step now u ps).procs)
      ≡ (if has v (u ∷ us) && is_idle now v ps then none else lookup v ps.procs)
unfolding has
after_step now u us v ps =
    ground (arith, step-lookup now u v ps, step-is_idle now u v ps, busy_step now u ps, eq_iff u v)

loop-lookup :
    (now : ℕ) (us : List String) (v : String) (ps : Store)
    → lookup v (remove_idle_loop now us ps).procs
      ≡ (if has v us && is_idle now v ps then none else lookup v ps.procs)
loop-lookup now [] v ps = unfold remove_idle_loop has in refl
loop-lookup now (u ∷ us) v ps =
    ap (λ (q : Store). lookup v q.procs) (loop_step now u us ps)
    ∙ loop-lookup now us v (idle_step now u ps)
    ∙ after_step now u us v ps

-- After `removeIdle` a user has the runner from before it, if that was used within the idle timeout,
-- and none otherwise.
pub lookup-remove_idle :
    (now : ℕ) (v : String) (ps : Store)
    → lookup v (remove_idle now ps).procs ≡ (
        if is_within now (time_of v ps.accessed) proc_idle_timeout then lookup v ps.procs else none)
unfolding remove_idle
lookup-remove_idle now v ps =
    ground (arith, loop-lookup now (keys ps.procs) v ps, has-keys v ps.procs)

step-IsValid :
    (now : ℕ) (u : String) (ps : Store) → IsValid now ps → IsValid now (idle_step now u ps)
unfolding idle_step
step-IsValid now u ps v = elim (Bool-cases (is_idle now u ps)) [
  | inl idle ↦ rw idle (remove_proc-IsValid now u ps v)
  | inr busy ↦ rw busy v
]

loop-IsValid :
    (now : ℕ) (us : List String) (ps : Store)
    → IsValid now ps
    → IsValid now (remove_idle_loop now us ps)
loop-IsValid now [] ps v = unfold remove_idle_loop in v
loop-IsValid now (u ∷ us) ps v =
    rw (loop_step now u us ps) (loop-IsValid now us (idle_step now u ps) (step-IsValid now u ps v))

step_keeps :
    (now : ℕ) (u : String) (ps : Store)
    → ((idle_step now u ps).max_procs ≡ ps.max_procs) × ((idle_step now u ps).next ≡ ps.next)
unfolding idle_step
step_keeps now u ps = ground (arith, remove_proc_keeps u ps)

loop_keeps :
    (now : ℕ) (us : List String) (ps : Store)
    → ((remove_idle_loop now us ps).max_procs ≡ ps.max_procs)
      × ((remove_idle_loop now us ps).next ≡ ps.next)
loop_keeps now [] ps = unfold remove_idle_loop in (refl, refl)
loop_keeps now (u ∷ us) ps =
    rw (loop_step now u us ps)
      (ground (arith, loop_keeps now us (idle_step now u ps), step_keeps now u ps))

pub remove_idle_keeps :
    (now : ℕ) (ps : Store)
    → ((remove_idle now ps).max_procs ≡ ps.max_procs) × ((remove_idle now ps).next ≡ ps.next)
unfolding remove_idle
remove_idle_keeps now ps = loop_keeps now (keys ps.procs) ps

-- `removeIdle` keeps the invariant.
pub remove_idle-IsValid : (now : ℕ) (ps : Store) → IsValid now ps → IsValid now (remove_idle now ps)
unfolding remove_idle
remove_idle-IsValid now ps v = loop-IsValid now (keys ps.procs) ps v

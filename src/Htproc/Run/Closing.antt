-- ===== src/Htproc/Run/Closing.antt =====
-- What the loop of htproc/procStore.go does to the runners: the invariant of the store holds as long
-- as the loop runs, and no runner is ever closed twice, which would be a panic.
use Prim.Native.String.{String}
use mathlib.Core.List.{Nodup, Mem, Nodup-cons, Nodup-append, Nodup-nil, mem-cons, not-mem-nil}
use mathlib.Core.List.Perm
use mathlib.Core.Path.{subst}
use mathlib.Core.Logic.Or
use native.Mathlib.Bridge.{le_prop}
use tasked.Base.{
  Bool-cases, length, ℕ, zero, suc, ◌≤◌, ◌<◌, ◌≡◌, refl, sym, inl, inr, Bool, Option, List, [], ◌∷◌,
  ◌++◌, arith,
}
use tasked.Base.Dict.{lookup, vals}
use tasked.Htproc.Status.{Error, Status, Failure}
use tasked.Htproc.Store.{
  Store, new_proc_store, time_of, remove_proc, remove_idle, failures_of, proc_errors,
}
use tasked.Htproc.Store.Valid.{below, IsValid, IsValid-later, remove_proc-IsValid}
use tasked.Htproc.Store.Idle.{remove_idle-IsValid}
use tasked.Htproc.Store.Requests.{get_create_proc-IsValid}
use tasked.Htproc.Store.Failures.{note_failure-IsValid, cleanup_failures-IsValid}
use tasked.Htproc.Run.{
  Event, request, exited, idle_check, close, close_timeout, Phase, running, closing, returned, Loop,
  start, close_procs, wait_for, close_all, on_request, on_exited, on_idle_check, on_status,
  step_running, step_closing, step, run,
}

lt_of_mem-below : (k n : ℕ) → Mem k (below n) → k < n
unfolding below
lt_of_mem-below k zero m = absurd (not-mem-nil m)
lt_of_mem-below k (suc n) m =
    Or.elim le_prop (mem-cons.0 m) (λ e. omega arith) (λ h. le_suc (lt_of_mem-below k n h))
  where
    le_suc : k < n → k < suc n
    le_suc h = omega arith

below-Nodup : (n : ℕ) → Nodup (below n)
unfolding below
below-Nodup zero = Nodup-nil
below-Nodup (suc n) = Nodup-cons.1 (λ m. absurd (lt_irrefl (lt_of_mem-below n n m)), below-Nodup n)
  where
    lt_irrefl : n < n → ⊥
    lt_irrefl h = omega arith

-- The clock does not go back from `now` on.
abbrev pub IsOrdered : ℕ → List Event → Type 0
IsOrdered now [] = Unit {0}
IsOrdered now (request _ t ∷ es) = (now ≤ t) × IsOrdered t es
IsOrdered now (exited _ _ _ t ∷ es) = (now ≤ t) × IsOrdered t es
IsOrdered now (idle_check t ∷ es) = (now ≤ t) × IsOrdered t es
IsOrdered now (close ∷ es) = IsOrdered now es
IsOrdered now (close_timeout ∷ es) = IsOrdered now es

-- While the loop runs the store is valid. Behind that, no runner was closed twice.
abbrev pub IsSound : ℕ → Phase → Store → Type 0
IsSound now running ps = IsValid now ps
IsSound now (closing _ _) ps = Nodup ps.closed
IsSound now (returned _) ps = Nodup ps.closed

valid-Nodup : {now : ℕ} {ps : Store} → IsValid now ps → Nodup (vals ps.procs ++ ps.closed)
valid-Nodup {ps} v = Perm.nodup (Perm.symm v.accounted) (below-Nodup ps.next)

proc_errors-IsValid :
    (now : ℕ) (notify : Bool) (user : String) (errs : List Error) (ps : Store)
    → IsValid now ps
    → IsValid now (proc_errors now notify user errs ps).0
unfolding proc_errors
proc_errors-IsValid now notify user [] ps v = v
proc_errors-IsValid now notify user (e ∷ es) ps v = note_failure-IsValid now user ps v

Nodup-running : {now : ℕ} {ps : Store} → IsValid now ps → Nodup ps.closed
Nodup-running {ps} v = (Nodup-append.0 (valid-Nodup v)).1

exited-IsSound :
    (notify : Bool) (user : String) (status : Status) (now : ℕ) (l : Loop)
    → IsValid now l.store
    → IsSound now
        (on_exited notify user status now l).phase
        (on_exited notify user status now l).store
unfolding on_exited
exited-IsSound notify user status now l v = elim (Bool-cases status.cleanup_failed) [
  | inl failed ↦ rw failed (Nodup-running after)
  | inr clean ↦ rw clean after
]
  where
    after : IsValid now (proc_errors now notify user status.errors (remove_proc user l.store)).0
    after =
        proc_errors-IsValid now notify user status.errors (remove_proc user l.store)
          (remove_proc-IsValid now user l.store v)

wait_for-IsSound :
    (now : ℕ) (pu : List (String × ℕ)) (c : ℕ) (ps : Store)
    → Nodup ps.closed
    → IsSound now (wait_for pu c) ps
unfolding wait_for
wait_for-IsSound now pu zero ps h = h
wait_for-IsSound now pu (suc c) ps h = h

running-IsSound :
    (notify : Bool) (now : ℕ) (e : Event) (es : List Event) (l : Loop)
    → l.phase ≡ running
    → IsValid now l.store
    → IsOrdered now (e ∷ es)
    → (now' : ℕ) × IsSound now' (step_running notify e l).phase (step_running notify e l).store
      × IsOrdered now' es
unfolding step_running on_request on_idle_check close_all close_procs
running-IsSound notify now (request user t) es l r v o =
    (t, rw r (get_create_proc-IsValid t user l.store (IsValid-later o.0 v)), o.1)
running-IsSound notify now (exited user p status t) es l r v o =
    (t, exited-IsSound notify user status t l (IsValid-later o.0 v), o.1)
running-IsSound notify now (idle_check t) es l r v o = (
  t,
  rw r (
      cleanup_failures-IsValid t (remove_idle t l.store)
        (remove_idle-IsValid t l.store (IsValid-later o.0 v))),
  o.1,
)
running-IsSound notify now close es l r v o =
    (now, wait_for-IsSound now l.store.procs (length l.store.procs) _ (valid-Nodup v), o)
running-IsSound notify now close_timeout es l r v o = (now, rw r v, o)

IsOrdered-tail :
    (now : ℕ) (e : Event) (es : List Event)
    → IsOrdered now (e ∷ es)
    → (now' : ℕ) × IsOrdered now' es
IsOrdered-tail now (request user t) es o = (t, o.1)
IsOrdered-tail now (exited user p status t) es o = (t, o.1)
IsOrdered-tail now (idle_check t) es o = (t, o.1)
IsOrdered-tail now close es o = (now, o)
IsOrdered-tail now close_timeout es o = (now, o)

status-IsSound :
    (notify : Bool) (now : ℕ) (pu : List (String × ℕ)) (c runner : ℕ) (status : Status) (l : Loop)
    → Nodup l.store.closed
    → IsSound now
        (on_status notify pu c runner status l).phase
        (on_status notify pu c runner status l).store
unfolding on_status
status-IsSound notify now pu c runner status l h = elim (Bool-cases status.cleanup_failed) [
  | inl failed ↦ rw failed h
  | inr clean ↦ rw clean (wait_for-IsSound now pu c l.store h)
]

closing-IsSound :
    (notify : Bool) (now : ℕ) (pu : List (String × ℕ)) (c : ℕ) (e : Event) (l : Loop)
    → l.phase ≡ closing pu c
    → Nodup l.store.closed
    → IsSound now (step_closing notify pu c e l).phase (step_closing notify pu c e l).store
unfolding step_closing
closing-IsSound notify now pu (suc c) (exited user p status t) l r h =
    status-IsSound notify now pu c p status l h
closing-IsSound notify now pu zero close_timeout l r h = h
closing-IsSound notify now pu (suc c) close_timeout l r h = h
closing-IsSound notify now pu _ _ l r h = rw r h

pub step_running_lem :
    (notify : Bool) (e : Event) (l : Loop)
    → l.phase ≡ running
    → step notify e l ≡ step_running notify e l
unfolding step
step_running_lem notify e l r = ground arith

pub step_closing_lem :
    (notify : Bool) (e : Event) (l : Loop) (pu : List (String × ℕ)) (c : ℕ)
    → l.phase ≡ closing pu c
    → step notify e l ≡ step_closing notify pu c e l
unfolding step
step_closing_lem notify e l pu c r = ground arith

pub step_returned_lem :
    (notify : Bool) (e : Event) (l : Loop) (x : Option Failure)
    → l.phase ≡ returned x
    → step notify e l ≡ l
unfolding step
step_returned_lem notify e l x r = ground arith

abbrev Sound : ℕ → Loop → Type 0
Sound now l = IsSound now l.phase l.store

step-Sound :
    (notify : Bool) (now : ℕ) (e : Event) (es : List Event) (l : Loop) (phase : Phase)
    → l.phase ≡ phase
    → IsSound now phase l.store
    → IsOrdered now (e ∷ es)
    → (now' : ℕ) × Sound now' (step notify e l) × IsOrdered now' es
step-Sound notify now e es l running r h o =
    let (now', h', o') = running-IsSound notify now e es l r h o in
    (now', subst (Sound now') (sym (step_running_lem notify e l r)) h', o')
step-Sound notify now e es l (closing pu c) r h o =
    let (now', o') = IsOrdered-tail now e es o in
    (
      now',
      subst (Sound now') (sym (step_closing_lem notify e l pu c r))
          (closing-IsSound notify now' pu c e l r h),
      o',
    )
step-Sound notify now e es l (returned x) r h o =
    let (now', o') = IsOrdered-tail now e es o in
    (
      now',
      subst (Sound now') (sym (step_returned_lem notify e l x r))
          (subst (λ phase. IsSound now' phase l.store) (sym r) h),
      o',
    )

run-IsSound :
    (notify : Bool) (now : ℕ) (es : List Event) (l : Loop)
    → IsSound now l.phase l.store
    → IsOrdered now es
    → (now' : ℕ) × IsSound now' (run notify es l).phase (run notify es l).store
unfolding run
run-IsSound notify now [] l h o = (now, h)
run-IsSound notify now (e ∷ es) l h o =
    let (now', h', o') = step-Sound notify now e es l l.phase refl h o in
    run-IsSound notify now' es (step notify e l) h' o'

start-IsValid : (max : ℕ) → IsValid 0 (start max).store
unfolding start new_proc_store
start-IsValid max = record {
  is_map = tt;
  past = λ u. (unfold time_of lookup in omega arith);
  absent = λ u h. (unfold lookup in refl);
  bounded = λ h. omega arith;
  accounted = (unfold vals below in Perm.refl []);
  few_failures = λ u. (unfold failures_of lookup in omega arith);
}

sound-Nodup : (now : ℕ) (phase : Phase) (ps : Store) → IsSound now phase ps → Nodup ps.closed
sound-Nodup now running ps h = Nodup-running h
sound-Nodup now (closing pu c) ps h = h
sound-Nodup now (returned r) ps h = h

-- Whatever events come, in whatever order, as long as the times at which the loop reads the clock, those
-- of its idle timer included, never go back, the loop never closes a runner twice.
pub run-Nodup :
    (notify : Bool) (max : ℕ) (es : List Event)
    → IsOrdered 0 es
    → Nodup (run notify es (start max)).store.closed
run-Nodup notify max es o =
    let (now, h) = run-IsSound notify 0 es (start max) (unfold start in start-IsValid max) o in
    sound-Nodup now _ _ h

-- Let the times at which the loop reads the clock, those of its idle timer included, never go back. As
-- long as the loop runs, no user has two runners, there are no more runners than the option allows, where
-- it sets a limit, and each runner that was ever created either stands in the store or was closed, once.
pub run-IsValid :
    (notify : Bool) (max : ℕ) (es : List Event)
    → IsOrdered 0 es
    → (run notify es (start max)).phase ≡ running
    → (now : ℕ) × IsValid now (run notify es (start max)).store
run-IsValid notify max es o r =
    let (now, h) = run-IsSound notify 0 es (start max) (unfold start in start-IsValid max) o in
    (now, rw r at h)

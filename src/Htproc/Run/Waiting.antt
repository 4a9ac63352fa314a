-- ===== src/Htproc/Run/Waiting.antt =====
-- `closeAll` of htproc/procStore.go waits for as many exit statuses as there are runners.
use Prim.Native.String.{String}
use mathlib.Core.Path.{subst}
use tasked.Base.{
  Bool-cases, length, All, ℕ, zero, suc, ◌-◌, ◌≤◌, ◌<◌, ◌≡◌, refl, sym, ap, ◌∙◌, inl, inr, Bool,
  true, false, none, some, List, [], ◌∷◌, ◌++◌, arith,
}
use tasked.Base.Dict.{vals}
use tasked.Htproc.Status.{proc_cleanup_failed, proc_store_close_timeouted, Status, plain}
use tasked.Htproc.Store.{Store}
use tasked.Htproc.Run.{
  Event, request, exited, idle_check, close, close_timeout, Phase, running, closing, returned, Loop,
  close_procs, wait_for, close_all, on_status, step_running, step_closing, step, run,
}
use tasked.Htproc.Run.Closing.{step_running_lem, step_closing_lem, step_returned_lem}

-- A status of a runner that could be cleaned up.
abbrev pub IsClean : Event → Type 0
IsClean (exited _ _ status _) = status.cleanup_failed ≡ false
IsClean _ = ⊥

wait_for_zero : (pu : List (String × ℕ)) → wait_for pu 0 ≡ returned none
unfolding wait_for
wait_for_zero pu = refl

wait_for_suc : (pu : List (String × ℕ)) (n : ℕ) → 0 < n → wait_for pu n ≡ closing pu n
unfolding wait_for
wait_for_suc pu zero h = absurd (omega arith)
wait_for_suc pu (suc n) h = refl

step_clean :
    (notify : Bool) (e : Event) (l : Loop) (pu : List (String × ℕ)) (c : ℕ)
    → l.phase ≡ closing pu (suc c)
    → IsClean e
    → (step notify e l).phase ≡ wait_for pu c
step_clean notify (exited user p status t) l pu c r k =
    rw (step_closing_lem notify (exited user p status t) l pu (suc c) r)
      (unfold step_closing on_status in rw k)
step_clean notify (request _ _) l pu c r k = absurd k
step_clean notify (idle_check _) l pu c r k = absurd k
step_clean notify close l pu c r k = absurd k
step_clean notify close_timeout l pu c r k = absurd k

run_clean :
    (notify : Bool) (es : List Event) (l : Loop) (pu : List (String × ℕ)) (n : ℕ)
    → l.phase ≡ wait_for pu n
    → All IsClean es
    → length es ≤ n
    → (run notify es l).phase ≡ wait_for pu (n - length es)
unfolding run
run_clean notify [] l pu n r k h = r ∙ ap (wait_for pu) (omega arith)
run_clean notify (e ∷ es) l pu zero r k h = absurd (omega arith)
run_clean notify (e ∷ es) l pu (suc n) r k h =
    run_clean notify es (step notify e l) pu n
      (step_clean notify e l pu n (r ∙ wait_for_suc pu (suc n) (omega arith)) k.0) k.1 (omega arith)
    ∙ ap (wait_for pu) (omega arith)

run-append :
    (notify : Bool) (es fs : List Event) (l : Loop)
    → run notify (es ++ fs) l ≡ run notify fs (run notify es l)
unfolding run
run-append notify [] fs l = refl
run-append notify (e ∷ es) fs l = run-append notify es fs (step notify e l)

step_failed :
    (notify : Bool) (user : String) (p t : ℕ) (status : Status) (l : Loop) (pu : List (String × ℕ))
    (n : ℕ)
    → l.phase ≡ closing pu n
    → 0 < n
    → status.cleanup_failed ≡ true
    → (step notify (exited user p status t) l).phase ≡ returned (some (plain proc_cleanup_failed))
step_failed notify user p t status l pu zero r h k = absurd (omega arith)
step_failed notify user p t status l pu (suc n) r h k =
    rw (step_closing_lem notify (exited user p status t) l pu (suc n) r)
      (unfold step_closing on_status in rw k)

step_timeout :
    (notify : Bool) (l : Loop) (pu : List (String × ℕ)) (n : ℕ)
    → l.phase ≡ closing pu n
    → (step notify close_timeout l).phase ≡ returned (some (plain proc_store_close_timeouted))
step_timeout notify l pu zero r =
    rw (step_closing_lem notify close_timeout l pu zero r) (unfold step_closing in refl)
step_timeout notify l pu (suc n) r =
    rw (step_closing_lem notify close_timeout l pu (suc n) r) (unfold step_closing in refl)

step_close :
    (notify : Bool) (l : Loop)
    → l.phase ≡ running
    → (step notify close l).phase ≡ wait_for l.store.procs (length l.store.procs)
step_close notify l r =
    rw (step_running_lem notify close l r) (unfold step_running close_all in refl)

abbrev IsOver : Phase → Type 0
IsOver running = ⊥
IsOver (closing _ _) = Unit {0}
IsOver (returned _) = Unit {0}

wait_for-IsOver : (pu : List (String × ℕ)) (n : ℕ) → IsOver (wait_for pu n)
unfolding wait_for
wait_for-IsOver pu zero = tt
wait_for-IsOver pu (suc n) = tt

abbrev Over : Loop → Loop → Type 0
Over l m = (m.store ≡ l.store) × IsOver m.phase

status_Over :
    (notify : Bool) (pu : List (String × ℕ)) (c p : ℕ) (status : Status) (l : Loop)
    → Over l (on_status notify pu c p status l)
unfolding on_status
status_Over notify pu c p status l = elim (Bool-cases status.cleanup_failed) [
  | inl failed ↦ (refl, rw failed tt)
  | inr clean ↦ (refl, rw clean (wait_for-IsOver pu c))
]

closing_Over :
    (notify : Bool) (e : Event) (l : Loop) (pu : List (String × ℕ)) (n : ℕ)
    → l.phase ≡ closing pu n
    → Over l (step_closing notify pu n e l)
unfolding step_closing
closing_Over notify (exited user p status t) l pu (suc n) r = status_Over notify pu n p status l
closing_Over notify close_timeout l pu zero r = (refl, tt)
closing_Over notify close_timeout l pu (suc n) r = (refl, tt)
closing_Over notify _ l pu zero r = (refl, subst IsOver (sym r) tt)
closing_Over notify _ l pu (suc n) r = (refl, subst IsOver (sym r) tt)

step-Over :
    (notify : Bool) (e : Event) (l : Loop) (phase : Phase)
    → l.phase ≡ phase
    → IsOver phase
    → Over l (step notify e l)
step-Over notify e l running r o = absurd o
step-Over notify e l (closing pu n) r o =
    subst (Over l) (sym (step_closing_lem notify e l pu n r)) (closing_Over notify e l pu n r)
step-Over notify e l (returned x) r o =
    subst (Over l) (sym (step_returned_lem notify e l x r)) (refl, subst IsOver (sym r) tt)

-- A loop that was told to close does not touch the store again.
run_over :
    (notify : Bool) (es : List Event) (l : Loop)
    → IsOver l.phase
    → (run notify es l).store ≡ l.store
unfolding run
run_over notify [] l o = refl
run_over notify (e ∷ es) l o =
    let (s, o') = step-Over notify e l l.phase refl o in run_over notify es (step notify e l) o' ∙ s

closed-step_close :
    (notify : Bool) (l : Loop)
    → l.phase ≡ running
    → (step notify close l).store.closed ≡ vals l.store.procs ++ l.store.closed
closed-step_close notify l r =
    rw (step_running_lem notify close l r) (unfold step_running close_all close_procs in refl)

-- A running loop that is told to close closes all runners. It then waits for as many statuses as there
-- were runners: after clean ones, fewer or as many, it waits for the rest, and where none is missing it
-- returns nil.
pub run_close :
    (notify : Bool) (l : Loop) (es : List Event)
    → l.phase ≡ running
    → All IsClean es
    → length es ≤ length l.store.procs
    → ((run notify (close ∷ es) l).store.closed ≡ vals l.store.procs ++ l.store.closed)
      × ((run notify (close ∷ es) l).phase
          ≡ wait_for l.store.procs (length l.store.procs - length es))
unfolding run
run_close notify l es r k h =
    let w = step_close notify l r in
    (
      ap (λ (q : Store). q.closed)
            (run_over notify es (step notify close l)
              (subst IsOver (sym w) (wait_for-IsOver l.store.procs (length l.store.procs))))
          ∙ closed-step_close notify l r,
      run_clean notify es (step notify close l) l.store.procs (length l.store.procs) w k h,
    )

-- Where clean statuses came in behind the close, but fewer than there were runners, the loop returns an
-- error at a status that is not clean, whatever else that holds, and it returns another at the timeout.
pub run_close_fails :
    (notify : Bool) (l : Loop) (es : List Event) (user : String) (p t : ℕ) (status : Status)
    → l.phase ≡ running
    → All IsClean es
    → length es < length l.store.procs
    → status.cleanup_failed ≡ true
    → ((run notify (close ∷ (es ++ exited user p status t ∷ [])) l).phase
        ≡ returned (some (plain proc_cleanup_failed)))
      × ((run notify (close ∷ (es ++ close_timeout ∷ [])) l).phase
          ≡ returned (some (plain proc_store_close_timeouted)))
unfolding run
run_close_fails notify l es user p t status r k h f =
    let still =
      (run_close notify l es r k (omega arith)).1
      ∙ wait_for_suc l.store.procs (length l.store.procs - length es) (omega arith) in
    (
      ap (λ (q : Loop). q.phase) (run-append notify es _ (step notify close l))
          ∙ step_failed notify user p t status _ l.store.procs _ still (omega arith) f,
      ap (λ (q : Loop). q.phase) (run-append notify es _ (step notify close l))
          ∙ step_timeout notify _ l.store.procs _ still,
    )

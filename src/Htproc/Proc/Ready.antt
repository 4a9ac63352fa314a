-- ===== src/Htproc/Proc/Ready.antt =====
-- How often `run` of htproc/proc.go closes `p.ready`.
use tasked.Base.{if◌then◌else◌, ◌≡◌, refl, Bool, true, false, ◌||◌, List, arith}
use tasked.Htproc.Status.{Error, Status}
use tasked.Htproc.Proc.{
  Signals, Event, Phase, selecting, waiting, returned, Proc, wait_exit_end, step_selecting,
  step_waiting, step,
}

abbrev pub is_returned : Phase → Bool
is_returned (returned s) = true
is_returned _ = false

abbrev IsOnce : Proc → Type 0
IsOnce p = p.ready ≡ (if p.started || is_returned p.phase then 1 else 0)

wait_exit_end-IsOnce :
    (s : Status) (errs : List Error) (p : Proc)
    → is_returned p.phase ≡ false
    → IsOnce p
    → IsOnce (wait_exit_end s errs p)
unfolding wait_exit_end
wait_exit_end-IsOnce s errs p n h = ground arith

pub step_selecting_lem :
    (os : Signals) (e : Event) (p : Proc)
    → p.phase ≡ selecting
    → step os e p ≡ step_selecting os e p
unfolding step
step_selecting_lem os e p r = rw r refl

pub step_waiting_lem :
    (os : Signals) (e : Event) (p : Proc) (kill : Bool) (errs : List Error)
    → p.phase ≡ waiting kill errs
    → step os e p ≡ step_waiting os kill errs e p
unfolding step
step_waiting_lem os e p kill errs r = rw r refl

pub step_returned_lem :
    (os : Signals) (e : Event) (p : Proc) (s : Status) → p.phase ≡ returned s → step os e p ≡ p
unfolding step
step_returned_lem os e p s r = rw r refl

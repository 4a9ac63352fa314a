-- ===== src/Htproc/Proc.antt =====
-- The life of a process in htproc/proc.go: `run` with `signalWait`, `waitExit` and `outputError`, as a
-- machine on what comes from the channels and the timers, and `serve` and `close`.
pub mod Ready
pub mod Ending
pub mod Serving
use tasked.Base.{
  if◌then◌else◌, same_text, ℕ, suc, ◌+◌, Bool, true, false, not, ◌&&◌, Option, none, some, List, [],
  ◌∷◌, ◌++◌,
}
use tasked.Htproc.Status.{
  Error, proc_closed, unexpected_exit, startup_timeouted, exit_timeouted, kill_signaled,
  socket_failure, Status,
}
use tasked.Htproc.Output.{ReadError, eof, read_fails, LineRead, startup_message, wait_output}

-- What `cmd.Wait` gives: no error, an error that is no `ExitError`, an exit code, or another end, with
-- what the wait status says of a signal, where there is one.
pub data Waited : Type 0 where
  success : Waited
  wait_fails : Error → Waited
  exit_code : Waited
  not_exited : Error → Option Bool → Waited

abbrev is_signaled : Option Bool → Bool
is_signaled none = false
is_signaled (some b) = b

unfoldable pub of_waited : Waited → Status
of_waited success = record { errors = []; cleanup_failed = false }
of_waited (wait_fails e) = record { errors = e ∷ []; cleanup_failed = true }
of_waited exit_code = record { errors = []; cleanup_failed = false }
of_waited (not_exited e ws) = record {
  errors = if is_signaled ws then [] else e ∷ [];
  cleanup_failed = not (is_signaled ws);
}

abbrev to_list : Option Error → List Error
to_list none = []
to_list (some e) = e ∷ []

abbrev pub add_errors : List Error → Status → Status
add_errors es s = record s { errors = s.errors ++ es }

-- The goroutine of `signalWait`, with what the two outputs still bring.
unfoldable pub wait_status : Waited → List LineRead → List LineRead → Status
unfolding of_waited
wait_status w stdout stderr =
    add_errors (to_list (wait_output stderr))
      (add_errors (to_list (wait_output stdout)) (of_waited w))

-- The errors of sending SIGTERM and SIGKILL.
pub record Signals : Type 0 where
  pub term : Option Error
  pub kill : Option Error

pub data Event : Type 0 where
  startup_timeout : Event
  stdout_line stderr_line : LineRead → Event
  -- `p.failure` or `p.exit` is closed.
  failure exit : Event
  -- The goroutine of `signalWait` sends a status.
  waited : Status → Event
  exit_timeout : Event

-- In `waiting`, `kill` says whether SIGKILL was sent, and `errs` are the errors that `waitExit` appends.
pub data Phase : Type 0 where
  selecting : Phase
  waiting : (kill : Bool) (errs : List Error) → Phase
  returned : Status → Phase

-- `ready` counts the calls of `close(p.ready)`.
pub record Proc : Type 0 where
  pub started : Bool
  pub ready : ℕ
  pub phase : Phase

unfoldable pub start_error : Error → Proc
start_error e = record {
  started = false;
  ready = 1;
  phase = returned (record { errors = e ∷ []; cleanup_failed = false });
}

-- `run` up to its loop: the errors of the two pipes and of `cmd.Start`.
unfoldable pub start : Option Error → Option Error → Option Error → Proc
unfolding start_error
start (some e) se cmd = start_error e
start none (some e) cmd = start_error e
start none none (some e) = start_error e
start none none none = record { started = false; ready = 0; phase = selecting }

-- The end of `waitExit`, for a status of `signalWait`.
unfoldable pub wait_exit_end : Status → List Error → Proc → Proc
wait_exit_end s errs p = record p {
  ready = if p.started then p.ready else suc p.ready;
  phase = returned (add_errors errs s);
}

unfoldable pub wait_exit : Signals → Bool → List Error → Proc → Proc
wait_exit os signal errs p = elim (if signal then os.term else none) [
  | some e ↦ wait_exit_end (record { errors = e ∷ []; cleanup_failed = true }) errs p
  | none ↦ record p { phase = waiting false errs }
]

unfoldable pub output_error : Signals → ReadError → Proc → Proc
output_error os eof p = wait_exit os false (unexpected_exit ∷ []) p
output_error os (read_fails e) p = wait_exit os true (e ∷ []) p

unfoldable pub on_stdout : Signals → LineRead → Proc → Proc
on_stdout os l p = elim l.err [
  | some e ↦ output_error os e p
  | none ↦
      if not p.started && same_text l.line startup_message
      then record p { started = true; ready = suc p.ready }
      else p
]

unfoldable pub on_stderr : Signals → LineRead → Proc → Proc
on_stderr os l p = elim l.err [ some e ↦ output_error os e p | none ↦ p ]

-- The select of `run`.
unfoldable pub step_selecting : Signals → Event → Proc → Proc
step_selecting os startup_timeout p =
    if p.started then p else wait_exit os true (startup_timeouted ∷ []) p
step_selecting os (stdout_line l) p = on_stdout os l p
step_selecting os (stderr_line l) p = on_stderr os l p
step_selecting os failure p = wait_exit os true (socket_failure ∷ []) p
step_selecting os exit p = wait_exit os true [] p
step_selecting os (waited s) p = p
step_selecting os exit_timeout p = p

unfoldable pub on_exit_timeout : Signals → Bool → List Error → Proc → Proc
on_exit_timeout os kill errs p =
    if kill
    then wait_exit_end (record { errors = exit_timeouted ∷ []; cleanup_failed = true }) errs p
    else elim os.kill [
      | some e ↦ wait_exit_end (record { errors = e ∷ []; cleanup_failed = true }) errs p
      | none ↦ record p { phase = waiting true errs }
    ]

-- The select of `signalWait`.
unfoldable pub step_waiting : Signals → Bool → List Error → Event → Proc → Proc
step_waiting os kill errs (waited s) p =
    wait_exit_end (add_errors (if kill then kill_signaled ∷ [] else []) s) errs p
step_waiting os kill errs exit_timeout p = on_exit_timeout os kill errs p
step_waiting os kill errs e p = p

unfoldable pub step : Signals → Event → Proc → Proc
step os e p = elim p.phase [
  | selecting ↦ step_selecting os e p
  | waiting kill errs ↦ step_waiting os kill errs e p
  | returned s ↦ p
]

unfoldable pub run : Signals → List Event → Proc → Proc
run os [] p = p
run os (e ∷ es) p = run os es (step os e p)

-- Which of a process's channels are closed.
pub record Channels : Type 0 where
  pub ready : Bool
  pub exit : Bool
  pub failure : Bool

-- A request waits for `p.ready`, or was answered, with the error of `serve`, or its goroutine panics,
-- since it closes a closed channel.
pub data Served : Type 0 where
  blocked : Served
  answered : Option Error → Served
  panics : Served

-- `proxy` is the error of `p.proxy.serve`.
unfoldable pub serve : Option Error → Channels → Channels × Served
serve proxy ch =
    if not ch.ready
    then (ch, blocked)
    else if ch.exit
    then (ch, answered (some proc_closed))
    else elim proxy [
      | none ↦ (ch, answered none)
      | some e ↦
          if ch.failure then (ch, panics) else (record ch { failure = true }, answered (some e))
    ]

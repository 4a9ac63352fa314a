-- ===== src/Htproc/Proc/Ending.antt =====
-- How `run` of htproc/proc.go ends.
use tasked.Base.{
  if◌then◌else◌, Option-cases, Runes, ℕ, suc, ◌+◌, ◌≤◌, ◌≡◌, refl, inl, inr, Bool, true, false, not,
  Option, none, some, List, [], ◌∷◌, ◌++◌, arith,
}
use tasked.Htproc.Status.{Error, startup_timeouted, kill_signaled}
use tasked.Htproc.Output.{ReadError, eof, read_fails, LineRead, Slice, filter_lines, wait_output}
use tasked.Htproc.Output.Filtering.{IsSound, wait_output-filter_lines}
use tasked.Htproc.Proc.{
  Waited, success, wait_fails, exit_code, not_exited, of_waited, wait_status, Signals, Event,
  startup_timeout, stdout_line, stderr_line, failure, exit, waited, exit_timeout, Phase, selecting,
  waiting, returned, Proc, wait_exit_end, wait_exit, output_error, on_stdout, on_stderr,
  step_selecting, on_exit_timeout, step_waiting, step, run,
}
use tasked.Htproc.Proc.Ready.{is_returned, step_selecting_lem, step_waiting_lem, step_returned_lem}

-- How many of the events are for `signalWait`.
unfoldable pub waits : List Event → ℕ
waits [] = 0
waits (waited s ∷ es) = suc (waits es)
waits (exit_timeout ∷ es) = suc (waits es)
waits (_ ∷ es) = waits es

-- How many events for `signalWait` a phase may still take.
abbrev patience : Phase → ℕ
patience selecting = 3
patience (waiting kill errs) = if kill then 1 else 2
patience (returned s) = 0

abbrev pub is_selecting : Phase → Bool
is_selecting selecting = true
is_selecting _ = false

step-patience :
    (os : Signals) (e : Event) (p : Proc) (phase : Phase) (n : ℕ)
    → p.phase ≡ phase
    → is_selecting phase ≡ false
    → patience phase ≤ waits (e ∷ []) + n
    → (is_selecting (step os e p).phase ≡ false) × (patience (step os e p).phase ≤ n)
unfolding waits step_waiting on_exit_timeout wait_exit_end
step-patience os e p selecting n r k h = absurd (cc)
step-patience os e p (waiting kill errs) n r k h =
    rw (step_waiting_lem os e p kill errs r) (ground arith)
step-patience os e p (returned s) n r k h = rw (step_returned_lem os e p s r) (ground arith)

waits-cons : (e : Event) (es : List Event) → waits (e ∷ es) ≡ waits (e ∷ []) + waits es
unfolding waits
waits-cons e es = ground arith

run-patience :
    (os : Signals) (es : List Event) (p : Proc)
    → is_selecting p.phase ≡ false
    → patience p.phase ≤ waits es
    → is_returned (run os es p).phase ≡ true
unfolding run
run-patience os [] p k h = unfold waits in ground arith
run-patience os (e ∷ es) p k h =
    let (k', h') =
      step-patience os e p p.phase (waits es) refl k (omega (arith, waits-cons e es)) in
    run-patience os es (step os e p) k' h'

-- An event at which `run` leaves its select, where the process has reported ready or not.
abbrev pub stops : Bool → Event → Bool
stops started startup_timeout = not started
stops started (stdout_line l) = elim l.err [ none ↦ false | some e ↦ true ]
stops started (stderr_line l) = elim l.err [ none ↦ false | some e ↦ true ]
stops started failure = true
stops started exit = true
stops started (waited s) = false
stops started exit_timeout = false

wait_exit-stops :
    (os : Signals) (signal : Bool) (errs : List Error) (p : Proc)
    → is_selecting (wait_exit os signal errs p).phase ≡ false
unfolding wait_exit wait_exit_end
wait_exit-stops os signal errs p = ground arith

output_error-stops :
    (os : Signals) (e : ReadError) (p : Proc) → is_selecting (output_error os e p).phase ≡ false
unfolding output_error
output_error-stops os eof p = wait_exit-stops os false _ p
output_error-stops os (read_fails e) p = wait_exit-stops os true _ p

selecting-stops :
    (os : Signals) (e : Event) (p : Proc)
    → stops p.started e ≡ true
    → is_selecting (step_selecting os e p).phase ≡ false
unfolding step_selecting on_stdout on_stderr
selecting-stops os startup_timeout p h =
    ground (arith, wait_exit-stops os true (startup_timeouted ∷ []) p)
selecting-stops os (stdout_line l) p h = elim (Option-cases l.err) [
  | inl e ↦ absurd (cc)
  | inr (e, f) ↦ rw f (output_error-stops os e p)
]
selecting-stops os (stderr_line l) p h = elim (Option-cases l.err) [
  | inl e ↦ absurd (cc)
  | inr (e, f) ↦ rw f (output_error-stops os e p)
]
selecting-stops os failure p h = wait_exit-stops os true _ p
selecting-stops os exit p h = wait_exit-stops os true _ p
selecting-stops os (waited s) p h = absurd (cc)
selecting-stops os exit_timeout p h = absurd (cc)

step-stops :
    (os : Signals) (e : Event) (p : Proc) (phase : Phase)
    → p.phase ≡ phase
    → stops p.started e ≡ true
    → is_selecting (step os e p).phase ≡ false
step-stops os e p selecting r h = rw (step_selecting_lem os e p r) (selecting-stops os e p h)
step-stops os e p (waiting kill errs) r h =
    (step-patience os e p (waiting kill errs) 2 r refl (ground arith)).0
step-stops os e p (returned s) r h = rw (step_returned_lem os e p s r) (rw r refl)

patience-le : (phase : Phase) → is_selecting phase ≡ false → patience phase ≤ 2
patience-le phase h = ground arith

run-append :
    (os : Signals) (es es' : List Event) (p : Proc)
    → run os (es ++ es') p ≡ run os es' (run os es p)
unfolding run
run-append os [] es' p = refl
run-append os (e ∷ es) es' p = run-append os es es' (step os e p)

-- After any events at all, let one come at which `run` stops: the startup timeout while the process has
-- not reported ready, an error of one of its outputs, a failure, or the close. Then `run` returns by the
-- second event that `signalWait` gets: the exit of the process, or the timeout, of which there are two.
pub run-stops :
    (os : Signals) (es es' : List Event) (e : Event) (p : Proc)
    → stops (run os es p).started e ≡ true
    → 2 ≤ waits es'
    → is_returned (run os (es ++ e ∷ es') p).phase ≡ true
unfolding run
run-stops os es es' e p h k =
    let q = run os es p in
    let n = step-stops os e q q.phase refl h in
    rw (run-append os es (e ∷ es') p)
      (run-patience os es' (step os e q) n (omega (arith, patience-le (step os e q).phase n)))

-- The process ended with an exit code or by a signal.
abbrev pub IsOrderly : Waited → Type 0
IsOrderly success = Unit
IsOrderly (wait_fails e) = ⊥
IsOrderly exit_code = Unit
IsOrderly (not_exited e ws) = ws ≡ some true

orderly : (w : Waited) → IsOrderly w → of_waited w ≡ record { errors = []; cleanup_failed = false }
unfolding of_waited
orderly success h = refl
orderly (wait_fails e) h = absurd h
orderly exit_code h = refl
orderly (not_exited e ws) h = ground arith

wait_status-orderly :
    (w : Waited) (stdout stderr : List LineRead)
    → IsOrderly w
    → wait_output stdout ≡ none
    → wait_output stderr ≡ none
    → wait_status w stdout stderr ≡ record { errors = []; cleanup_failed = false }
unfolding wait_status
wait_status-orderly w stdout stderr h so se = rw (so, se, orderly w h) refl

module _ (write : Runes → Option Error) (writes : (bytes : Runes) → write bytes ≡ none) where
  -- Let a process be closed while `run` is in its select, SIGTERM and SIGKILL be sent without an error, and what is left of its two
  -- outputs be read and written without one. If it ends with an exit code or by a signal within the exit
  -- timeout, `run` returns no error. If it does so only behind one timeout, `run` returns just the error
  -- that the process was killed. Its clean-up did not fail in either case.
  pub run_exit :
      (os : Signals) (p : Proc) (w : Waited) (stdout stderr : List Slice) (l m : List Runes)
      → p.phase ≡ selecting
      → os.term ≡ none
      → os.kill ≡ none
      → IsOrderly w
      → IsSound stdout
      → IsSound stderr
      → ((run os
            (exit
              ∷ waited (
                  wait_status w
                    (filter_lines write l stdout).sent
                    (filter_lines write m stderr).sent)
              ∷ [])
            p).phase
          ≡ returned (record { errors = []; cleanup_failed = false }))
        × ((run os
              (exit
                ∷ exit_timeout
                ∷ waited (
                    wait_status w
                      (filter_lines write l stdout).sent
                      (filter_lines write m stderr).sent)
                ∷ [])
              p).phase
            ≡ returned (record { errors = kill_signaled ∷ []; cleanup_failed = false }))
  unfolding run step step_selecting step_waiting on_exit_timeout wait_exit wait_exit_end
  run_exit os p w stdout stderr l m r t k h so se =
      let s =
        wait_status-orderly w (filter_lines write l stdout).sent (filter_lines write m stderr).sent
          h (wait_output-filter_lines write writes l stdout so)
          (wait_output-filter_lines write writes m stderr se) in
      rw s (ground arith)

-- ===== src/Htproc/ProcExamples.antt =====
-- Runs of a process of htproc/proc.go on concrete events, and the theorems at concrete inputs.
use tasked.Base.{
  Runes, codes, same_text, ◌≡◌, refl, true, false, Option, none, some, [], ◌∷◌, arith,
}
use tasked.Htproc.Status.{Error, socket_failure, unexpected_exit}
use tasked.Htproc.Output.{eof, ends_in_newline, of_error, startup_message, filter_lines}
use tasked.Htproc.Output.Filtering.{ends, output, filter_lines-output}
use tasked.Htproc.Proc.{
  Signals, Event, stdout_line, failure, exit, exit_timeout, startup_timeout, waiting, wait_exit,
  output_error, on_stdout, on_exit_timeout, step_selecting, step_waiting, step, Proc, start, run,
  answered, panics,
}
use tasked.Htproc.Proc.Ready.{is_returned}
use tasked.Htproc.Proc.Ending.{waits, run-stops}
use tasked.Htproc.Proc.Serving.{serve_all, serve_all_fails}

abbrev signals : Signals
signals = record { term = none; kill = none }

abbrev report : Event
report = stdout_line (record { line = startup_message; err = none })

abbrev spawned : Proc
spawned = start none none none

abbrev writer : Runes → Option Error
writer bytes = none

run-stops_example :
    is_returned
      (run signals (report ∷ failure ∷ exit_timeout ∷ report ∷ exit_timeout ∷ []) spawned).phase
    ≡ true
run-stops_example =
    run-stops signals (report ∷ []) (exit_timeout ∷ report ∷ exit_timeout ∷ []) failure spawned refl
      (unfold waits in omega arith)

filter_lines-output_example :
    filter_lines writer
      (startup_message ∷ [])
      (output (codes "hello" ∷ codes "ready" ∷ []) (ends (codes "bye")))
    ≡ record {
      sent = record { line = startup_message; err = none } ∷ of_error eof ∷ [];
      written = codes "hello\n" ∷ codes "bye" ∷ [];
    }
unfolding same_text
filter_lines-output_example =
    filter_lines-output writer (λ bytes. refl) (codes "hello" ∷ codes "ready" ∷ [])
      (ends (codes "bye")) (unfold ends_in_newline in refl)

serve_all_fails_example :
    (serve_all
      (some socket_failure ∷ none ∷ some socket_failure ∷ [])
      (record { ready = true; exit = false; failure = false })).1
    ≡ answered (some socket_failure) ∷ answered none ∷ panics ∷ []
serve_all_fails_example =
    serve_all_fails socket_failure (none ∷ some socket_failure ∷ [])
      (record { ready = true; exit = false; failure = false }) refl refl refl

-- A process that reports, and later closes its output.
run-report :
    run signals (report ∷ startup_timeout ∷ stdout_line (of_error eof) ∷ exit_timeout ∷ []) spawned
    ≡ record { started = true; ready = 1; phase = waiting true (unexpected_exit ∷ []) }
unfolding run step step_selecting step_waiting on_stdout on_exit_timeout output_error wait_exit
    start same_text
run-report = refl

-- ===== src/Htproc/Run.antt =====
-- The event loop of the store: `run`, `closeAll` and `getCreate` of htproc/procStore.go. Each event is
-- what one of the channels brings, with the time at which the loop reads the clock. The loop takes the
-- events in an order that the environment chooses; the channels hold nothing back.
pub mod Closing
pub mod Stale
pub mod Waiting
use Prim.Native.String.{String}
use tasked.Base.{
  ◌==◌, if◌then◌else◌, length, ℕ, zero, suc, Bool, Option, none, some, List, [], ◌∷◌, ◌++◌,
}
use tasked.Base.Dict.{vals}
use tasked.Htproc.Status.{
  proc_cleanup_failed, proc_store_close_timeouted, Status, ProcError, Failure, plain, of_proc,
}
use tasked.Htproc.Store.{
  Store, new_proc_store, remove_proc, remove_idle, GetCreateResult, get_create_proc, notices,
  proc_errors, cleanup_failures,
}

pub data Event : Type 0 where
  -- A request for a user's runner, from `getCreate`.
  request : (user : String) (now : ℕ) → Event
  -- A runner returned from its `run`.
  exited : (user : String) (runner : ℕ) (status : Status) (now : ℕ) → Event
  idle_check : (now : ℕ) → Event
  -- `ps.exit` is closed.
  close : Event
  close_timeout : Event

-- In `closing` the store waits for the given number of statuses, and knows the runners by the map `pu`.
pub data Phase : Type 0 where
  running : Phase
  closing : (pu : List (String × ℕ)) (count : ℕ) → Phase
  returned : Option Failure → Phase

-- `sent` is what was sent to `procErrors`, and `replies` what was answered to the requests.
pub record Loop : Type 0 where
  pub store : Store
  pub phase : Phase
  pub sent : List ProcError
  pub replies : List GetCreateResult

unfoldable pub start : ℕ → Loop
unfolding new_proc_store
start max = record { store = new_proc_store max; phase = running; sent = []; replies = [] }

-- `user, _ := pu[s.proc]`
unfoldable pub user_of : ℕ → List (String × ℕ) → String
user_of p [] = ""
user_of p ((u, q) ∷ m) = if q == p then u else user_of p m

-- Closes all runners, and leaves the map as it is.
unfoldable pub close_procs : Store → Store
close_procs ps = record ps { closed = vals ps.procs ++ ps.closed }

-- `waitAll` brings nil as soon as no status is missing.
unfoldable pub wait_for : List (String × ℕ) → ℕ → Phase
wait_for pu zero = returned none
wait_for pu (suc c) = closing pu (suc c)

unfoldable pub close_all : Loop → Loop
unfolding close_procs wait_for
close_all l = record l {
  store = close_procs l.store;
  phase = wait_for l.store.procs (length l.store.procs);
}

unfoldable pub on_request : String → ℕ → Loop → Loop
on_request user now l =
    let (ps, reply) = get_create_proc now user l.store in
    record l { store = ps; replies = l.replies ++ reply ∷ [] }

-- The flag says whether there is a channel for the errors.
unfoldable pub on_exited : Bool → String → Status → ℕ → Loop → Loop
on_exited notify user status now l =
    let (ps, errs) = proc_errors now notify user status.errors (remove_proc user l.store) in
    record l {
      store = ps;
      sent = l.sent ++ errs;
      phase =
          if status.cleanup_failed
          then returned (some (of_proc (record { user = user; err = proc_cleanup_failed })))
          else running;
    }

unfoldable pub on_idle_check : ℕ → Loop → Loop
on_idle_check now l = record l { store = cleanup_failures now (remove_idle now l.store) }

-- One round of the goroutine in `closeAll`, with `c` statuses still to come behind this one.
unfoldable pub on_status : Bool → List (String × ℕ) → ℕ → ℕ → Status → Loop → Loop
on_status notify pu c runner status l = record l {
  sent = l.sent ++ notices notify (user_of runner pu) status.errors;
  phase =
      if status.cleanup_failed then returned (some (plain proc_cleanup_failed)) else wait_for pu c;
}

unfoldable pub step_running : Bool → Event → Loop → Loop
step_running notify (request user now) l = on_request user now l
step_running notify (exited user runner status now) l = on_exited notify user status now l
step_running notify (idle_check now) l = on_idle_check now l
step_running notify close l = close_all l
step_running notify close_timeout l = l

unfoldable pub step_closing : Bool → List (String × ℕ) → ℕ → Event → Loop → Loop
step_closing notify pu (suc c) (exited user runner status now) l =
    on_status notify pu c runner status l
step_closing notify pu n close_timeout l = record l {
  phase = returned (some (plain proc_store_close_timeouted));
}
step_closing notify pu n e l = l

unfoldable pub step : Bool → Event → Loop → Loop
step notify e l = elim l.phase [
  | running ↦ step_running notify e l
  | closing pu c ↦ step_closing notify pu c e l
  | returned r ↦ l
]

unfoldable pub run : Bool → List Event → Loop → Loop
run notify [] l = l
run notify (e ∷ es) l = run notify es (step notify e l)

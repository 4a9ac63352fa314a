-- ===== src/Htproc/Status.antt =====
-- The errors and the exit status of a process: the variables and types of htproc/proc.go and
-- htproc/procStore.go that both files use.
use Prim.Native.String.{String}
use tasked.Base.{ℕ, Bool, List}

-- `external` is an error that comes from the system.
pub data Error : Type 0 where
  proc_closed unexpected_exit startup_timeouted exit_timeouted : Error
  kill_signaled socket_failure proc_store_closed proc_cleanup_failed : Error
  proc_store_close_timeouted temporarily_banned : Error
  external : ℕ → Error

pub record Status : Type 0 where
  pub errors : List Error
  pub cleanup_failed : Bool

pub record ProcError : Type 0 where
  pub user : String
  pub err : Error

-- What a loop returns with: an error of its own, or one of a user's process.
pub data Failure : Type 0 where
  plain : Error → Failure
  of_proc : ProcError → Failure

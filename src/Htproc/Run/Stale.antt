-- ===== src/Htproc/Run/Stale.antt =====
-- The loop of htproc/procStore.go takes an exit status as one of the runner that its user has now.
use Prim.Native.String.{String}
use text.Mathlib.TextPositions.{eq_refl}
use tasked.Base.{ℕ, ◌≡◌, refl, ◌≢◌, Bool, none, some, List, [], ◌∷◌, arith}
use tasked.Base.Dict.{lookup}
use tasked.Htproc.Status.{Error, Status}
use tasked.Htproc.Store.{Store, remove_proc, note_failure, proc_errors}
use tasked.Htproc.Store.Valid.{lookup-remove_proc}
use tasked.Htproc.Store.Evict.{closed-remove_proc}
use tasked.Htproc.Run.{exited, running, Loop, on_exited, step_running, step}
use tasked.Htproc.Run.Closing.{step_running_lem}

proc_errors_keeps :
    (now : ℕ) (notify : Bool) (user : String) (errs : List Error) (ps : Store)
    → ((proc_errors now notify user errs ps).0.procs ≡ ps.procs)
      × ((proc_errors now notify user errs ps).0.closed ≡ ps.closed)
unfolding proc_errors note_failure
proc_errors_keeps now notify user [] ps = (refl, refl)
proc_errors_keeps now notify user (e ∷ es) ps = ground arith

-- Also where the status is one of an earlier runner `p` of the user, which was removed before, the loop
-- removes and closes the runner `q` that the user has by then.
pub step_stale :
    (notify : Bool) (user : String) (p q now : ℕ) (status : Status) (l : Loop)
    → l.phase ≡ running
    → lookup user l.store.procs ≡ some q
    → p ≢ q
    → (lookup user (step notify (exited user p status now) l).store.procs ≡ none)
      × ((step notify (exited user p status now) l).store.closed ≡ q ∷ l.store.closed)
step_stale notify user p q now status l r e n =
    rw (step_running_lem notify (exited user p status now) l r) (
      unfold step_running on_exited in
      ground (
        arith,
        proc_errors_keeps now notify user status.errors (remove_proc user l.store),
        lookup-remove_proc user user l.store,
        eq_refl user,
        closed-remove_proc user q l.store e,
      ))

-- ===== src/Htproc/Examples.antt =====
-- Runs of the store of htproc/ on concrete events, and the theorems at concrete inputs.
use mathlib.Core.List.{Nodup}
use mathlib.Core.List.Perm
use tasked.Base.{
  length, ℕ, ◌-◌, ◌*◌, ◌≡◌, refl, ◌≢◌, true, false, none, some, List, [], ◌∷◌, ◌++◌, arith,
}
use tasked.Base.Dict.{lookup, delete, insert, keys, vals}
use tasked.Htproc.Status.{proc_closed, unexpected_exit, Status}
use tasked.Htproc.Store.{
  second, Store, time_of, remove_proc, remove_idle_loop, remove_idle, oldest_loop, evict, create,
  got, get_new, get_create_proc, failures_of, cleanup_failures_loop, cleanup_banned_loop,
  cleanup_failures,
}
use tasked.Htproc.Store.Valid.{below, IsValid}
use tasked.Htproc.Store.Requests.{is_banned, get_create_proc-IsValid}
use tasked.Htproc.Store.Failures.{is_banned-cleanup_failures}
use tasked.Htproc.Store.Bans.{fail_at, is_banned-fail_at}
use tasked.Htproc.Run.{
  Event, request, exited, idle_check, close, running, Loop, start, wait_for, on_request,
  on_idle_check, step_running, step, run,
}
use tasked.Htproc.Run.Closing.{run-Nodup, run-IsValid}
use tasked.Htproc.Run.Stale.{step_stale}
use tasked.Htproc.Run.Waiting.{run_close}
use tasked.Htproc.Filter.{Round, get_create, passed, handled, filter_round, filter_loop, filter}
use tasked.Htproc.Filter.Statuses.{IsLost}

abbrev clean_status : Status
clean_status = record { errors = []; cleanup_failed = false }

abbrev crashed : Status
crashed = record { errors = unexpected_exit ∷ []; cleanup_failed = false }

abbrev spoilt : Status
spoilt = record { errors = []; cleanup_failed = true }

abbrev minute : ℕ
minute = 60 * second

-- Two users, of whom the first is away for 14 minutes and then comes back.
abbrev history : List Event
history =
    request "ann" minute
    ∷ request "bob" (2 * minute)
    ∷ request "bob" (10 * minute)
    ∷ idle_check (15 * minute)
    ∷ request "ann" (16 * minute)
    ∷ []

abbrev served : Loop
served = run true history (start 2)

served_lem :
    (served.store.procs ≡ ("bob", 1) ∷ ("ann", 2) ∷ [])
    × (served.store.closed ≡ 0 ∷ [])
    × (served.replies ≡ got 0 ∷ got 1 ∷ got 1 ∷ got 2 ∷ [])
    × (served.phase ≡ running)
unfolding run step step_running start on_request on_idle_check get_create_proc get_new create evict
    remove_idle remove_idle_loop remove_proc cleanup_failures cleanup_failures_loop
    cleanup_banned_loop time_of lookup insert delete keys oldest_loop
served_lem = (refl, refl, refl, refl)

run-IsValid_example : (now : ℕ) × IsValid now served.store
run-IsValid_example = run-IsValid true 2 history (omega arith) served_lem.3

run-Nodup_example : Nodup (run true (history ++ close ∷ []) (start 2)).store.closed
run-Nodup_example = run-Nodup true 2 (history ++ close ∷ []) (omega arith)

-- The status of runner 0, which was idle and was closed, closes runner 2.
step_stale_example :
    (lookup "ann" (step true (exited "ann" 0 clean_status (17 * minute)) served).store.procs ≡ none)
    × ((step true (exited "ann" 0 clean_status (17 * minute)) served).store.closed
        ≡ 2 ∷ served.store.closed)
step_stale_example =
    step_stale true "ann" 0 2 (17 * minute) clean_status served served_lem.3 found other
  where
    found : lookup "ann" served.store.procs ≡ some 2
    found = rw served_lem.0 (unfold lookup in refl)

    other : ◌≢◌ {A = ℕ} 0 2
    other = omega arith

served_procs : served.store.procs ≡ ("bob", 1) ∷ ("ann", 2) ∷ []
served_procs = served_lem.0

run_close_example :
    (run true (close ∷ exited "bob" 1 clean_status 0 ∷ exited "ann" 2 crashed 0 ∷ []) served).phase
    ≡ wait_for served.store.procs (length served.store.procs - 2)
run_close_example =
    (run_close true served (exited "bob" 1 clean_status 0 ∷ exited "ann" 2 crashed 0 ∷ [])
      served_lem.3 (refl, (refl, tt)) (rw served_procs (omega arith))).1

-- Two users with a runner each, where no more are allowed.
abbrev full : Store
full = record {
  max_procs = 2;
  procs = ("ann", 0) ∷ ("bob", 1) ∷ [];
  accessed = ("ann", 5) ∷ ("bob", 3) ∷ [];
  failures = [];
  banned = ("eve", 4) ∷ [];
  next = 2;
  closed = [];
}

full-IsValid : IsValid 6 full
unfolding time_of lookup failures_of vals below
full-IsValid = record {
  is_map = (refl, (refl, tt));
  past = λ u. ground arith;
  absent = λ u h. ground arith;
  bounded = λ h. omega arith;
  accounted = Perm.swap 1 0 [];
  few_failures = λ u. omega arith;
}

get_create_proc-IsValid_example : IsValid 6 (get_create_proc 6 "dan" full).0
get_create_proc-IsValid_example = get_create_proc-IsValid 6 "dan" full full-IsValid

abbrev burst : List ℕ
burst = 1 ∷ 2 ∷ 3 ∷ 4 ∷ 5 ∷ 6 ∷ []

is_banned-fail_at_example :
    is_banned (5 * second) "eve" (fail_at "eve" (burst ++ 7 ∷ []) (start 2).store) ≡ true
is_banned-fail_at_example =
    is_banned-fail_at 0 "eve" burst 7 (5 * second) (start 2).store
      (unfold start failures_of lookup in refl) refl (omega arith) (omega arith) (omega arith)

is_banned-cleanup_failures_example :
    is_banned (5 * second) "eve" (cleanup_failures (4 * second) full)
    ≡ is_banned (5 * second) "eve" full
is_banned-cleanup_failures_example =
    is_banned-cleanup_failures (4 * second) (5 * second) "eve" full (unfold lookup in refl, tt)
      (omega arith)

-- A round in which the process was closed, and one in which the store was.
abbrev lost : Round
lost = record { store = some full; now = 7; served = some proc_closed }

abbrev shut : Round
shut = record { store = none; now = 8; served = none }

filter_lem :
    (filter "ann" (lost ∷ shut ∷ []) ≡ handled (some 404))
    × (filter "eve" (lost ∷ []) ≡ handled (some 404))
    × (filter "" (lost ∷ []) ≡ passed)
unfolding filter filter_loop filter_round get_create get_create_proc lookup
filter_lem = (refl, refl, refl)

lost-IsLost : IsLost "ann" lost
unfolding get_create get_create_proc lookup
lost-IsLost = ((0, refl), refl)

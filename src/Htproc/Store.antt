-- ===== src/Htproc/Store.antt =====
-- htproc/procStore.go. Times are nanoseconds since Go's zero time. A runner is its number: the first
-- one that the store creates is 0, and `next` is the number of the next. The path of its socket and
-- the dial timeout are left out.
pub mod Valid
pub mod Oldest
pub mod Idle
pub mod Evict
pub mod Requests
pub mod Answers
pub mod Failures
pub mod Bans
use Prim.Native.String.{String}
use text.Mathlib.Text.{◌==◌ as same_user}
use tasked.Base.{
  ltb, leb, if◌then◌else◌, length, ℕ, suc, ◌-◌, ◌*◌, Bool, true, false, ◌&&◌, none, some, List, [],
  ◌∷◌, ◌++◌, map,
}
use tasked.Base.Dict.{lookup, insert, delete, keys}
use tasked.Htproc.Status.{Error, temporarily_banned, ProcError}

abbrev pub second : ℕ
second = 1_000_000_000

abbrev pub max_socket_failures : ℕ
max_socket_failures = 6

abbrev pub failure_recovery_time : ℕ
failure_recovery_time = 6 * second

abbrev pub proc_idle_timeout : ℕ
proc_idle_timeout = 12 * 60 * second

-- `closed` lists the runners whose `close` was called, the last first. `max_procs` is 0 where the
-- option is negative.
pub record Store : Type 0 where
  pub max_procs : ℕ
  pub procs : List (String × ℕ)
  pub accessed : List (String × ℕ)
  pub failures : List (String × List ℕ)
  pub banned : List (String × ℕ)
  pub next : ℕ
  pub closed : List ℕ

unfoldable pub new_proc_store : ℕ → Store
new_proc_store max = record {
  max_procs = max;
  procs = [];
  accessed = [];
  failures = [];
  banned = [];
  next = 0;
  closed = [];
}

-- A missing key reads as the zero time.
unfoldable pub time_of : String → List (String × ℕ) → ℕ
time_of u m = elim (lookup u m) [ none ↦ 0 | some t ↦ t ]

unfoldable pub remove_proc : String → Store → Store
remove_proc u ps = elim (lookup u ps.procs) [
  | none ↦ ps
  | some p ↦ record ps {
    procs = delete u ps.procs;
    accessed = delete u ps.accessed;
    closed = p ∷ ps.closed;
  }
]

-- `now.Sub(t) < d`, for a positive `d`: also where `t` is after `now`.
abbrev pub is_within : ℕ → ℕ → ℕ → Bool
is_within now t d = ltb (now - t) d

unfoldable pub remove_idle_loop : ℕ → List String → Store → Store
remove_idle_loop now [] ps = ps
remove_idle_loop now (u ∷ us) ps =
    remove_idle_loop now us
      (if is_within now (time_of u ps.accessed) proc_idle_timeout then ps else remove_proc u ps)

unfoldable pub remove_idle : ℕ → Store → Store
remove_idle now ps = remove_idle_loop now (keys ps.procs) ps

-- The loop that looks for the user `ou` whose last access `oa` is the oldest.
unfoldable pub oldest_loop : List (String × ℕ) → List String → String → ℕ → String
oldest_loop accessed [] ou oa = ou
oldest_loop accessed (u ∷ us) ou oa =
    let a = time_of u accessed in
    let later = ltb oa a in
    oldest_loop accessed us (if later then ou else u) (if later then oa else a)

unfoldable pub evict : ℕ → Store → Store
evict now ps =
    if ltb 0 ps.max_procs && leb ps.max_procs (length ps.procs)
    then remove_proc (oldest_loop ps.accessed (keys ps.procs) "" now) ps
    else ps

unfoldable pub create : ℕ → String → Store → Store
create now user ps = record ps {
  procs = insert user ps.next ps.procs;
  accessed = insert user now ps.accessed;
  next = suc ps.next;
}

-- A runner, or an error.
pub data GetCreateResult : Type 0 where
  got : ℕ → GetCreateResult
  refused : Error → GetCreateResult

-- The part of `getCreateProc` for a user without a runner and without a ban.
unfoldable pub get_new : ℕ → String → Store → Store × GetCreateResult
get_new now user ps =
    let room = evict now (remove_idle now ps) in (create now user room, got room.next)

unfoldable pub get_create_proc : ℕ → String → Store → Store × GetCreateResult
get_create_proc now user ps = elim (lookup user ps.procs) [
  | some p ↦ (record ps { accessed = insert user now ps.accessed }, got p)
  | none ↦ elim (lookup user ps.banned) [
    | none ↦ get_new now user ps
    | some bt ↦
        if is_within now bt failure_recovery_time
        then (ps, refused temporarily_banned)
        else get_new now user (record ps { banned = delete user ps.banned })
  ]
]

unfoldable pub discard_failures : List ℕ → ℕ → List ℕ
discard_failures [] now = []
discard_failures (t ∷ ts) now =
    let rest = discard_failures ts now in
    if is_within now t failure_recovery_time then t ∷ ts else rest

unfoldable pub failures_of : String → Store → List ℕ
failures_of user ps = elim (lookup user ps.failures) [ none ↦ [] | some ts ↦ ts ]

-- The first part of `procErrors`, for a status with errors.
unfoldable pub note_failure : ℕ → String → Store → Store
note_failure now user ps =
    let fs = discard_failures (failures_of user ps) now in
    if ltb (length fs) max_socket_failures
    then record ps { failures = insert user (fs ++ now ∷ []) ps.failures }
    else record ps { failures = delete user ps.failures; banned = insert user now ps.banned }

-- What is sent to the channel `notify`, which is nil where the flag is false.
unfoldable pub notices : Bool → String → List Error → List ProcError
notices false user errs = []
notices true user errs = map (λ e. record { user = user; err = e }) errs

unfoldable pub proc_errors : ℕ → Bool → String → List Error → Store → Store × List ProcError
proc_errors now notify user [] ps = (ps, [])
proc_errors now notify user (e ∷ es) ps = (note_failure now user ps, notices notify user (e ∷ es))

unfoldable pub cleanup_failures_loop : ℕ → List (String × List ℕ) → List (String × List ℕ)
cleanup_failures_loop now [] = []
cleanup_failures_loop now ((u, fs) ∷ m) = (u, discard_failures fs now) ∷ cleanup_failures_loop now m

unfoldable pub cleanup_banned_loop : ℕ → List (String × ℕ) → List (String × ℕ)
cleanup_banned_loop now [] = []
cleanup_banned_loop now ((u, b) ∷ m) =
    if ltb failure_recovery_time (now - b)
    then cleanup_banned_loop now m
    else (u, b) ∷ cleanup_banned_loop now m

unfoldable pub cleanup_failures : ℕ → Store → Store
cleanup_failures now ps = record ps {
  failures = cleanup_failures_loop now ps.failures;
  banned = cleanup_banned_loop now ps.banned;
}

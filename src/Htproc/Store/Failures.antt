-- ===== src/Htproc/Store/Failures.antt =====
-- The failures and bans of htproc/procStore.go: `procErrors` and `cleanupFailures`.
use Prim.Native.String.{String}
use mathlib.Core.Path.{subst}
use text.Mathlib.TextEquality.{eq_iff}
use tasked.Base.{
  ltb, if◌then◌else◌, length, length-append, All, ℕ, ◌-◌, ◌≤◌, ◌≡◌, refl, sym, ap, true, none, some,
  List, [], ◌∷◌, ◌++◌, arith,
}
use tasked.Base.Dict.{lookup, IsMap, lookup-insert, lookup-delete}
use tasked.Htproc.Store.{
  max_socket_failures, failure_recovery_time, Store, is_within, discard_failures, failures_of,
  note_failure, cleanup_failures_loop, cleanup_banned_loop, cleanup_failures,
}
use tasked.Htproc.Store.Valid.{IsValid}
use tasked.Htproc.Store.Requests.{is_banned}

length-discard_failures : (ts : List ℕ) (now : ℕ) → length (discard_failures ts now) ≤ length ts
unfolding discard_failures
length-discard_failures [] now = omega arith
length-discard_failures (t ∷ ts) now = ground (arith, length-discard_failures ts now)

-- What is left are the last times of the list, and begins with one within the recovery time.
pub discard_failures-recent :
    (ts : List ℕ) (now : ℕ)
    → All (λ t. is_within now t failure_recovery_time ≡ true) ts
    → discard_failures ts now ≡ ts
unfolding discard_failures
discard_failures-recent [] now h = refl
discard_failures-recent (t ∷ ts) now h = rw h.0

few_after :
    (now : ℕ) (user u : String) (ps : Store)
    → length (failures_of u ps) ≤ max_socket_failures
    → length (failures_of u (note_failure now user ps)) ≤ max_socket_failures
unfolding note_failure failures_of
few_after now user u ps h = ground (
  arith,
  lookup-insert user u (discard_failures (failures_of user ps) now ++ now ∷ []) ps.failures,
  lookup-delete user u ps.failures,
  length-append {0} (discard_failures (failures_of user ps) now) (now ∷ []),
)

-- Only the failures and the bans were changed.
abbrev with_failures : List (String × List ℕ) → List (String × ℕ) → Store → Store
with_failures f b ps = record ps { failures = f; banned = b }

with_failures-IsValid :
    (now : ℕ) (f : List (String × List ℕ)) (b : List (String × ℕ)) (ps : Store)
    → IsValid now ps
    → ((u : String) → length (failures_of u (with_failures f b ps)) ≤ max_socket_failures)
    → IsValid now (with_failures f b ps)
with_failures-IsValid now f b ps v few = record {
  is_map = v.is_map;
  past = v.past;
  absent = v.absent;
  bounded = v.bounded;
  accounted = v.accounted;
  few_failures = few;
}

note_failure-with_failures :
    (now : ℕ) (user : String) (ps : Store)
    → note_failure now user ps
      ≡ with_failures (note_failure now user ps).failures (note_failure now user ps).banned ps
unfolding note_failure
note_failure-with_failures now user ps = ground arith

pub note_failure-IsValid :
    (now : ℕ) (user : String) (ps : Store) → IsValid now ps → IsValid now (note_failure now user ps)
note_failure-IsValid now user ps v =
    let e = note_failure-with_failures now user ps in
    subst (IsValid now) (sym e) (
      with_failures-IsValid now _ _ ps v (λ u.
        subst (λ q. length (failures_of u q) ≤ max_socket_failures) e
          (few_after now user u ps (v.few_failures u))))

lookup-cleanup_failures_loop :
    (now : ℕ) (u : String) (m : List (String × List ℕ))
    → lookup u (cleanup_failures_loop now m)
      ≡ elim (lookup u m) [ none ↦ none | some ts ↦ some (discard_failures ts now) ]
unfolding lookup cleanup_failures_loop
lookup-cleanup_failures_loop now u [] = refl
lookup-cleanup_failures_loop now u ((v, ts) ∷ m) =
    ground (arith, lookup-cleanup_failures_loop now u m)

failures_of-cleanup :
    (now : ℕ) (u : String) (ps : Store)
    → failures_of u (cleanup_failures now ps) ≡ discard_failures (failures_of u ps) now
unfolding failures_of cleanup_failures discard_failures
failures_of-cleanup now u ps = ground (arith, lookup-cleanup_failures_loop now u ps.failures)

few_cleanup :
    (now : ℕ) (u : String) (ps : Store)
    → length (failures_of u ps) ≤ max_socket_failures
    → length (failures_of u (cleanup_failures now ps)) ≤ max_socket_failures
few_cleanup now u ps h = omega (
  arith,
  ap length (failures_of-cleanup now u ps),
  length-discard_failures (failures_of u ps) now,
)

pub cleanup_failures-IsValid :
    (now : ℕ) (ps : Store) → IsValid now ps → IsValid now (cleanup_failures now ps)
cleanup_failures-IsValid now ps v =
    unfold cleanup_failures in
    with_failures-IsValid now _ _ ps v (λ u. few_cleanup now u ps (v.few_failures u))

lookup-cleanup_banned_loop :
    (now : ℕ) (u : String) (m : List (String × ℕ))
    → IsMap m
    → lookup u (cleanup_banned_loop now m) ≡ elim (lookup u m) [
      | none ↦ none
      | some b ↦ (if ltb failure_recovery_time (now - b) then none else some b)
    ]
unfolding lookup cleanup_banned_loop
lookup-cleanup_banned_loop now u [] h = refl
lookup-cleanup_banned_loop now u ((v, b) ∷ m) h =
    ground (arith, lookup-cleanup_banned_loop now u m h.1, eq_iff v u)

-- Where no user stands twice among the bans, the clean-up never lifts a ban that still holds, nor changes what later requests see: at any later
-- time a user is banned after it just if the user would be banned without it.
pub is_banned-cleanup_failures :
    (now later : ℕ) (user : String) (ps : Store)
    → IsMap ps.banned
    → now ≤ later
    → is_banned later user (cleanup_failures now ps) ≡ is_banned later user ps
unfolding cleanup_failures
is_banned-cleanup_failures now later user ps m h =
    ground (arith, lookup-cleanup_banned_loop now user ps.banned m)

-- ===== src/Htproc/Store/Bans.antt =====
-- When `procErrors` of htproc/procStore.go bans a user.
use Prim.Native.String.{String}
use mathlib.Core.Path.{subst}
use text.Mathlib.TextPositions.{eq_refl}
use tasked.Base.{
  length, length-append, All, All-append, ℕ, ◌+◌, ◌≤◌, ◌<◌, ◌≡◌, refl, sym, ◌∙◌, true, some, List,
  [], ◌∷◌, ◌++◌, append-nil, append_assoc, arith,
}
use tasked.Base.Dict.{lookup, lookup-insert}
use tasked.Htproc.Store.{
  max_socket_failures, failure_recovery_time, Store, is_within, discard_failures, failures_of,
  note_failure,
}
use tasked.Htproc.Store.Failures.{discard_failures-recent}
use tasked.Htproc.Store.Requests.{is_banned}

-- `procErrors` at each of the times, for a status with one error or more.
abbrev pub fail_at : String → List ℕ → Store → Store
fail_at user [] ps = ps
fail_at user (t ∷ ts) ps = fail_at user ts (note_failure t user ps)

-- The times lie within the recovery time that begins at `start`.
abbrev pub IsBurst : ℕ → List ℕ → Type 0
IsBurst start = All λ t. (start ≤ t) × (t < start + failure_recovery_time)

IsBurst-recent :
    (start now : ℕ) (ts : List ℕ)
    → IsBurst start (now ∷ [])
    → IsBurst start ts
    → All (λ t. is_within now t failure_recovery_time ≡ true) ts
IsBurst-recent start now [] h k = tt
IsBurst-recent start now (t ∷ ts) h k = (ground arith, IsBurst-recent start now ts h k.1)

note_few :
    (now : ℕ) (user : String) (fs : List ℕ) (ps : Store)
    → failures_of user ps ≡ fs
    → discard_failures fs now ≡ fs
    → length fs < max_socket_failures
    → (failures_of user (note_failure now user ps) ≡ fs ++ now ∷ [])
      × ((note_failure now user ps).banned ≡ ps.banned)
unfolding note_failure failures_of
note_few now user fs ps h d l =
    ground (arith, lookup-insert user user (fs ++ now ∷ []) ps.failures, eq_refl user)

note_many :
    (now : ℕ) (user : String) (fs : List ℕ) (ps : Store)
    → failures_of user ps ≡ fs
    → discard_failures fs now ≡ fs
    → max_socket_failures ≤ length fs
    → lookup user (note_failure now user ps).banned ≡ some now
unfolding note_failure failures_of
note_many now user fs ps h d l = ground (arith, lookup-insert user user now ps.banned, eq_refl user)

burst_few :
    (start : ℕ) (user : String) (fs ts : List ℕ) (ps : Store)
    → failures_of user ps ≡ fs
    → IsBurst start fs
    → IsBurst start ts
    → length fs + length ts ≤ max_socket_failures
    → (failures_of user (fail_at user ts ps) ≡ fs ++ ts) × ((fail_at user ts ps).banned ≡ ps.banned)
burst_few start user fs [] ps h b c l = (h ∙ sym (append-nil fs), refl)
burst_few start user fs (t ∷ ts) ps h b c l =
    let d = discard_failures-recent fs t (IsBurst-recent start t fs (c.0, tt) b) in
    let (f, g) = note_few t user fs ps h d (omega arith) in
    let (f', g') =
      burst_few start user (fs ++ t ∷ []) ts (note_failure t user ps) f
        (All-append _ fs (t ∷ []) b (c.0, tt)) c.1 (omega (arith, length-append fs (t ∷ []))) in
    (f' ∙ append_assoc fs (t ∷ []) ts, g' ∙ g)

fail_at-concat :
    (user : String) (ts : List ℕ) (now : ℕ) (ps : Store)
    → fail_at user (ts ++ now ∷ []) ps ≡ note_failure now user (fail_at user ts ps)
fail_at-concat user [] now ps = refl
fail_at-concat user (t ∷ ts) now ps = fail_at-concat user ts now (note_failure t user ps)

banned_since :
    (now later : ℕ) (user : String) (ps : Store)
    → lookup user ps.banned ≡ some now
    → later < now + failure_recovery_time
    → is_banned later user ps ≡ true
banned_since now later user ps e h = ground arith

-- Let no failure of a user be on record. Failures at up to six times within six seconds leave the bans
-- as they are.
pub banned-fail_at :
    (start : ℕ) (user : String) (ts : List ℕ) (ps : Store)
    → failures_of user ps ≡ []
    → IsBurst start ts
    → length ts ≤ max_socket_failures
    → (fail_at user ts ps).banned ≡ ps.banned
banned-fail_at start user ts ps h b l = (burst_few start user [] ts ps h tt b (omega arith)).1

-- Let no failure of a user be on record. Seven failures within six seconds ban the user, for six seconds
-- from the last of them on.
pub is_banned-fail_at :
    (start : ℕ) (user : String) (ts : List ℕ) (now later : ℕ) (ps : Store)
    → failures_of user ps ≡ []
    → length ts ≡ max_socket_failures
    → IsBurst start ts
    → IsBurst start (now ∷ [])
    → later < now + failure_recovery_time
    → is_banned later user (fail_at user (ts ++ now ∷ []) ps) ≡ true
is_banned-fail_at start user ts now later ps h k b c d =
    let (f, g) = burst_few start user [] ts ps h tt b (omega arith) in
    subst (λ q. is_banned later user q ≡ true) (sym (fail_at-concat user ts now ps))
      (banned_since now later user (note_failure now user (fail_at user ts ps))
        (note_many now user ts (fail_at user ts ps) f
          (discard_failures-recent ts now (IsBurst-recent start now ts c b)) (omega arith))
        d)

-- ===== src/Server/Start.antt =====
-- How the server of serve.go starts: `runasUser` and `serve`, up to `run`, and how `run` ends.
use tasked.Base.{
  if◌then◌else◌, Bool-cases, All, Runes, is_empty, ℕ, ◌≡◌, refl, ◌⊎◌, inl, inr, Bool, true, false,
  Option, none, some, List, [], ◌∷◌,
}
use tasked.Base.Options.{◌>>=◌}

-- The calls that change what the process is or has.
pub data Step : Type 0 where
  set_gid set_uid : ℕ → Step
  make_auth listen_at : Step

-- The system: `user.Lookup` gives the group and the user of a name, as texts. Whether a call succeeds is a
-- truth value.
pub record Host : Type 0 where
  pub lookup : Runes → Option (Runes × Runes)
  pub atoi : Runes → Option ℕ
  pub setgid : ℕ → Bool
  pub setuid : ℕ → Bool
  pub makes_auth : Bool
  pub listen : Bool

-- The steps that were tried, and whether the last one succeeded.
pub record Started : Type 0 where
  pub steps : List Step
  pub is_ok : Bool

abbrev pub failed : Started
failed = record { steps = []; is_ok = false }

abbrev pub started : Started
started = record { steps = []; is_ok = true }

-- A step that is tried; the rest comes where it succeeds.
unfoldable pub try : Step → Bool → Started → Started
try s ok rest =
    if ok
    then record { steps = s ∷ rest.steps; is_ok = rest.is_ok }
    else record { steps = s ∷ []; is_ok = false }

-- The group and the user as numbers.
unfoldable pub ids_of : Host → Runes → Option (ℕ × ℕ)
ids_of host un =
    host.lookup un >>= λ (g, u). host.atoi g >>= λ gid. host.atoi u >>= λ uid. some (gid, uid)

unfoldable pub runas_ids : Host → Option (ℕ × ℕ) → Started → Started
runas_ids host none rest = failed
runas_ids host (some (gid, uid)) rest =
    try (set_gid gid) (host.setgid gid) (try (set_uid uid) (host.setuid uid) rest)

-- `runasUser`, with what `serve` does behind it.
unfoldable pub runas_user : Host → Runes → Started → Started
runas_user host un rest = if is_empty un then rest else runas_ids host (ids_of host un) rest

-- `serve` without its last line.
unfoldable pub start : Host → (runas : Runes) → (authenticate : Bool) → Started
start host runas authenticate =
    let listening = try listen_at host.listen started in
    runas_user host runas
      (if authenticate then try make_auth host.makes_auth listening else listening)

-- The steps with which the server takes on another user.
abbrev pub IsIdentity : Step → Type 0
IsIdentity (set_gid n) = Unit
IsIdentity (set_uid n) = Unit
IsIdentity _ = ⊥

-- What comes when `runas` names a user: nothing, or first the group and then the user.
abbrev pub IsRunas : Host → Option (ℕ × ℕ) → List Step → Type 0
IsRunas host none steps = steps ≡ []
IsRunas host (some (gid, uid)) steps =
    (All IsIdentity steps)
    ⊎ ((host.setgid gid ≡ true)
        × (host.setuid uid ≡ true)
        × ((rest : List Step) × (steps ≡ set_gid gid ∷ set_uid uid ∷ rest)
            × All (λ s. ¬ IsIdentity s) rest))

try-All :
    (P : Step → Type 0) (s : Step) (ok : Bool) (rest : Started)
    → P s
    → All P rest.steps
    → All P (try s ok rest).steps
unfolding try
try-All P s true rest h k = (h, k)
try-All P s false rest h k = (h, tt)

listening-IsOther :
    (host : Host) (authenticate : Bool)
    → All
        (λ s. ¬ IsIdentity s)
        (if authenticate
          then try make_auth host.makes_auth (try listen_at host.listen started)
          else try listen_at host.listen started).steps
listening-IsOther host true =
    try-All (λ s. ¬ IsIdentity s) make_auth host.makes_auth _ (λ e. e)
      (try-All (λ s. ¬ IsIdentity s) listen_at host.listen started (λ e. e) tt)
listening-IsOther host false =
    try-All (λ s. ¬ IsIdentity s) listen_at host.listen started (λ e. e) tt

runas_ids-IsRunas :
    (host : Host) (ids : Option (ℕ × ℕ)) (rest : Started)
    → All (λ s. ¬ IsIdentity s) rest.steps
    → IsRunas host ids (runas_ids host ids rest).steps
unfolding runas_ids try
runas_ids-IsRunas host none rest h = refl
runas_ids-IsRunas host (some (gid, uid)) rest h = elim (Bool-cases (host.setgid gid)) [
  | inl e ↦ elim (Bool-cases (host.setuid uid)) [
    | inl f ↦ inr (e, f, (rest.steps, (rw (e, f) refl), h))
    | inr f ↦ inl (rw (e, f) (tt, (tt, tt)))
  ]
  | inr e ↦ inl (rw e (tt, tt))
]

-- Where a user is named to run as, the server listens and makes its keys only when the group and the user
-- of the process have been set, in this order, with success: whatever fails, nothing else is tried before.
-- Where the user is not known, nothing is tried at all.
pub start-IsRunas :
    (host : Host) (runas : Runes) (authenticate : Bool)
    → is_empty runas ≡ false
    → IsRunas host (ids_of host runas) (start host runas authenticate).steps
unfolding start runas_user
start-IsRunas host runas authenticate e =
    rw e (runas_ids-IsRunas host (ids_of host runas) _ (listening-IsOther host authenticate))

-- What ends `run`: the store of processes, with an error or none, the HTTP server, or `close`.
pub data End : Type 0 where
  procs_ended server_ended : Option Runes → End
  quit : End

-- What `run` has closed, and what it returns.
pub record Stopped : Type 0 where
  pub listener_closed : Bool
  pub procs_closed : Bool
  pub err : Option Runes

unfoldable pub run : (has_procs : Bool) → End → Stopped
run has_procs (procs_ended e) = record { listener_closed = true; procs_closed = false; err = e }
run has_procs (server_ended e) = record {
  listener_closed = false;
  procs_closed = has_procs;
  err = e;
}
run has_procs quit = record { listener_closed = true; procs_closed = has_procs; err = none }

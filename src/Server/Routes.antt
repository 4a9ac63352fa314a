-- ===== src/Server/Routes.antt =====
-- Who answers a request to the handler of serve.go.
use mathlib.Core.Path.{subst}
use Prim.Native.String.{String}
use tasked.Htproc.Filter.{Round, Filtered as Outcome, passed, trying, handled as answered}
use tasked.Htproc.Filter.{
  filter as filter_procs, filter_loop, filter_round, get_create, is_proc_closed,
}
use tasked.Htproc.Store.{GetCreateResult, got, refused}
use tasked.Htproc.Status.{Error}
use tasked.Htauth.Filter.{filter as htauth_filter}
use tasked.Base.{
  if◌then◌else◌, Bool-cases, Runes, is_empty, ℕ, ◌≡◌, refl, sym, ap, ◌∙◌, ◌≢◌, ◌↔◌, inl, inr, Bool,
  true, false, Option, none, some, List, [], ◌∷◌, arith,
}
use tasked.Share.Filters.{Filtered, cascade, end_filter}
use tasked.Htauth.Request.{Request, Codec, Auth, is_open}
use tasked.Htauth.Filter.{Reply}
use tasked.Htauth.Filter.Vouched.{IsAccepted, filter-IsAccepted}
use tasked.Server.Handler.{
  Answerer, nobody, auth_filter, user_process, file_handler, nil_handler, Response, untouched,
  auth_part, proc_filter, proc_answerer, of_outcome, proc_part, root_part, create_handler,
}

-- An answer that comes from the filter for the processes.
abbrev IsByProcs : Answerer → Type 0
IsByProcs (user_process name) = Unit
IsByProcs (proc_filter status) = Unit
IsByProcs _ = ⊥

proc_answerer-user_process :
    (user name : String) (out : Outcome)
    → proc_answerer user out ≡ user_process name
    → (user ≡ name) × (out ≡ answered none)
proc_answerer-user_process user name passed h = absurd (cc)
proc_answerer-user_process user name (answered none) h = (cc, refl)
proc_answerer-user_process user name (answered (some s)) h = absurd (cc)
proc_answerer-user_process user name trying h = absurd (cc)

proc_answerer-proc_filter :
    (user : String) (status : ℕ) (out : Outcome)
    → proc_answerer user out ≡ proc_filter status
    → out ≡ answered (some status)
proc_answerer-proc_filter user status passed h = absurd (cc)
proc_answerer-proc_filter user status (answered none) h = absurd (cc)
proc_answerer-proc_filter user status (answered (some s)) h = cc
proc_answerer-proc_filter user status trying h = absurd (cc)

-- Behind the filter for the processes, where there is a user.
abbrev by_procs :
    Response → Option Runes → (user : String) → List Round → Filtered Response (Option Runes)
by_procs w d user rounds = record {
  response = record w { who = proc_answerer user (filter_procs user rounds) };
  d = d;
  handled = true;
}

-- The outcome `passed` is for no user.
abbrev IsKept : Outcome → Type 0
IsKept passed = ⊥
IsKept _ = Unit

filter_round-IsKept :
    (g : GetCreateResult) (served : Option Error) (later : Outcome)
    → IsKept later
    → IsKept (filter_round g served later)
unfolding filter_round
filter_round-IsKept (refused e) served later h = tt
filter_round-IsKept (got p) none later h = tt
filter_round-IsKept (got p) (some e) later h = elim (Bool-cases (is_proc_closed e)) [
  | inl f ↦ rw f h
  | inr f ↦ rw f tt
]

filter_loop-IsKept : (user : String) (rounds : List Round) → IsKept (filter_loop user rounds)
unfolding filter_loop
filter_loop-IsKept user [] = tt
filter_loop-IsKept user (r ∷ rs) =
    filter_round-IsKept (get_create user r) r.served (filter_loop user rs)
      (filter_loop-IsKept user rs)

of_outcome-IsKept :
    (w : Response) (d : Option Runes) (user : String) (out : Outcome)
    → IsKept out
    → of_outcome w d user out
      ≡ record { response = record w { who = proc_answerer user out }; d = d; handled = true }
of_outcome-IsKept w d user passed h = absurd h
of_outcome-IsKept w d user (answered s) h = refl
of_outcome-IsKept w d user trying h = refl

of_outcome-filter_procs :
    (w : Response) (d : Option Runes) (user : String) (rounds : List Round)
    → user ≢ String.[]
    → of_outcome w d user (filter_procs user rounds) ≡ by_procs w d user rounds
unfolding filter_procs
of_outcome-filter_procs w d String.[] rounds h = absurd (h refl)
of_outcome-filter_procs w d (String.◌∷◌ c u) rounds h =
    of_outcome-IsKept w d (String.◌∷◌ c u) _ (filter_loop-IsKept (String.◌∷◌ c u) rounds)

module _ (codec : Codec) (auth : Auth) (allow_cookies : Bool) (spell : Runes → String)
    (spells : (u : Runes) → is_empty u ≡ false → spell u ≢ String.[]) where
  -- The answer to a request that comes to the handler, with authentication.
  abbrev pub served : (root : Runes) → Request → List Round → Response
  served root r rounds =
      (create_handler codec auth allow_cookies spell true root r rounds untouched none).response

  abbrev pub root_answerer : Runes → Answerer
  root_answerer root = if is_empty root then nil_handler else file_handler

  -- Who is to answer, by whether the filter for the authentication has handled the request, and its user.
  abbrev route : Runes → List Round → Bool → Option Runes → Answerer
  route root rounds true user = auth_filter
  route root rounds false none = root_answerer root
  route root rounds false (some u) = proc_answerer (spell u) (filter_procs (spell u) rounds)

  behind_auth :
      (root : Runes) (rounds : List Round) (w : Response) (user : Option Runes)
      → ((u : Runes) → user ≡ some u → is_empty u ≡ false)
      → (cascade
          (proc_part codec auth allow_cookies spell rounds ∷ root_part root ∷ [])
          w
          user).response.who
        ≡ route root rounds false user
  unfolding cascade proc_part root_part end_filter
  behind_auth root rounds w none h = unfold filter_procs in refl
  behind_auth root rounds w (some u) h =
      rw (of_outcome-filter_procs w (some u) (spell u) rounds (spells u (h u refl))) refl

  -- What the filter for the authentication makes of a request.
  abbrev pub reply_to : Request → Reply
  reply_to = htauth_filter codec auth allow_cookies

  served-route :
      (root : Runes) (r : Request) (rounds : List Round)
      → (served root r rounds).who ≡ route root rounds (reply_to r).handled (reply_to r).user
  unfolding create_handler cascade auth_part
  served-route root r rounds =
      let reply = reply_to r in
      elim (Bool-cases reply.handled) [
        | inl e ↦ ground (arith, e)
        | inr e ↦ ground (
          arith,
          e,
          behind_auth root rounds
              record { reply = reply; who = if reply.handled then auth_filter else nobody }
              reply.user (λ u f. (filter-IsAccepted codec auth allow_cookies r u f).0),
        )
      ]

  -- The request was not handled by the authentication, and has a user.
  abbrev pub IsLeft : Reply → (Runes → Type 0) → Type 0
  IsLeft reply P = (reply.handled ≡ false) × ((u : Runes) × (reply.user ≡ some u) × P u)

  route-IsByProcs :
      (root : Runes) (rounds : List Round) (b : Bool) (user : Option Runes) (a : Answerer)
      → IsByProcs a
      → route root rounds b user ≡ a
      → (b ≡ false)
        × ((u : Runes) × (user ≡ some u)
            × (proc_answerer (spell u) (filter_procs (spell u) rounds) ≡ a))
  route-IsByProcs root rounds true user a i h = absurd (subst IsByProcs (sym h) i)
  route-IsByProcs [] rounds false none a i h = absurd (subst IsByProcs (sym h) i)
  route-IsByProcs (c ∷ root) rounds false none a i h = absurd (subst IsByProcs (sym h) i)
  route-IsByProcs root rounds false (some u) a i h = (refl, (u, refl, h))

  -- `auth_filter` is not what the others answer.
  abbrev is_auth_filter : Answerer → Bool
  is_auth_filter auth_filter = true
  is_auth_filter _ = false

  abbrev is_root : Answerer → Bool
  is_root file_handler = true
  is_root nil_handler = true
  is_root _ = false

  proc_answerer-is_other :
      (user : String) (out : Outcome)
      → (is_auth_filter (proc_answerer user out) ≡ false)
        × (is_root (proc_answerer user out) ≡ false)
  proc_answerer-is_other user passed = (refl, refl)
  proc_answerer-is_other user (answered none) = (refl, refl)
  proc_answerer-is_other user (answered (some s)) = (refl, refl)
  proc_answerer-is_other user trying = (refl, refl)

  root_answerer-is_root :
      (root : Runes)
      → (is_root (root_answerer root) ≡ true) × (is_auth_filter (root_answerer root) ≡ false)
  root_answerer-is_root [] = (refl, refl)
  root_answerer-is_root (c ∷ root) = (refl, refl)

  route-auth_filter :
      (root : Runes) (rounds : List Round) (b : Bool) (user : Option Runes)
      → route root rounds b user ≡ auth_filter
      → b ≡ true
  route-auth_filter root rounds true user h = refl
  route-auth_filter root rounds false none h =
      absurd (ground (arith, ap is_auth_filter h, root_answerer-is_root root))
  route-auth_filter root rounds false (some u) h = absurd (
      ground (
        arith,
        ap is_auth_filter h,
        proc_answerer-is_other (spell u) (filter_procs (spell u) rounds),
      ))

  route-root :
      (root : Runes) (rounds : List Round) (b : Bool) (user : Option Runes)
      → route root rounds b user ≡ root_answerer root
      → (b ≡ false) × (user ≡ none)
  route-root root rounds true user h =
      absurd (ground (arith, ap is_root h, root_answerer-is_root root))
  route-root root rounds false none h = (refl, refl)
  route-root root rounds false (some u) h = absurd (
      ground (
        arith,
        ap is_root h,
        root_answerer-is_root root,
        proc_answerer-is_other (spell u) (filter_procs (spell u) rounds),
      ))

  -- A request is answered by the process of a user exactly when the authentication has not handled it,
  -- credentials were accepted for this user, and the filter for the processes has a process of this user
  -- answer; and by this filter itself, with an error status, exactly when it gives this for the user for whom
  -- the credentials were accepted. It is answered by the authentication exactly when this handles it, and by
  -- what serves the root, which is the handler for files where there is a root and the nil handler where
  -- there is none, exactly when the authentication does not handle it and gives no user.
  pub create_handler-IsAccepted :
      (root : Runes) (r : Request) (rounds : List Round)
      → ((name : String)
          → ((served root r rounds).who ≡ user_process name)
            ↔ IsLeft (reply_to r) (λ u.
              (spell u ≡ name)
              × IsAccepted codec auth u (reply_to r)
              × (filter_procs name rounds ≡ answered none)))
        × ((status : ℕ)
            → ((served root r rounds).who ≡ proc_filter status)
              ↔ IsLeft (reply_to r) (λ u.
                IsAccepted codec auth u (reply_to r)
                × (filter_procs (spell u) rounds ≡ answered (some status))))
        × (((served root r rounds).who ≡ auth_filter) ↔ ((reply_to r).handled ≡ true))
        × (((served root r rounds).who ≡ root_answerer root)
            ↔ (((reply_to r).handled ≡ false) × ((reply_to r).user ≡ none)))
  create_handler-IsAccepted root r rounds =
      let e = served-route root r rounds in
      let accepts = filter-IsAccepted codec auth allow_cookies r in
      (
        (λ name. (
          λ h.
              let (n, (u, k, p)) =
                route-IsByProcs root rounds _ _ (user_process name) tt (sym e ∙ h) in
              let (s, o) = proc_answerer-user_process (spell u) name _ p in
              (n, (u, k, (s, accepts u k, subst (λ m. filter_procs m rounds ≡ answered none) s o))),
          λ (n, (u, k, (s, a, o))). e ∙ (rw (n, k, s, o) refl),
        )),
        (λ status. (
          λ h.
              let (n, (u, k, p)) =
                route-IsByProcs root rounds _ _ (proc_filter status) tt (sym e ∙ h) in
              (n, (u, k, (accepts u k, proc_answerer-proc_filter (spell u) status _ p))),
          λ (n, (u, k, (a, o))). e ∙ (rw (n, k, o) refl),
        )),
        (λ h. route-auth_filter root rounds _ _ (sym e ∙ h), λ h. e ∙ (rw h refl)),
        (λ h. route-root root rounds _ _ (sym e ∙ h), λ (n, k). e ∙ (rw (n, k) refl)),
      )

  -- A request with the method HEAD or OPTIONS never comes to the process of a user, whatever credentials it
  -- has: it is left to what serves the root with the rights of the server, which is the handler for files
  -- where there is a root, and the nil handler where there is none.
  pub create_handler_open :
      (root : Runes) (r : Request) (rounds : List Round)
      → is_open r ≡ true
      → (served root r rounds).who ≡ (if is_empty root then nil_handler else file_handler)
  create_handler_open root r rounds e =
      served-route root r rounds ∙ unfold htauth_filter in rw e refl

-- ===== src/Htauth/Filter/Vouched.antt =====
-- Which users the filter of htauth/htauth.go lets through.
use tasked.Base.{
  ◌==◌, if◌then◌else◌, Bool-cases, Option-cases, Runes, same_text_iff, is_empty, ◌≡◌, refl, ap, ◌∙◌,
  ◌≢◌, ◌⊎◌, inl, inr, Bool, true, false, Option, none, some, [], ◌∷◌, arith,
}
use tasked.Base.Options.{bind-eq-some}
use tasked.Htauth.Request.{Request, Codec, Auth, is_auth_request, is_open}
use tasked.Htauth.Creds.{Creds, get_creds}
use tasked.Htauth.Filter.{
  Reply, check_creds, token_bytes, is_old, refused, accept, check, filter_creds, filter,
}

module _ (codec : Codec) (auth : Auth) where
  -- The authentication gave the token `tn` for the user `u`, for a password or for another token.
  abbrev pub IsVouched : Runes → Runes → Type 0
  IsVouched u tn =
      ((pwd : Runes) × (auth.auth_pwd u pwd ≡ some tn))
      ⊎ ((tp : Runes) × (auth.auth_token tp ≡ some (tn, u)))

  -- The text `ts` stands for the token `tn`.
  abbrev pub IsTextOf : Runes → Runes → Type 0
  IsTextOf tn ts = (ts ≡ codec.encode tn) ⊎ (codec.decode ts ≡ some tn)

  abbrev pub IsAccepted : Runes → Reply → Type 0
  IsAccepted u reply =
      (is_empty u ≡ false)
      × ((tn : Runes) × (is_empty tn ≡ false)
          × IsVouched u tn
          × ((ts : Runes) × (reply.token ≡ some ts) × IsTextOf tn ts))

  check_creds-IsVouched :
      (user pwd : Runes) (tp : Option Runes) (tn u : Runes)
      → is_empty tn ≡ false
      → check_creds auth user pwd tp ≡ some (tn, u)
      → IsVouched u tn
  unfolding check_creds
  check_creds-IsVouched [] pwd none tn u n h = absurd (ground arith)
  check_creds-IsVouched [] pwd (some tp) tn u n h = inr (tp, h)
  check_creds-IsVouched (c ∷ user) pwd tp tn u n h =
      let (t, e, f) = bind-eq-some (auth.auth_pwd (c ∷ user) pwd) (λ t. some (t, c ∷ user)) h in
      inl (pwd, ground arith)

  token_bytes_by :
      (c : Creds) (tp : Runes)
      → token_bytes codec c ≡ some (some tp)
      → codec.decode c.token ≡ some tp
  unfolding token_bytes
  token_bytes_by c tp h = ground arith

  text_of :
      (c : Creds) (tp : Option Runes) (tn : Runes)
      → token_bytes codec c ≡ some tp
      → IsTextOf tn (if is_old tp tn then c.token else codec.encode tn)
  text_of c none tn h = inl refl
  text_of c (some tp) tn h = elim (Bool-cases (is_old (some tp) tn)) [
    | inr new ↦ rw new (inl refl)
    | inl old ↦ rw old (inr (ground (arith, same_text_iff tn tp, token_bytes_by c tp h)))
  ]

  module _ (allow_cookies is_auth : Bool) where
    refused_user : (u : Runes) → (refused is_auth).user ≢ some u
    refused_user u h = ground arith

    accept_user :
        (c : Creds) (tp : Option Runes) (tn user u : Runes)
        → (accept codec allow_cookies is_auth c tp (some (tn, user))).user ≡ some u
        → (is_empty tn ≡ false)
          × (is_empty u ≡ false)
          × (user ≡ u)
          × ((accept codec allow_cookies is_auth c tp (some (tn, user))).token
              ≡ some (if is_old tp tn then c.token else codec.encode tn))
    unfolding accept
    accept_user c tp tn user u h = ground (arith, refused_user u)

    accept-IsAccepted :
        (c : Creds) (tp : Option Runes) (o : Option (Runes × Runes)) (u : Runes)
        → token_bytes codec c ≡ some tp
        → check_creds auth c.user c.pwd tp ≡ o
        → (accept codec allow_cookies is_auth c tp o).user ≡ some u
        → IsAccepted u (accept codec allow_cookies is_auth c tp o)
    accept-IsAccepted c tp none u b k h = absurd (refused_user u (unfold accept in h))
    accept-IsAccepted c tp (some (tn, user)) u b k h =
        let (n, m, e, t) = accept_user c tp tn user u h in
        (
          m,
          (
            tn,
            n,
            check_creds-IsVouched c.user c.pwd tp tn u n (k ∙ ap (λ v. some (tn, v)) e),
            (_, t, text_of c tp tn b),
          ),
        )

    check-IsAccepted :
        (c : Creds) (u : Runes)
        → (check codec auth allow_cookies is_auth c).user ≡ some u
        → IsAccepted u (check codec auth allow_cookies is_auth c)
    unfolding check
    check-IsAccepted c u h = elim (Option-cases (token_bytes codec c)) [
      | inl e ↦ absurd (ground arith)
      | inr (tp, e) ↦ rw (e, check) (accept-IsAccepted c tp _ u e refl (rw (e, check) at h))
    ]

  module _ (allow_cookies : Bool) (r : Request) where
    filter_creds-IsAccepted :
        (is_auth : Bool) (u : Runes)
        → (filter_creds codec auth allow_cookies r is_auth).user ≡ some u
        → IsAccepted u (filter_creds codec auth allow_cookies r is_auth)
    unfolding filter_creds
    filter_creds-IsAccepted is_auth u h =
        elim (Option-cases (get_creds codec allow_cookies is_auth r)) [
          | inl e ↦ absurd (ground arith)
          | inr (c, e) ↦
              rw (e, filter_creds)
                (check-IsAccepted allow_cookies is_auth c u (rw (e, filter_creds) at h))
        ]

    -- A user whom the filter returns has a name, and was vouched for: the authentication gave a token for
    -- this user, either for a password or for another token, and it is this token that the header of the
    -- answer holds.
    pub filter-IsAccepted :
        (u : Runes)
        → (filter codec auth allow_cookies r).user ≡ some u
        → IsAccepted u (filter codec auth allow_cookies r)
    unfolding filter
    filter-IsAccepted u h = elim (Bool-cases (is_open r)) [
      | inl e ↦ absurd (ground arith)
      | inr e ↦ elim (Option-cases (is_auth_request r)) [
        | inl f ↦ absurd (ground arith)
        | inr (is_auth, f) ↦ rw (e, f) (filter_creds-IsAccepted is_auth u (rw (e, f) at h))
      ]
    ]

-- The reply is an error response for a bad request.
abbrev pub is_failed : Reply → Bool
is_failed reply = elim reply.status [ none ↦ false | some s ↦ s == 400 ]

module _ (codec : Codec) (auth : Auth) (allow_cookies : Bool) where
  check-auth :
      (c : Creds)
      → ((check codec auth allow_cookies true c).handled ≡ true)
        × ((check codec auth allow_cookies true c).body
            ≡ (check codec auth allow_cookies true c).token)
  unfolding check
  check-auth c = elim (Option-cases (token_bytes codec c)) [
    | inl e ↦ ground arith
    | inr (tp, e) ↦ elim (Option-cases (check_creds auth c.user c.pwd tp)) [
      | inl f ↦ rw (e, f, check) (unfold accept in ground arith)
      | inr ((tn, user), f) ↦ rw (e, f, check) (unfold accept in ground arith)
    ]
  ]

  check-other :
      (c : Creds)
      → ((check codec auth allow_cookies false c).handled
          ≡ is_failed (check codec auth allow_cookies false c))
        × ((check codec auth allow_cookies false c).body ≡ none)
  unfolding check
  check-other c = elim (Option-cases (token_bytes codec c)) [
    | inl e ↦ ground arith
    | inr (tp, e) ↦ elim (Option-cases (check_creds auth c.user c.pwd tp)) [
      | inl f ↦ rw (e, f, check) (unfold accept in ground arith)
      | inr ((tn, user), f) ↦ rw (e, f, check) (unfold accept in ground arith)
    ]
  ]

  module _ (r : Request) where
    -- A request to authenticate ends at the filter, which writes just the token that it puts in the
    -- header, and no token where it has none.
    pub filter_auth :
        is_open r ≡ false
        → is_auth_request r ≡ some true
        → ((filter codec auth allow_cookies r).handled ≡ true)
          × ((filter codec auth allow_cookies r).body ≡ (filter codec auth allow_cookies r).token)
    unfolding filter filter_creds
    filter_auth e f = elim (Option-cases (get_creds codec allow_cookies true r)) [
      | inl g ↦ ground arith
      | inr (c, g) ↦ ground (arith, check-auth c)
    ]

    -- The filter ends any other request just where it answers that the request is bad, and it writes no
    -- token to the body.
    pub filter_other :
        is_open r ≡ false
        → is_auth_request r ≡ some false
        → ((filter codec auth allow_cookies r).handled
            ≡ is_failed (filter codec auth allow_cookies r))
          × ((filter codec auth allow_cookies r).body ≡ none)
    unfolding filter filter_creds
    filter_other e f = elim (Option-cases (get_creds codec allow_cookies false r)) [
      | inl g ↦ ground arith
      | inr (c, g) ↦ ground (arith, check-other c)
    ]

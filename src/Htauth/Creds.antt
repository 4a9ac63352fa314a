-- ===== src/Htauth/Creds.antt =====
-- Where htauth/htauth.go takes the credentials of a request from: `getCreds` and what it calls.
use tasked.Base.{
  if◌then◌else◌, Runes, codes, same_text, split, is_empty, Bool, not, ◌||◌, Option, none, some,
  List, [], ◌∷◌,
}
use tasked.Base.Options.{◌>>=◌}
use tasked.Htauth.Request.{Request, Codec}

-- The results `user, pwd, t` of the source, of which an empty text is one that is not there.
pub record Creds : Type 0 where
  pub user : Runes
  pub pwd : Runes
  pub token : Runes

abbrev pub no_creds : Creds
no_creds = record { user = []; pwd = []; token = [] }

abbrev of_token : Runes → Creds
of_token t = record { user = []; pwd = []; token = t }

unfoldable pub get_one_or_zero : Option (List Runes) → Option Runes
get_one_or_zero none = some []
get_one_or_zero (some []) = some []
get_one_or_zero (some (v ∷ [])) = some v
get_one_or_zero (some (v ∷ w ∷ vs)) = none

unfoldable pub get_creds_x_header_user : Request → Option Creds
get_creds_x_header_user r = elim r.x_user [
  | none ↦ some no_creds
  | some vs ↦ get_one_or_zero (some vs) >>= λ user.
      if is_empty user
      then none
      else get_one_or_zero r.x_pwd >>= λ pwd. some (record { user = user; pwd = pwd; token = [] })
]

-- The user and the password that `cs` holds, between one colon.
abbrev of_basic : List Runes → Option Creds
of_basic (user ∷ pwd ∷ []) =
    if is_empty user then none else some (record { user = user; pwd = pwd; token = [] })
of_basic _ = none

-- The two words of the header.
abbrev of_words : Codec → List Runes → Option Creds
of_words codec (kind ∷ css ∷ []) =
    if same_text kind (codes "Basic")
    then (codec.decode css >>= λ cs. of_basic (split b':' cs))
    else none
of_words codec _ = none

unfoldable pub get_creds_header_user : Codec → Request → Option Creds
get_creds_header_user codec r = elim r.authorization [
  | none ↦ some no_creds
  | some vs ↦ get_one_or_zero (some vs) >>= λ h. of_words codec (split b' ' h)
]

unfoldable pub get_creds_x_header_token : Request → Option Runes
get_creds_x_header_token r = elim r.x_token [
  | none ↦ some []
  | some vs ↦ get_one_or_zero (some vs) >>= λ ts. if is_empty ts then none else some ts
]

abbrev pub token_cookie_name : Runes
token_cookie_name = codes "tasked-auth"

-- The loop over the cookies; `tc` is the token of those before.
unfoldable pub get_creds_cookie : List (Runes × Runes) → Option Runes → Option Runes
get_creds_cookie [] tc = some (elim tc [ none ↦ [] | some v ↦ v ])
get_creds_cookie ((name, v) ∷ cs) tc =
    let skipped = get_creds_cookie cs tc in
    let taken = get_creds_cookie cs (some v) in
    if not (same_text name token_cookie_name)
    then skipped
    else elim tc [ none ↦ taken | some w ↦ none ]

-- A value that is there must not be empty.
abbrev filled : Option Runes → Option Runes
filled none = some []
filled (some v) = if is_empty v then none else some v

unfoldable pub get_creds_json : Request → Option Creds
get_creds_json r = r.json_body >>= λ m. filled m.username >>= λ user. filled m.token >>= λ t.
    some (record { user = user; pwd = elim m.password [ none ↦ [] | some p ↦ p ]; token = t })

-- The rest of `getCreds` for a request that authenticates, without credentials in its headers.
unfoldable pub get_creds_body : Codec → Request → Option Creds
get_creds_body codec r = get_one_or_zero r.content_type >>= λ ct.
    (if is_empty ct then some ct else codec.parse_media_type ct) >>= λ mt.
    (if same_text mt (codes "application/json") then get_creds_json r else some no_creds) >>= λ c.
    if not (is_empty c.user) || not (is_empty c.token)
    then some c
    else get_creds_cookie r.cookies none >>= λ t. some (record c { token = t })

unfoldable pub get_creds : Codec → (allow_cookies is_auth : Bool) → Request → Option Creds
get_creds codec allow_cookies is_auth r = get_creds_x_header_user r >>= λ x.
    if not (is_empty x.user)
    then some x
    else get_creds_header_user codec r >>= λ h.
        if not (is_empty h.user)
        then some h
        else get_creds_x_header_token r >>= λ t.
            if not (is_empty t)
            then some (of_token t)
            else if is_auth
            then get_creds_body codec r
            else if allow_cookies
            then (get_creds_cookie r.cookies none >>= λ c. some (of_token c))
            else some no_creds

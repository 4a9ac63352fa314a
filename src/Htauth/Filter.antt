-- ===== src/Htauth/Filter.antt =====
-- `checkCreds`, `Filter` and `ServeHTTP` of htauth/htauth.go.
pub mod Vouched
use tasked.Base.{
  if◌then◌else◌, Runes, same_text, is_empty, ℕ, Bool, true, false, not, ◌&&◌, ◌||◌, Option, none,
  some, [],
}
use tasked.Base.Options.{◌>>=◌}
use tasked.Htauth.Request.{Request, Codec, Auth, is_auth_request, is_open}
use tasked.Htauth.Creds.{Creds, get_creds}

-- What the filter answers with, and what it returns. `status` is the status of an error response,
-- `token` the header with the token, and `body` what is written.
pub record Reply : Type 0 where
  pub status : Option ℕ
  pub token : Option Runes
  pub cookie : Option Runes
  pub body : Option Runes
  pub user : Option Runes
  pub handled : Bool

abbrev pub pass : Reply
pass = record {
  status = none;
  token = none;
  cookie = none;
  body = none;
  user = none;
  handled = false;
}

abbrev pub fail : ℕ → Reply
fail s = record pass { status = some s; handled = true }

-- A token and its user.
unfoldable pub check_creds : Auth → Runes → Runes → Option Runes → Option (Runes × Runes)
check_creds auth user pwd tp =
    if not (is_empty user)
    then (auth.auth_pwd user pwd >>= λ t. some (t, user))
    else elim tp [ none ↦ some ([], []) | some t ↦ auth.auth_token t ]

-- The token as bytes, where there is one that counts.
unfoldable pub token_bytes : Codec → Creds → Option (Option Runes)
token_bytes codec c =
    if is_empty c.user && not (is_empty c.token)
    then (codec.decode c.token >>= λ tp. some (some tp))
    else some none

-- `!isNew`: the token is the one of the request.
abbrev pub is_old : Option Runes → Runes → Bool
is_old none tn = false
is_old (some tp) tn = not (is_empty tp) && same_text tn tp

abbrev pub refused : Bool → Reply
refused is_auth = if is_auth then fail 404 else pass

-- The last part of `Filter`, for the results of `checkCreds`.
unfoldable pub accept :
    Codec → (allow_cookies is_auth : Bool) → Creds → Option Runes → Option (Runes × Runes) → Reply
accept codec allow_cookies is_auth c tp none = refused is_auth
accept codec allow_cookies is_auth c tp (some (tn, user)) =
    let ts = if is_old tp tn then c.token else codec.encode tn in
    if is_empty tn || is_empty user then refused is_auth else record {
      status = none;
      token = some ts;
      cookie = if allow_cookies then some ts else none;
      body = if is_auth then some ts else none;
      user = some user;
      handled = is_auth;
    }

unfoldable pub check : Codec → Auth → (allow_cookies is_auth : Bool) → Creds → Reply
check codec auth allow_cookies is_auth c = elim (token_bytes codec c) [
  | none ↦ fail 400
  | some tp ↦ accept codec allow_cookies is_auth c tp (check_creds auth c.user c.pwd tp)
]

unfoldable pub filter_creds : Codec → Auth → Bool → Request → Bool → Reply
filter_creds codec auth allow_cookies r is_auth = elim (get_creds codec allow_cookies is_auth r) [
  | none ↦ fail 400
  | some c ↦ check codec auth allow_cookies is_auth c
]

unfoldable pub filter : Codec → Auth → Bool → Request → Reply
filter codec auth allow_cookies r = if is_open r then pass else elim (is_auth_request r) [
  | none ↦ fail 400
  | some is_auth ↦ filter_creds codec auth allow_cookies r is_auth
]

-- The status that `ServeHTTP` adds.
unfoldable pub serve_http : Codec → Auth → Bool → Request → Reply
serve_http codec auth allow_cookies r =
    let reply = filter codec auth allow_cookies r in
    elim reply.user [
      | some u ↦
          if reply.handled || not (is_empty u) then reply else record reply { status = some 404 }
      | none ↦ if reply.handled then reply else record reply { status = some 404 }
    ]

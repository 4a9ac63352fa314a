-- ===== src/Htauth/Request.antt =====
-- What htauth/htauth.go reads of a request, and the libraries that it calls. An error is `none`, since
-- no caller tells one error from another.
use Prim.Native.String.{String}
use tasked.Base.{
  if◌then◌else◌, Runes, codes, same_text, is_empty, Bool, true, false, ◌||◌, Option, none, some,
  List, [], ◌∷◌,
}
use tasked.Base.Options.{◌>>=◌}
use tasked.Share.Query.{http_cmd_auth, http_cmd_all, get_qry_values_cmd}

-- The object of a JSON body: none for a name that it has not.
pub record JsonBody : Type 0 where
  pub username : Option Runes
  pub password : Option Runes
  pub token : Option Runes

-- `cmds` is what the query has for `cmd`, or none where it does not parse. A header is the list of its
-- values, or none where the request has none. `json_body` is what `ReadJsonRequest` reads.
pub record Request : Type 0 where
  pub method : Runes
  pub cmds : Option (List Runes)
  pub x_user : Option (List Runes)
  pub x_pwd : Option (List Runes)
  pub authorization : Option (List Runes)
  pub x_token : Option (List Runes)
  pub content_type : Option (List Runes)
  pub cookies : List (Runes × Runes)
  pub json_body : Option JsonBody

-- encoding/base64 and mime.
pub record Codec : Type 0 where
  pub decode : Runes → Option Runes
  pub encode : Runes → Runes
  pub parse_media_type : Runes → Option Runes

-- The interface `Auth`: a token, and a token with its user.
pub record Auth : Type 0 where
  pub auth_pwd : Runes → Runes → Option Runes
  pub auth_token : Runes → Option (Runes × Runes)

abbrev is_method : String → Request → Bool
is_method m r = same_text r.method (codes m)

-- `share.GetQryCmd(r, share.HttpCmdAll)`
unfoldable pub get_qry_cmd : Request → Option Runes
get_qry_cmd r = r.cmds >>= λ cmds. get_qry_values_cmd cmds (http_cmd_all ∷ [])

unfoldable pub is_auth_request : Request → Option Bool
is_auth_request r = get_qry_cmd r >>= λ cmd.
    if is_method "AUTH" r
    then if is_empty cmd then some true else none
    else if is_method "GET" r || is_method "POST" r
    then some (same_text cmd http_cmd_auth)
    else if same_text cmd http_cmd_auth
    then none
    else some false

-- The filter lets such requests through.
abbrev pub is_open : Request → Bool
is_open r = is_method "OPTIONS" r || is_method "HEAD" r

-- ===== src/Htauth/Examples.antt =====
-- Requests to the filter of htauth/htauth.go at concrete inputs.
use tasked.Base.{
  if◌then◌else◌, codes, same_text, contains, split, ◌≡◌, refl, ap, Bool, true, false, ◌&&◌, none,
  some, [], ◌∷◌,
}
use tasked.Share.Query.{http_cmd_auth, expand_allowed, all_found, get_qry_values_cmd}
use tasked.Htauth.Request.{Request, Codec, Auth, get_qry_cmd, is_auth_request, is_open}
use tasked.Htauth.Creds.{
  get_one_or_zero, get_creds_x_header_user, get_creds_header_user, get_creds_x_header_token,
  token_cookie_name, get_creds_cookie, get_creds_body, get_creds,
}
use tasked.Htauth.Filter.{
  Reply, pass, fail, check_creds, token_bytes, accept, check, filter_creds, filter, serve_http,
}
use tasked.Htauth.Filter.Vouched.{IsAccepted, filter-IsAccepted, filter_auth}

-- Texts that stand for themselves.
abbrev plain : Codec
plain = record { decode = some; encode = λ t. t; parse_media_type = some }

-- One user, with a password and a token.
abbrev one_user : Auth
one_user = record {
  auth_pwd = λ user pwd.
      if same_text user (codes "ann") && same_text pwd (codes "pw")
      then some (codes "key")
      else none;
  auth_token = λ t. if same_text t (codes "key") then some (t, codes "ann") else none;
}

abbrev bare : Request
bare = record {
  method = codes "GET";
  cmds = some [];
  x_user = none;
  x_pwd = none;
  authorization = none;
  x_token = none;
  content_type = none;
  cookies = [];
  json_body = none;
}

abbrev with_basic : Request
with_basic = record bare { authorization = some (codes "Basic ann:pw" ∷ []) }

abbrev with_wrong : Request
with_wrong = record bare { authorization = some (codes "Basic ann:no" ∷ []) }

abbrev with_cookie : Request
with_cookie = record bare {
  cookies = (token_cookie_name, codes "key") ∷ [];
  cmds = some (http_cmd_auth ∷ []);
}

abbrev seen : Bool → Bool → Reply
seen allow_cookies is_auth = record {
  status = none;
  token = some (codes "key");
  cookie = if allow_cookies then some (codes "key") else none;
  body = if is_auth then some (codes "key") else none;
  user = some (codes "ann");
  handled = is_auth;
}

filter_lem :
    (filter plain one_user false with_basic ≡ seen false false)
    × (filter plain one_user false with_wrong ≡ pass)
    × (filter plain one_user true with_cookie ≡ seen true true)
    × (filter plain one_user true (record with_cookie { method = codes "PUT" }) ≡ fail 400)
    × (serve_http plain one_user false with_wrong ≡ record pass { status = some 404 })
unfolding serve_http filter filter_creds check accept token_bytes check_creds get_creds
    get_creds_x_header_user get_creds_header_user get_creds_x_header_token get_creds_body
    get_creds_cookie get_one_or_zero is_auth_request get_qry_cmd get_qry_values_cmd all_found
    expand_allowed contains same_text split
filter_lem = (refl, refl, refl, refl, refl)

filter-IsAccepted_example :
    IsAccepted plain one_user (codes "ann") (filter plain one_user false with_basic)
filter-IsAccepted_example =
    filter-IsAccepted plain one_user false with_basic (codes "ann")
      (ap (λ (r : Reply). r.user) filter_lem.0)

with_cookie_is_auth : is_auth_request with_cookie ≡ some true
unfolding is_auth_request get_qry_cmd get_qry_values_cmd all_found expand_allowed contains same_text
with_cookie_is_auth = refl

with_basic_is_auth : is_auth_request with_basic ≡ some false
unfolding is_auth_request get_qry_cmd get_qry_values_cmd all_found expand_allowed contains same_text
with_basic_is_auth = refl

is_open_lem : is_open bare ≡ false
unfolding same_text
is_open_lem = refl

filter_auth_example : (filter plain one_user true with_cookie).handled ≡ true
filter_auth_example =
    (filter_auth plain one_user true with_cookie is_open_lem with_cookie_is_auth).0

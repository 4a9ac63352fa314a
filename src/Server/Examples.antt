-- ===== src/Server/Examples.antt =====
-- The server of serve.go at concrete inputs.
use Prim.Native.String.{String}
use tasked.Base.{
  ◌==◌, if◌then◌else◌, Runes, codes, same_text, is_empty, ◌≡◌, refl, ◌≢◌, ◌↔◌, true, false, none,
  some, [], ◌∷◌,
}
use tasked.Base.Options.{◌>>=◌}
use tasked.Server.Keys.{KeySettings, mkauth, copy_into, new_keys, mkauth_zero_key}
use tasked.Server.Start.{
  set_gid, set_uid, make_auth, listen_at, Host, try, ids_of, runas_ids, runas_user, start, IsRunas,
  start-IsRunas,
}
use tasked.Htproc.Filter.{Round, handled as answered, get_create, filter_loop, filter_round}
use tasked.Htproc.Filter.{filter as filter_procs}
use tasked.Htproc.Store.{new_proc_store, get_create_proc, get_new}
use tasked.Share.Filters.{cascade}
use tasked.Htauth.Request.{is_auth_request, get_qry_cmd}
use tasked.Share.Query.{get_qry_values_cmd, all_found}
use tasked.Htauth.Filter.{filter_creds, check, token_bytes, accept, check_creds}
use tasked.Htauth.Creds.{get_creds, get_creds_x_header_user, get_one_or_zero}
use tasked.Base.Dict.{lookup}
use tasked.Server.Routes.{IsLeft, reply_to, served, create_handler-IsAccepted, create_handler_open}
use tasked.Server.Handler.{
  user_process, proc_filter, file_handler, auth_part, proc_part, root_part, create_handler,
}
use tasked.Htauth.Filter.Vouched.{IsAccepted}
use tasked.Htauth.Request.{Request, Codec, Auth}
use tasked.Htauth.Filter.{filter as htauth_filter}

abbrev host : Host
host = record {
  lookup = λ u. if same_text u (codes "www") then some (codes "33", codes "34") else none;
  atoi = λ ds. if same_text ds (codes "33") then some 33 else some 34;
  setgid = λ n. true;
  setuid = λ n. n == 34;
  makes_auth = true;
  listen = true;
}

start_lem :
    ((start host (codes "www") true).steps ≡ set_gid 33 ∷ set_uid 34 ∷ make_auth ∷ listen_at ∷ [])
    × ((start host (codes "me") true).steps ≡ [])
unfolding start runas_user runas_ids ids_of try same_text
start_lem = (refl, refl)

start-IsRunas_example :
    IsRunas host (ids_of host (codes "www")) (start host (codes "www") true).steps
start-IsRunas_example = start-IsRunas host (codes "www") true refl

abbrev plain : Codec
plain = record { decode = some; encode = λ t. t; parse_media_type = some }

-- Any password is good, for the token "key".
abbrev anyone : Auth
anyone = record { auth_pwd = λ user pwd. some (codes "key"); auth_token = λ t. none }

abbrev asking : Runes → Request
asking m = record {
  method = m;
  cmds = some [];
  x_user = some (codes "ann" ∷ []);
  x_pwd = some (codes "pw" ∷ []);
  authorization = none;
  x_token = none;
  content_type = none;
  cookies = [];
  json_body = none;
}

abbrev spell : Runes → String
spell [] = ""
spell (c ∷ u) = "user"

spells : (u : Runes) → is_empty u ≡ false → spell u ≢ String.[]
spells [] h e = absurd (cc)
spells (c ∷ u) h e = absurd (cc)

abbrev root : Runes
root = codes "/srv"

-- A store with no process yet, of which the process answers.
abbrev ready : Round
ready = record { store = some (new_proc_store 3); now = 7; served = none }

abbrev closed : Round
closed = record { store = none; now = 7; served = none }

served_lem :
    ((served plain anyone false spell spells root (asking (codes "GET")) (ready ∷ [])).who
      ≡ user_process "user")
    × ((served plain anyone false spell spells root (asking (codes "GET")) (closed ∷ [])).who
        ≡ proc_filter 404)
unfolding create_handler cascade auth_part proc_part root_part filter_procs filter_loop filter_round
    get_create get_create_proc get_new same_text htauth_filter is_auth_request get_qry_cmd
    get_qry_values_cmd all_found filter_creds get_creds get_creds_x_header_user get_one_or_zero
    check token_bytes accept check_creds lookup new_proc_store
served_lem = (refl, refl)

create_handler-IsAccepted_example :
    ((served plain anyone false spell spells root (asking (codes "GET")) (ready ∷ [])).who
      ≡ user_process "user")
    ↔ IsLeft plain anyone false spell spells
        (reply_to plain anyone false spell spells (asking (codes "GET")))
        (λ u.
          (spell u ≡ "user")
          × IsAccepted plain anyone u
              (reply_to plain anyone false spell spells (asking (codes "GET")))
          × (filter_procs "user" (ready ∷ []) ≡ answered none))
create_handler-IsAccepted_example =
    (create_handler-IsAccepted plain anyone false spell spells root (asking (codes "GET"))
        (ready ∷ [])).0
      "user"

create_handler_open_example :
    (served plain anyone false spell spells root (asking (codes "HEAD")) []).who ≡ file_handler
create_handler_open_example =
    create_handler_open plain anyone false spell spells root (asking (codes "HEAD")) []
      (unfold same_text in refl)

abbrev only_iv : KeySettings
only_iv = record { aes_key = []; aes_key_file = []; aes_iv = codes "iv"; aes_iv_file = [] }

mkauth_zero_key_example :
    (mkauth (λ fn. none) (some (codes "a", codes "b")) only_iv >>= λ k. some (new_keys k))
    ≡ some (copy_into 16 [], copy_into 16 (codes "iv"))
mkauth_zero_key_example =
    mkauth_zero_key (λ fn. none) (some (codes "a", codes "b")) only_iv refl refl refl

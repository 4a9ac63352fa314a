-- ===== src/Options/Parse.antt =====
-- The options of options.go: defaults, free arguments, and the entries of the files and of the flags.
-- `strconv.ParseInt` is a parameter, of the number of bits and the text.
pub mod Precedence
pub mod Refusal
use tasked.Base.{
  if◌then◌else◌, Runes, codes, same_text, contains, ℕ, ◌+◌, ◌-◌, Bool, true, false, ◌||◌, Option,
  none, some, List, [], ◌∷◌, ◌++◌,
}
use tasked.Base.Options.{◌>>=◌}
use tasked.Keyval.Parser.{Entry}

-- The keys that options.go names, each with `_key` behind it.
pub data Key : Type 0 where
  include_config_key help_key root_key cachedir_key : Key
  allow_cookies_key runas_key address_key tls_key_key : Key
  tls_cert_key tls_key_file_key tls_cert_file_key max_search_results_key : Key
  max_request_body_key max_request_header_key proxy_key proxy_file_key : Key
  authenticate_key public_user_key aes_key_key aes_iv_key : Key
  aes_key_file_key aes_iv_file_key token_validity_key max_user_processes_key : Key
  process_idle_time_key : Key

abbrev pub key_name : Key → Runes
key_name include_config_key = codes "include-config"
key_name help_key = codes "help"
key_name root_key = codes "root"
key_name cachedir_key = codes "cachedir"
key_name allow_cookies_key = codes "allow-cookies"
key_name runas_key = codes "runas"
key_name address_key = codes "address"
key_name tls_key_key = codes "tls-key"
key_name tls_cert_key = codes "tls-cert"
key_name tls_key_file_key = codes "tls-key-file"
key_name tls_cert_file_key = codes "tls-cert-file"
key_name max_search_results_key = codes "max-search-results"
key_name max_request_body_key = codes "max-request-body"
key_name max_request_header_key = codes "max-request-header"
key_name proxy_key = codes "proxy"
key_name proxy_file_key = codes "proxy-file"
key_name authenticate_key = codes "authenticate"
key_name public_user_key = codes "public-user"
key_name aes_key_key = codes "aes-key"
key_name aes_iv_key = codes "aes-iv"
key_name aes_key_file_key = codes "aes-key-file"
key_name aes_iv_file_key = codes "aes-iv-file"
key_name token_validity_key = codes "token-validity"
key_name max_user_processes_key = codes "max-user-processes"
key_name process_idle_time_key = codes "process-idle-time"

abbrev pub all_keys : List Key
all_keys =
    include_config_key ∷ help_key ∷ root_key ∷ cachedir_key ∷ allow_cookies_key ∷ runas_key
    ∷ address_key ∷ tls_key_key ∷ tls_cert_key ∷ tls_key_file_key ∷ tls_cert_file_key
    ∷ max_search_results_key ∷ max_request_body_key ∷ max_request_header_key ∷ proxy_key
    ∷ proxy_file_key ∷ authenticate_key ∷ public_user_key ∷ aes_key_key ∷ aes_iv_key
    ∷ aes_key_file_key ∷ aes_iv_file_key ∷ token_validity_key ∷ max_user_processes_key
    ∷ process_idle_time_key ∷ []

-- The key that a text names, if any.
unfoldable pub find_key : List Key → Runes → Option Key
find_key [] s = none
find_key (k ∷ ks) s = let rest = find_key ks s in if same_text s (key_name k) then some k else rest

unfoldable pub key_of : Runes → Option Key
key_of s = find_key all_keys s

-- A number is an `int64`.
pub data ℤ : Type 0 where
  pos : ℕ → ℤ
  negsuc : ℕ → ℤ

pub record Options : Type 0 where
  pub command : Runes
  pub root : Runes
  pub cachedir : Runes
  pub allow_cookies : Bool
  pub runas : Runes
  pub address : Runes
  pub tls_key : Runes
  pub tls_cert : Runes
  pub tls_key_file : Runes
  pub tls_cert_file : Runes
  pub max_search_results : ℤ
  pub max_request_body : ℤ
  pub max_request_header : ℤ
  pub proxy : Runes
  pub proxy_file : Runes
  pub authenticate : Bool
  pub public_user : Runes
  pub aes_key : Runes
  pub aes_iv : Runes
  pub aes_key_file : Runes
  pub aes_iv_file : Runes
  pub token_validity : ℤ
  pub max_user_processes : ℤ
  pub process_idle_time : ℤ

-- The zero value of the struct, with a command.
abbrev pub new_options : Runes → Options
new_options command = record {
  command = command;
  root = [];
  cachedir = [];
  allow_cookies = false;
  runas = [];
  address = [];
  tls_key = [];
  tls_cert = [];
  tls_key_file = [];
  tls_cert_file = [];
  max_search_results = pos 0;
  max_request_body = pos 0;
  max_request_header = pos 0;
  proxy = [];
  proxy_file = [];
  authenticate = false;
  public_user = [];
  aes_key = [];
  aes_iv = [];
  aes_key_file = [];
  aes_iv_file = [];
  token_validity = pos 0;
  max_user_processes = pos 0;
  process_idle_time = pos 0;
}

unfoldable pub apply_defaults : Options → Options
apply_defaults o = record o {
  address = codes ":9090";
  max_request_header = pos 1_048_576;
  token_validity = pos 6_912_000;
  process_idle_time = pos 360;
}

-- None is the error `invalidArgs`.
unfoldable pub apply_serve_args : List Runes → Options → Option Options
apply_serve_args [] o = some o
apply_serve_args (root ∷ []) o = some (record o { root = root })
apply_serve_args (root ∷ address ∷ []) o = some (record o { root = root; address = address })
apply_serve_args (root ∷ address ∷ more ∷ args) o = none

unfoldable pub apply_free_args : List Runes → Options → Option Options
apply_free_args args o =
    if same_text o.command (codes "serve") then apply_serve_args args o else some o

-- `strconv.ParseBool`
unfoldable pub parse_bool : Runes → Option Bool
parse_bool s =
    if contains s
      (codes "1" ∷ codes "t" ∷ codes "T" ∷ codes "TRUE" ∷ codes "true" ∷ codes "True" ∷ [])
    then some true
    else if contains s
        (codes "0" ∷ codes "f" ∷ codes "F" ∷ codes "FALSE" ∷ codes "false" ∷ codes "False" ∷ [])
    then some false
    else none

module _ (parse_int : ℕ → Runes → Option ℤ) where
  -- The switch of `parseOptions`.
  unfoldable pub set_option : Key → Runes → Options → Option Options
  set_option include_config_key val o = some o
  set_option help_key val o = some o
  set_option root_key val o = some (record o { root = val })
  set_option cachedir_key val o = some (record o { cachedir = val })
  set_option allow_cookies_key val o = parse_bool val >>= λ v. some (record o { allow_cookies = v })
  set_option runas_key val o = some (record o { runas = val })
  set_option address_key val o = some (record o { address = val })
  set_option tls_key_key val o = some (record o { tls_key = val })
  set_option tls_cert_key val o = some (record o { tls_cert = val })
  set_option tls_key_file_key val o = some (record o { tls_key_file = val })
  set_option tls_cert_file_key val o = some (record o { tls_cert_file = val })
  set_option max_search_results_key val o =
      parse_int 32 val >>= λ v. some (record o { max_search_results = v })
  set_option max_request_body_key val o =
      parse_int 64 val >>= λ v. some (record o { max_request_body = v })
  set_option max_request_header_key val o =
      parse_int 32 val >>= λ v. some (record o { max_request_header = v })
  set_option proxy_key val o = some (record o { proxy = val })
  set_option proxy_file_key val o = some (record o { proxy_file = val })
  set_option authenticate_key val o = parse_bool val >>= λ v. some (record o { authenticate = v })
  set_option public_user_key val o = some (record o { public_user = val })
  set_option aes_key_key val o = some (record o { aes_key = val })
  set_option aes_iv_key val o = some (record o { aes_iv = val })
  set_option aes_key_file_key val o = some (record o { aes_key_file = val })
  set_option aes_iv_file_key val o = some (record o { aes_iv_file = val })
  set_option token_validity_key val o =
      parse_int 32 val >>= λ v. some (record o { token_validity = v })
  set_option max_user_processes_key val o =
      parse_int 32 val >>= λ v. some (record o { max_user_processes = v })
  set_option process_idle_time_key val o =
      parse_int 32 val >>= λ v. some (record o { process_idle_time = v })

  unfoldable pub apply_entry : Entry → Options → Option Options
  apply_entry e o = elim (key_of e.key) [ none ↦ some o | some k ↦ set_option k e.val o ]

  unfoldable pub parse_options : List Entry → Options → Option Options
  parse_options [] o = some o
  parse_options (e ∷ es) o = apply_entry e o >>= parse_options es

  -- The end of `readOptions`, for the entries of the files and of the flags.
  unfoldable pub configure : Runes → List Runes → List Entry → List Entry → Option Options
  configure command args files flags =
      apply_free_args args (apply_defaults (new_options command)) >>= parse_options (files ++ flags)

unfoldable pub has_help_flag : List Entry → Bool
has_help_flag [] = false
has_help_flag (e ∷ es) = same_text e.key (key_name help_key) || has_help_flag es

-- The first flag that names a file to include.
unfoldable pub flag_include : List Entry → List Runes
flag_include [] = []
flag_include (e ∷ es) =
    let rest = flag_include es in
    if same_text e.key (key_name include_config_key) then e.val ∷ [] else rest

abbrev pub commands : List Runes
commands =
    codes "help"
    ∷ codes "serve"
    ∷ codes "options"
    ∷ codes "head"
    ∷ codes "search"
    ∷ codes "get"
    ∷ codes "props"
    ∷ codes "modprops"
    ∷ codes "put"
    ∷ codes "copy"
    ∷ codes "rename"
    ∷ codes "delete"
    ∷ codes "mkdir"
    ∷ codes "post"
    ∷ codes "sync"
    ∷ []

-- None is one of the errors `missingCommand` and `invalidCommand`.
unfoldable pub parse_command : List Runes → Option Runes
parse_command [] = none
parse_command (program ∷ []) = none
parse_command (program ∷ cmd ∷ args) = if contains cmd commands then some cmd else none

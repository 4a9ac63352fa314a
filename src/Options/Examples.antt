-- ===== src/Options/Examples.antt =====
-- Settings of options.go at concrete inputs.
use Prim.Native.String.{String}
use tasked.Base.{
  leb, if◌then◌else◌, Runes, codes, same_text, contains, ℕ, ◌-◌, ◌≡◌, refl, true, false, ◌&&◌,
  Option, none, some, List, [], ◌∷◌, ◌++◌,
}
use tasked.Keyval.Parser.{Entry}
use tasked.Options.Parse.{
  root_key, address_key, find_key, key_of, ℤ, pos, Options, new_options, apply_defaults,
  apply_serve_args, apply_free_args, parse_bool, set_option, apply_entry, parse_options, configure,
  has_help_flag, flag_include, parse_command,
}
use tasked.Options.Parse.Precedence.{last_of, configure_precedence}
use tasked.Options.Parse.Refusal.{kind_of, is_valid, all_valid}

abbrev entry : String → String → Entry
entry k v = record { key = codes k; val = codes v }

-- Reads numbers of one digit.
abbrev digit : ℕ → Runes → Option ℤ
digit bits (c ∷ []) = if leb b'0' c && leb c b'9' then some (pos (c - b'0')) else none
digit bits _ = none

abbrev files : List Entry
files = entry "root" "/srv" ∷ entry "max-user-processes" "3" ∷ []

abbrev flags : List Entry
flags = entry "root" "/tmp" ∷ entry "unknown" "x" ∷ []

abbrev serve_cmd : Runes
serve_cmd = codes "serve"

abbrev configured : Options
configured =
    let d = new_options serve_cmd in
    record d {
      root = codes "/tmp";
      address = codes ":80";
      max_request_header = pos 1_048_576;
      token_validity = pos 6_912_000;
      process_idle_time = pos 360;
      max_user_processes = pos 3;
    }

configure_lem :
    configure digit serve_cmd (codes "/home" ∷ codes ":80" ∷ []) files flags ≡ some configured
unfolding configure parse_options apply_entry set_option key_of find_key apply_free_args
    apply_serve_args apply_defaults same_text
configure_lem = refl

configure_precedence_example :
    (configured.root ≡ last_of root_key (files ++ flags) (codes "/home"))
    × (configured.address ≡ last_of address_key (files ++ flags) (codes ":80"))
unfolding same_text
configure_precedence_example =
    configure_precedence digit serve_cmd (codes "/home" ∷ codes ":80" ∷ []) files flags configured
      configure_lem

all_valid_lem :
    (all_valid digit (entry "authenticate" "yes" ∷ files) ≡ false) × (all_valid digit files ≡ true)
unfolding all_valid is_valid key_of find_key kind_of parse_bool contains same_text
all_valid_lem = (refl, refl)

parse_command_lem :
    (parse_command (codes "tasked" ∷ serve_cmd ∷ codes "x" ∷ []) ≡ some serve_cmd)
    × (parse_command (codes "tasked" ∷ codes "start" ∷ []) ≡ none)
    × (has_help_flag (entry "root" "/" ∷ entry "help" "" ∷ []) ≡ true)
    × (flag_include (entry "include-config" "a" ∷ entry "include-config" "b" ∷ []) ≡ codes "a" ∷ [])
unfolding parse_command has_help_flag flag_include contains same_text
parse_command_lem = (refl, refl, refl, refl)

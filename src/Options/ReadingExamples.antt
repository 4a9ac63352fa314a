-- ===== src/Options/ReadingExamples.antt =====
-- `readOptions` of options.go in a small system.
use tasked.Base.{if◌then◌else◌, codes, same_text, contains, ℕ, ◌≡◌, refl, none, some, [], ◌∷◌, ◌++◌}
use tasked.Keyval.Parser.{parse_file}
use tasked.Keyval.Include.{
  content, not_exist, read_file, expand_entry, expand_loop, expand_includes, read_files, parse,
}
use tasked.Options.Parse.{
  find_key, key_of, pos, Options, new_options, apply_defaults, apply_serve_args, apply_free_args,
  set_option, apply_entry, parse_options, configure, has_help_flag, flag_include, parse_command,
}
use tasked.Options.Reading.{
  World, flag_entries, get_includes, options, of_flags, of_command, read_options,
}
use tasked.Options.Reading.Flags.{read_options_flags}

-- The arguments say which root the flag gives; the file of the system names another one.
abbrev flag_world : World ℕ
flag_world = record {
  args = codes "tasked" ∷ codes "serve" ∷ codes "-root" ∷ codes "/www" ∷ codes "/free" ∷ [];
  getenv = λ v. [];
  parse_args = λ args.
      (λ k. if same_text k (codes "root") then some (codes "/www") else none, codes "/free" ∷ []);
  join = λ a b. a ++ b'/' ∷ b;
  open_file = λ fn.
      if same_text fn (codes "/etc/nlet")
      then content (codes "root=/etc\naddress=:80\n")
      else not_exist;
  parse_int = λ bits s. none;
}

abbrev read_by : Options
read_by =
    let d = new_options (codes "serve") in
    record d {
      root = codes "/www";
      address = codes ":80";
      max_request_header = pos 1_048_576;
      token_validity = pos 6_912_000;
      process_idle_time = pos 360;
    }

read_options_lem : read_options 2 flag_world ≡ options read_by
unfolding read_options of_command of_flags flag_entries get_includes parse_command has_help_flag
    flag_include contains same_text configure parse_options apply_entry set_option key_of find_key
    apply_free_args apply_serve_args apply_defaults parse read_files read_file expand_includes
    expand_loop expand_entry parse_file
read_options_lem = refl

read_options_flags_example : read_by.root ≡ codes "/www"
read_options_flags_example =
    (read_options_flags 2 flag_world read_by read_options_lem).0 (codes "/www")
      (unfold same_text in refl)

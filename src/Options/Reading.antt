-- ===== src/Options/Reading.antt =====
-- `readOptions` of options.go, from the arguments, the environment and the files on. The flag package is a
-- parameter: which value the arguments give each flag, and the arguments that are left.
pub mod Flags
use tasked.Base.{if◌then◌else◌, Runes, codes, same_text, ℕ, ◌/◌, Option, none, some, List, [], ◌∷◌}
use tasked.Keyval.Parser.{Entry}
use tasked.Keyval.Include.{Opened, Outcome, ok, err, panicked, stopped, parse}
use tasked.Options.Parse.{
  Key, include_config_key, key_name, all_keys, ℤ, Options, configure, has_help_flag, flag_include,
  parse_command,
}

-- The system. A variable of the environment that is not set is empty.
pub record World (E : Type 0) : Type 0 where
  pub args : List Runes
  pub getenv : Runes → Runes
  pub parse_args : List Runes → (Runes → Option Runes) × List Runes
  pub join : Runes → Runes → Runes
  pub open_file : Runes → Opened E
  pub parse_int : ℕ → Runes → Option ℤ

-- The entries of `parseFlags`, in the order of its list.
unfoldable pub flag_entries : (Runes → Option Runes) → List Key → List Entry
flag_entries vals [] = []
flag_entries vals (k ∷ ks) =
    let rest = flag_entries vals ks in
    elim (vals (key_name k)) [ none ↦ rest | some v ↦ record { key = key_name k; val = v } ∷ rest ]

abbrev pub drop_two : List Runes → List Runes
drop_two (name ∷ command ∷ args) = args
drop_two _ = []

-- `getIncludes`: the files that are read, the last of them first to count.
unfoldable pub get_includes : {E : Type 0} → World E → List Entry → List Runes
get_includes w flags =
    codes "/etc/nlet"
    ∷ w.join (w.getenv (codes "HOME")) (codes ".nlet")
    ∷ w.getenv (codes "NLETCONF")
    ∷ w.getenv (codes "nletconf")
    ∷ flag_include flags

-- What `readOptions` returns: no options and no error, when the usage was asked for; an error; the panic of
-- the parser of the files; or the options.
pub data Read : Type 0 where
  usage refused panicked_read unfinished : Read
  options : Options → Read

abbrev pub of_option : Option Options → Read
of_option none = refused
of_option (some o) = options o

module _ {E : Type 0} (fuel : ℕ) (w : World E) where
  -- Behind the files.
  abbrev pub of_files :
      (command : Runes) → (free : List Runes) → (flags : List Entry) → Outcome E (List Entry) → Read
  of_files command free flags (ok files) =
      of_option (configure w.parse_int command free files flags)
  of_files command free flags (err e) = refused
  of_files command free flags panicked = panicked_read
  of_files command free flags stopped = unfinished

  -- Behind the flags.
  unfoldable pub of_flags : Runes → List Entry → List Runes → Read
  of_flags command flags free =
      if has_help_flag flags
      then usage
      else of_files command free flags
          (parse w.open_file fuel (get_includes w flags) (key_name include_config_key ∷ []))

  unfoldable pub of_command : Option Runes → Read
  of_command none = refused
  of_command (some command) =
      if same_text command (codes "help")
      then usage
      else let (vals, free) = w.parse_args (drop_two w.args) in
        of_flags command (flag_entries vals all_keys) free

  unfoldable pub read_options : Read
  read_options = of_command (parse_command w.args)

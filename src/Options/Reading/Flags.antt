-- ===== src/Options/Reading/Flags.antt =====
-- That the flags count before the files, of options.go.
use tasked.Base.{
  if◌then◌else◌, Bool-cases, Option-cases, Runes, codes, same_text, same_text_iff, ℕ, ◌≡◌, refl, ap,
  ◌∙◌, ◌⊎◌, inl, inr, Bool, true, false, ◌||◌, Option, none, some, List, [], ◌∷◌, ◌++◌, arith,
}
use tasked.Keyval.Parser.{Entry}
use tasked.Keyval.Include.{Outcome, ok, err, panicked, stopped}
use tasked.Options.Parse.{
  Key, root_key, address_key, key_name, all_keys, Options, configure, has_help_flag, parse_command,
}
use tasked.Options.Parse.Precedence.{last_of, configure_precedence}
use tasked.Options.Reading.{
  World, flag_entries, drop_two, Read, usage, options, of_option, of_files, of_flags, of_command,
  read_options,
}

last_of-append :
    (k : Key) (es fs : List Entry) (v : Runes)
    → last_of k (es ++ fs) v ≡ last_of k fs (last_of k es v)
unfolding last_of
last_of-append k [] fs v = refl
last_of-append k (e ∷ es) fs v = last_of-append k es fs _

-- The keys of the list, and whether `k` is one of them by its name.
abbrev is_listed : Key → List Key → Bool
is_listed k [] = false
is_listed k (j ∷ ks) = same_text (key_name j) (key_name k) || is_listed k ks

last_of-flag_entries :
    (vals : Runes → Option Runes) (k : Key) (v : Runes) (ks : List Key) (d : Runes)
    → vals (key_name k) ≡ some v
    → (d ≡ v) ⊎ (is_listed k ks ≡ true)
    → last_of k (flag_entries vals ks) d ≡ v
unfolding last_of flag_entries
last_of-flag_entries vals k v [] d e (inl h) = h
last_of-flag_entries vals k v [] d e (inr h) = absurd (cc)
last_of-flag_entries vals k v (j ∷ ks) d e h =
    elim (Bool-cases (same_text (key_name j) (key_name k))) [
      | inl m ↦
          rw (ap vals ((same_text_iff (key_name j) (key_name k)).0 m) ∙ e, flag_entries, m, last_of)
            (last_of-flag_entries vals k v ks v e (inl refl))
      | inr n ↦ elim (Option-cases (vals (key_name j))) [
        | inl g ↦ rw (g, flag_entries) (last_of-flag_entries vals k v ks d e (still_given n h))
        | inr (u, g) ↦
            rw (g, flag_entries, n, last_of)
              (last_of-flag_entries vals k v ks d e (still_given n h))
      ]
    ]
  where
    still_given :
        same_text (key_name j) (key_name k) ≡ false
        → (d ≡ v) ⊎ (is_listed k (j ∷ ks) ≡ true)
        → (d ≡ v) ⊎ (is_listed k ks ≡ true)
    still_given n (inl a) = inl a
    still_given n (inr b) = inr (ground (arith, n, b))

-- What the parts of `readOptions` have given where it returns options.
of_option-options : (o : Option Options) (p : Options) → of_option o ≡ options p → o ≡ some p
of_option-options none p h = absurd (cc)
of_option-options (some o) p h = cc

module _ {E : Type 0} (fuel : ℕ) (w : World E) where
  of_files-options :
      (command : Runes) (free : List Runes) (flags : List Entry) (out : Outcome E (List Entry))
      (p : Options)
      → of_files fuel w command free flags out ≡ options p
      → (files : List Entry) × (out ≡ ok files)
        × (configure w.parse_int command free files flags ≡ some p)
  of_files-options command free flags (ok files) p h = (files, refl, of_option-options _ p h)
  of_files-options command free flags (err e) p h = absurd (cc)
  of_files-options command free flags panicked p h = absurd (cc)
  of_files-options command free flags stopped p h = absurd (cc)

  -- The usage is no options.
  if-options :
      (b : Bool) (r : Read) (p : Options)
      → (if b then usage else r) ≡ options p
      → (b ≡ false) × (r ≡ options p)
  if-options true r p h = absurd (cc)
  if-options false r p h = (refl, h)

  of_command-options :
      (o : Option Runes) (p : Options)
      → of_command fuel w o ≡ options p
      → (command : Runes) × (files : List Entry) × (o ≡ some command)
        × (configure w.parse_int command
              (w.parse_args (drop_two w.args)).1
              files
              (flag_entries (w.parse_args (drop_two w.args)).0 all_keys)
            ≡ some p)
  unfolding of_command of_flags
  of_command-options none p h = absurd (cc)
  of_command-options (some command) p h =
      let flags = flag_entries (w.parse_args (drop_two w.args)).0 all_keys in
      let free = (w.parse_args (drop_two w.args)).1 in
      let (a, h1) = if-options (same_text command (codes "help")) _ p h in
      let (b, h2) = if-options (has_help_flag flags) _ p h1 in
      let (files, e, f) = of_files-options command free flags _ p h2 in (command, files, refl, f)

  -- A flag counts before everything that the files say, and before the other arguments: where options are
  -- read, the root and the address are those of the flags, where these are given.
  pub read_options_flags :
      (p : Options)
      → read_options fuel w ≡ options p
      → ((v : Runes) → (w.parse_args (drop_two w.args)).0 (key_name root_key) ≡ some v → p.root ≡ v)
        × ((v : Runes)
            → (w.parse_args (drop_two w.args)).0 (key_name address_key) ≡ some v
            → p.address ≡ v)
  unfolding read_options same_text
  read_options_flags p h =
      let vals = (w.parse_args (drop_two w.args)).0 in
      let free = (w.parse_args (drop_two w.args)).1 in
      let flags = flag_entries vals all_keys in
      let (command, files, e, f) = of_command-options (parse_command w.args) p h in
      let (root, address) = configure_precedence w.parse_int command free files flags p f in
      (
        λ v g.
            root
            ∙ last_of-append root_key files flags _
            ∙ last_of-flag_entries vals root_key v all_keys _ g (inr refl),
        λ v g.
            address
            ∙ last_of-append address_key files flags _
            ∙ last_of-flag_entries vals address_key v all_keys _ g (inr refl),
      )

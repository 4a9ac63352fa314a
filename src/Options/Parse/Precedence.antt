-- ===== src/Options/Parse/Precedence.antt =====
-- Which setting counts, of those that options.go reads.
use mathlib.Core.Path.{subst}
use tasked.Base.{
  if◌then◌else◌, Bool-cases, Option-cases, Runes, codes, same_text, same_text_iff, ℕ, ◌≡◌, refl, ap,
  ◌∙◌, ◌≢◌, inl, inr, true, false, Option, some, List, [], ◌∷◌, ◌++◌, arith,
}
use tasked.Base.Options.{bind-eq-some}
use tasked.Keyval.Parser.{Entry}
use tasked.Options.Parse.{
  Key, root_key, address_key, key_name, all_keys, find_key, key_of, ℤ, Options, new_options,
  apply_defaults, apply_serve_args, apply_free_args, set_option, apply_entry, parse_options,
  configure,
}

-- The value of the last entry for a key, or a default.
unfoldable pub last_of : Key → List Entry → Runes → Runes
last_of k [] v = v
last_of k (e ∷ es) v = last_of k es (if same_text e.key (key_name k) then e.val else v)

-- A key is found by its own name only.
find_key_name :
    (ks : List Key) (s : Runes) (k : Key) → find_key ks s ≡ some k → same_text s (key_name k) ≡ true
unfolding find_key
find_key_name [] s k h = absurd (cc)
find_key_name (j ∷ ks) s k h = elim (Bool-cases (same_text s (key_name j))) [
  | inl e ↦ subst (λ i. same_text s (key_name i) ≡ true) (some_key j k (rw e at h)) e
  | inr e ↦ find_key_name ks s k (rw e at h)
]
  where
    some_key : (j k : Key) → some j ≡ some k → j ≡ k
    some_key j k h = cc

module _ (parse_int : ℕ → Runes → Option ℤ) where
  -- A text of the options that just one key sets.
  record IsField (f : Options → Runes) (k : Key) : Type 0 where
    found : key_of (key_name k) ≡ some k
    own : (val : Runes) (o o' : Options) → set_option parse_int k val o ≡ some o' → f o' ≡ val
    others :
        (j : Key) (val : Runes) (o o' : Options)
        → j ≢ k
        → set_option parse_int j val o ≡ some o'
        → f o' ≡ f o

  module _ (f : Options → Runes) (k : Key) (field : IsField f k) where
    apply_entry_field :
        (e : Entry) (o o' : Options)
        → apply_entry parse_int e o ≡ some o'
        → f o' ≡ (if same_text e.key (key_name k) then e.val else f o)
    unfolding apply_entry
    apply_entry_field e o o' h = elim (Bool-cases (same_text e.key (key_name k))) [
      | inl named ↦
          let found = ap key_of ((same_text_iff e.key (key_name k)).0 named) ∙ field.found in
          rw named (field.own e.val o o' (rw (found, apply_entry) at h))
      | inr unnamed ↦ rw unnamed (elim (Option-cases (key_of e.key)) [
        | inl none_found ↦ ap f (some_options o o' (rw (none_found, apply_entry) at h))
        | inr (j, found) ↦
            field.others j e.val o o'
              (λ same.
                other_key e.key j (find_key_name all_keys e.key j (unfold key_of in found)) same
                  unnamed)
              (rw (found, apply_entry) at h)
      ])
    ]
      where
        some_options : (o o' : Options) → some o ≡ some o' → o' ≡ o
        some_options o o' h = cc

        other_key :
            (s : Runes) (j : Key)
            → same_text s (key_name j) ≡ true
            → j ≡ k
            → same_text s (key_name k) ≡ false
            → ⊥
        other_key s j named same unnamed = ground arith

    parse_options_field :
        (es : List Entry) (o o' : Options)
        → parse_options parse_int es o ≡ some o'
        → f o' ≡ last_of k es (f o)
    unfolding parse_options last_of
    parse_options_field [] o o' h = ap f (some_options o o' h)
      where
        some_options : (o o' : Options) → some o ≡ some o' → o' ≡ o
        some_options o o' h = cc
    parse_options_field (e ∷ es) o o' h =
        let (p, g, h') = bind-eq-some (apply_entry parse_int e o) (parse_options parse_int es) h in
        parse_options_field es p o' h' ∙ ap (last_of k es) (apply_entry_field e o p g)

  root-IsField : IsField (λ o. o.root) root_key
  unfolding set_option key_of find_key same_text
  root-IsField = record {
    found = refl;
    own = λ val o o' h. ground arith;
    others = λ j val o o' n h. ground arith;
  }

  address-IsField : IsField (λ o. o.address) address_key
  unfolding set_option key_of find_key same_text
  address-IsField = record {
    found = refl;
    own = λ val o o' h. ground arith;
    others = λ j val o o' n h. ground arith;
  }

  abbrev pub free_root : Runes → List Runes → Runes
  free_root command [] = []
  free_root command (root ∷ args) = if same_text command (codes "serve") then root else []

  abbrev pub free_address : Runes → List Runes → Runes
  free_address command (root ∷ address ∷ args) =
      if same_text command (codes "serve") then address else codes ":9090"
  free_address command _ = codes ":9090"

  free_args_lem :
      (command : Runes) (args : List Runes) (o : Options)
      → apply_free_args args (apply_defaults (new_options command)) ≡ some o
      → (o.root ≡ free_root command args) × (o.address ≡ free_address command args)
  unfolding apply_free_args apply_serve_args apply_defaults
  free_args_lem command args o h = ground arith

  -- Where the options are read, the root and the address are the last that the files and the flags give,
  -- the flags being the last: these count before the free arguments of the command that serves, and
  -- those before the defaults.
  pub configure_precedence :
      (command : Runes) (args : List Runes) (files flags : List Entry) (o : Options)
      → configure parse_int command args files flags ≡ some o
      → (o.root ≡ last_of root_key (files ++ flags) (free_root command args))
        × (o.address ≡ last_of address_key (files ++ flags) (free_address command args))
  unfolding configure
  configure_precedence command args files flags o h =
      let (p, g, h') =
        bind-eq-some (apply_free_args args (apply_defaults (new_options command)))
          (parse_options parse_int (files ++ flags)) h in
      let (r, a) = free_args_lem command args p g in
      (
        parse_options_field (λ o. o.root) root_key root-IsField (files ++ flags) p o h'
            ∙ ap (last_of root_key (files ++ flags)) r,
        parse_options_field (λ o. o.address) address_key address-IsField (files ++ flags) p o h'
            ∙ ap (last_of address_key (files ++ flags)) a,
      )

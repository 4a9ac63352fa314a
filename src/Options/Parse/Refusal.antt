-- ===== src/Options/Parse/Refusal.antt =====
-- Which settings options.go refuses.
use tasked.Base.{
  Option-cases, Runes, ℕ, ◌≡◌, refl, inl, inr, Bool, true, false, ◌&&◌, Option, none, some, List,
  [], ◌∷◌, arith,
}
use tasked.Keyval.Parser.{Entry}
use tasked.Options.Parse.{
  Key, allow_cookies_key, max_search_results_key, max_request_body_key, max_request_header_key,
  authenticate_key, token_validity_key, max_user_processes_key, process_idle_time_key, key_of, ℤ,
  Options, parse_bool, set_option, apply_entry, parse_options,
}

-- What the value of a key is.
pub data Kind : Type 0 where
  text bool : Kind
  int : (bits : ℕ) → Kind

unfoldable pub kind_of : Key → Kind
kind_of allow_cookies_key = bool
kind_of authenticate_key = bool
kind_of max_search_results_key = int 32
kind_of max_request_body_key = int 64
kind_of max_request_header_key = int 32
kind_of token_validity_key = int 32
kind_of max_user_processes_key = int 32
kind_of process_idle_time_key = int 32
kind_of _ = text

abbrev pub is_some {ℓ} : {A : Type ℓ} → Option A → Bool
is_some none = false
is_some (some a) = true

module _ (parse_int : ℕ → Runes → Option ℤ) where
  abbrev pub is_value_of : Kind → Runes → Bool
  is_value_of text val = true
  is_value_of bool val = is_some (parse_bool val)
  is_value_of (int bits) val = is_some (parse_int bits val)

  -- The entry has a value of its key's kind, or a key that is not known.
  unfoldable pub is_valid : Entry → Bool
  is_valid e = elim (key_of e.key) [ none ↦ true | some k ↦ is_value_of (kind_of k) e.val ]

  unfoldable pub all_valid : List Entry → Bool
  all_valid [] = true
  all_valid (e ∷ es) = is_valid e && all_valid es

  set_option_valid :
      (k : Key) (val : Runes) (o : Options)
      → is_some (set_option parse_int k val o) ≡ is_value_of (kind_of k) val
  unfolding set_option kind_of
  set_option_valid k val o = ground arith

  apply_entry_valid : (e : Entry) (o : Options) → is_some (apply_entry parse_int e o) ≡ is_valid e
  unfolding apply_entry is_valid
  apply_entry_valid e o = elim (Option-cases (key_of e.key)) [
    | inl n ↦ rw (n, apply_entry, is_valid) refl
    | inr (k, n) ↦ rw (n, apply_entry, is_valid) (set_option_valid k e.val o)
  ]

  -- The options are refused just where some entry, of a file or a flag, has a value that is not of its
  -- key's kind, whatever else the entries say; a key that is not known is no error.
  pub parse_options_valid :
      (es : List Entry) (o : Options) → is_some (parse_options parse_int es o) ≡ all_valid es
  unfolding parse_options all_valid
  parse_options_valid [] o = refl
  parse_options_valid (e ∷ es) o = elim (Option-cases (apply_entry parse_int e o)) [
    | inl n ↦ ground (arith, apply_entry_valid e o)
    | inr (p, n) ↦ rw n (ground (arith, apply_entry_valid e o, parse_options_valid es p))
  ]

-- ===== src/Server/Keys.antt =====
-- The keys of the tokens: `genAes` of crypt.go, `mkauth` of pam.go, and `New` of auth/auth.go without the times.
use tasked.Base.{
  if◌then◌else◌, length, Runes, is_empty, ℕ, zero, suc, ◌≡◌, refl, ap, true, false, ◌&&◌, Option,
  some, [], ◌∷◌,
}
use tasked.Base.Options.{◌>>=◌}
use tasked.Options.Fields.{field_or_file}

-- The settings for the keys.
pub record KeySettings : Type 0 where
  pub aes_key : Runes
  pub aes_key_file : Runes
  pub aes_iv : Runes
  pub aes_iv_file : Runes

-- `aes.BlockSize`
abbrev pub block_size : ℕ
block_size = 16

-- `random` is what the calls of the random source give, by their number, for that many bytes.
unfoldable pub gen_aes : (random : ℕ → ℕ → Option Runes) → Option (Runes × Runes)
gen_aes random = random 0 block_size >>= λ key. random 1 block_size >>= λ iv. some (key, iv)

-- The key and the initial value of `mkauth`; `generated` is what `genAes` gives.
unfoldable pub mkauth :
    (read_file : Runes → Option Runes)
    → (generated : Option (Runes × Runes)) → KeySettings
    → Option (Runes × Runes)
mkauth read_file generated o = field_or_file read_file o.aes_key o.aes_key_file >>= λ key.
    field_or_file read_file o.aes_iv o.aes_iv_file >>= λ iv.
    if is_empty key && is_empty iv then generated else some (key, iv)

-- Go's `copy` into that many zero bytes.
unfoldable pub copy_into : ℕ → Runes → Runes
copy_into zero bs = []
copy_into (suc n) [] = 0 ∷ copy_into n []
copy_into (suc n) (b ∷ bs) = b ∷ copy_into n bs

unfoldable pub new_keys : Runes × Runes → Runes × Runes
new_keys (key, iv) = (copy_into block_size key, copy_into block_size iv)

length-copy_into : (n : ℕ) (bs : Runes) → length (copy_into n bs) ≡ n
unfolding copy_into
length-copy_into zero bs = refl
length-copy_into (suc n) [] = ap suc (length-copy_into n [])
length-copy_into (suc n) (b ∷ bs) = ap suc (length-copy_into n bs)

-- The cipher always gets a key and an initial value of 16 bytes, whatever the settings and the files hold.
pub new_keys-length :
    (k : Runes × Runes) → (length (new_keys k).0 ≡ 16) × (length (new_keys k).1 ≡ 16)
unfolding new_keys
new_keys-length (key, iv) = (length-copy_into 16 key, length-copy_into 16 iv)

-- Where an initial value is set but no key and no file for it, no key is generated, and none is asked for:
-- the cipher gets the key of 16 zero bytes, with the initial value that is set.
pub mkauth_zero_key :
    (read_file : Runes → Option Runes) (generated : Option (Runes × Runes)) (o : KeySettings)
    → is_empty o.aes_key ≡ true
    → is_empty o.aes_key_file ≡ true
    → is_empty o.aes_iv ≡ false
    → (mkauth read_file generated o >>= λ k. some (new_keys k))
      ≡ some (copy_into 16 [], copy_into 16 o.aes_iv)
unfolding mkauth field_or_file new_keys
mkauth_zero_key read_file generated o h k i = rw (h, k, i) (rw i refl)

-- ===== src/Auth/Token.antt =====
-- The tokens of auth/auth.go. `AuthToken` reads the clock once here, and twice in the source. AES in counter mode is a function, and so is the check of passwords. The
-- time is in nanoseconds since 1970, and its seconds are below 2 ^ 55, so that they fit in 8 bytes.
pub mod Session
use tasked.Base.{
  ltb, ◌==◌, if◌then◌else◌, length, ℕ, zero, suc, ◌+◌, ◌-◌, ◌*◌, ◌/◌, Bool, Option, none, some, [],
  ◌∷◌, ◌++◌,
}
use tasked.Base.Options.{◌>>=◌}
use tasked.Auth.Varint.{Bytes, ℤ, pos, negsuc, varint, put_varint}

-- The struct `It`, with `crypt` in place of the key. Its durations are in nanoseconds.
pub record It : Type 0 where
  pub iv : Bytes
  pub token_validity : ℕ
  pub renew_threshold : ℕ
  pub crypt : Bytes → Option Bytes
  pub checker : Bytes → Bytes → Bool

abbrev pub take : ℕ → Bytes → Bytes
take zero bs = []
take (suc n) [] = []
take (suc n) (b ∷ bs) = b ∷ take n bs

abbrev pub drop : ℕ → Bytes → Bytes
drop zero bs = bs
drop (suc n) [] = []
drop (suc n) (b ∷ bs) = drop n bs

abbrev pub zeros : ℕ → Bytes
zeros zero = []
zeros (suc n) = 0 ∷ zeros n

-- The bytes behind `iv`, where the text starts with it.
unfoldable pub behind : Bytes → Bytes → Option Bytes
behind [] bs = some bs
behind (i ∷ iv) [] = none
behind (i ∷ iv) (b ∷ bs) = let rest = behind iv bs in if b == i then rest else none

-- The time, in 8 bytes.
abbrev pub time_bytes : ℕ → Bytes
time_bytes c = put_varint 8 c ++ zeros (8 - length (put_varint 8 c))

unfoldable pub encrypt_token : It → ℕ → Bytes → Option Bytes
encrypt_token a c u = a.crypt (a.iv ++ (time_bytes c ++ u))

-- The rest of `decryptToken`, for what stands behind `iv`.
unfoldable pub time_and_user : Bytes → Option (ℤ × Bytes)
time_and_user rest = if ltb (length rest) 8 then none else some (varint (take 8 rest), drop 8 rest)

unfoldable pub decrypt_token : It → Bytes → Option (ℤ × Bytes)
decrypt_token a v = a.crypt v >>= λ b. behind a.iv b >>= time_and_user

abbrev pub second : ℕ
second = 1_000_000_000

-- `time.Now().Unix()`
abbrev pub unix : ℕ → ℕ
unix now = now / second

-- `time.Now().Sub(time.Unix(c, 0)) > d`
abbrev pub is_after : ℕ → ℤ → ℕ → Bool
is_after now (pos c) d = ltb (c * second + d) now
is_after now (negsuc c) d = ltb d (now + suc c * second)

-- `time.Now().Sub(time.Unix(c, 0)) < d`
abbrev pub is_before : ℕ → ℤ → ℕ → Bool
is_before now (pos c) d = ltb now (c * second + d)
is_before now (negsuc c) d = ltb (now + suc c * second) d

unfoldable pub auth_pwd : It → ℕ → Bytes → Bytes → Option Bytes
auth_pwd a now user pwd = if a.checker user pwd then encrypt_token a (unix now) user else none

-- The decrypted token `c`, `u` at a time: the same token, or a new one.
unfoldable pub renew : It → ℕ → Bytes → ℤ → Bytes → Option (Bytes × Bytes)
renew a now v c u =
    if is_after now c a.token_validity
    then none
    else if is_before now c a.renew_threshold
    then some (v, u)
    else encrypt_token a (unix now) u >>= λ w. some (w, u)

unfoldable pub auth_token : It → ℕ → Bytes → Option (Bytes × Bytes)
auth_token a now v = decrypt_token a v >>= λ (c, u). renew a now v c u

-- ===== src/Auth/Token/Session.antt =====
-- How long the tokens of auth/auth.go are good, and what they hold.
use tasked.Base.{
  ltb, if◌then◌else◌, Bool-cases, length, length-append, ℕ, zero, suc, ◌+◌, ◌-◌, ◌*◌, ◌<◌, ◌≡◌,
  refl, ap, inl, inr, none, some, [], ◌∷◌, ◌++◌, arith,
}
use tasked.Base.Options.{◌>>=◌}
use tasked.Auth.Varint.{Bytes, pos, put_varint, limit}
use tasked.Auth.Varint.RoundTrip.{length-put_uvarint, varint-put_varint}
use tasked.Auth.Token.{
  It, take, drop, zeros, behind, time_bytes, encrypt_token, time_and_user, decrypt_token, second,
  unix, auth_pwd, renew, auth_token,
}

behind-append : (iv bs : Bytes) → behind iv (iv ++ bs) ≡ some bs
unfolding behind
behind-append [] bs = refl
behind-append (i ∷ iv) bs = ground (arith, behind-append iv bs)

take-append : (n : ℕ) (xs ys : Bytes) → length xs ≡ n → take n (xs ++ ys) ≡ xs
take-append zero [] ys h = refl
take-append zero (x ∷ xs) ys h = absurd (omega arith)
take-append (suc n) [] ys h = absurd (omega arith)
take-append (suc n) (x ∷ xs) ys h = ap (◌∷◌ x) (take-append n xs ys (omega arith))

drop-append : (n : ℕ) (xs ys : Bytes) → length xs ≡ n → drop n (xs ++ ys) ≡ ys
drop-append zero [] ys h = refl
drop-append zero (x ∷ xs) ys h = absurd (omega arith)
drop-append (suc n) [] ys h = absurd (omega arith)
drop-append (suc n) (x ∷ xs) ys h = drop-append n xs ys (omega arith)

length-zeros : (n : ℕ) → length (zeros n) ≡ n
length-zeros zero = refl
length-zeros (suc n) = omega (arith, length-zeros n)

length-time_bytes : (c : ℕ) → length (time_bytes c) ≡ 8
length-time_bytes c = omega (
  arith,
  length-append (put_varint 8 c) (zeros (8 - length (put_varint 8 c))),
  length-zeros (8 - length (put_varint 8 c)),
  length-put_uvarint 8 (2 * c),
)

-- The seconds that fit in the 8 bytes of a token.
abbrev pub IsTime : ℕ → Type 0
IsTime c = 2 * c < 128 * 128 * 128 * 128 * 128 * 128 * 128 * 128

in_limit : (c : ℕ) → IsTime c → 2 * c < limit 8
unfolding limit
in_limit c h = omega arith

time_and_user-append :
    (c : ℕ) (u : Bytes) → IsTime c → time_and_user (time_bytes c ++ u) ≡ some (pos c, u)
unfolding time_and_user
time_and_user-append c u h =
    let l = length-time_bytes c in
    ground (
      arith,
      length-append (time_bytes c) u,
      l,
      take-append 8 (time_bytes c) u l,
      drop-append 8 (time_bytes c) u l,
      varint-put_varint 8 c (zeros (8 - length (put_varint 8 c))) (in_limit c h) (omega arith),
    )

module _ (a : It) (symmetric : (b e : Bytes) → a.crypt b ≡ some e → a.crypt e ≡ some b) where
  -- Where the cipher undoes itself, what is encrypted to a token is what is decrypted from it, whatever
  -- bytes the user's name has, for a time below 2 ^ 55 seconds.
  pub decrypt_token-encrypt_token :
      (c : ℕ) (u t : Bytes)
      → IsTime c
      → encrypt_token a c u ≡ some t
      → decrypt_token a t ≡ some (pos c, u)
  unfolding encrypt_token decrypt_token
  decrypt_token-encrypt_token c u t h e =
      rw (symmetric (a.iv ++ (time_bytes c ++ u)) t e, behind-append a.iv (time_bytes c ++ u))
        (time_and_user-append c u h)

  -- Let the cipher undo itself, and let a token be given for a password at a time below 2 ^ 55 seconds.
  -- The token is taken as long as it is not older than the validity, measured
  -- from the start of the second in which it was made, and gives its user. Before the threshold it is
  -- given back; from then on a new token for the same user is given, which holds the present time.
  pub auth_token-auth_pwd :
      (made now : ℕ) (user pwd t : Bytes)
      → IsTime (unix made)
      → auth_pwd a made user pwd ≡ some t
      → auth_token a now t ≡ (
          if ltb (unix made * second + a.token_validity) now
          then none
          else if ltb now (unix made * second + a.renew_threshold)
          then some (t, user)
          else (encrypt_token a (unix now) user >>= λ w. some (w, user)))
  unfolding auth_pwd auth_token renew
  auth_token-auth_pwd made now user pwd t h e = elim (Bool-cases (a.checker user pwd)) [
    | inr n ↦ absurd (ground arith)
    | inl y ↦ rw (decrypt_token-encrypt_token (unix made) user t h (ground arith)) refl
  ]

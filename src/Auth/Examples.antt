-- ===== src/Auth/Examples.antt =====
-- Tokens of auth/auth.go at concrete inputs.
use tasked.Base.{
  ltb, if◌then◌else◌, codes, same_text, ℕ, ◌+◌, ◌*◌, ◌≡◌, refl, sym, none, some, [], ◌∷◌, arith,
}
use tasked.Base.Options.{◌>>=◌}
use tasked.Auth.Varint.{Bytes, pos, put_uvarint}
use tasked.Auth.Token.{It, encrypt_token, decrypt_token, second, auth_pwd, auth_token}
use tasked.Auth.Token.Session.{decrypt_token-encrypt_token, auth_token-auth_pwd}

-- A cipher that leaves its input as it is, and tokens that are good for ten seconds.
abbrev plain : It
plain = record {
  iv = 1 ∷ 2 ∷ [];
  token_validity = 10 * second;
  renew_threshold = second;
  crypt = some;
  checker = λ user pwd. same_text pwd (codes "pw");
}

plain_symmetric : (b e : Bytes) → plain.crypt b ≡ some e → plain.crypt e ≡ some b
plain_symmetric b e h = sym h

abbrev made : ℕ
made = 1_416_000_000 * second + 7

abbrev token : Bytes
token = 1 ∷ 2 ∷ (0x80 ∷ 0xc8 ∷ 0xb3 ∷ 0xc6 ∷ 0xa ∷ 0 ∷ 0 ∷ 0 ∷ codes "ann")

token_made : auth_pwd plain made (codes "ann") (codes "pw") ≡ some token
unfolding auth_pwd encrypt_token put_uvarint same_text
token_made = refl

decrypt_token-encrypt_token_example :
    decrypt_token plain token ≡ some (pos 1_416_000_000, codes "ann")
decrypt_token-encrypt_token_example =
    decrypt_token-encrypt_token plain plain_symmetric 1_416_000_000 (codes "ann") token
      (omega arith) (unfold encrypt_token put_uvarint in refl)

auth_token-auth_pwd_example : auth_token plain (made + second) token ≡ (
    if ltb (1_416_000_000 * second + 10 * second) (made + second)
    then none
    else if ltb (made + second) (1_416_000_000 * second + second)
    then some (token, codes "ann")
    else (encrypt_token plain 1_416_000_001 (codes "ann") >>= λ w. some (w, codes "ann")))
auth_token-auth_pwd_example =
    auth_token-auth_pwd plain plain_symmetric made (made + second) (codes "ann") (codes "pw") token
      (omega arith) token_made

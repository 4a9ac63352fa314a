-- ===== src/Auth/Varint/RoundTrip.antt =====
-- Numbers in the tokens of auth/auth.go are read back.
use tasked.Base.{
  ltb, Bool-cases, length, ℕ, zero, suc, ◌+◌, ◌-◌, ◌*◌, ◌/◌, ◌%◌, ◌≤◌, ◌<◌, ◌≡◌, refl, ap, ◌∙◌, inl,
  inr, true, false, some, [], ◌∷◌, ◌++◌, arith,
}
use tasked.Auth.Varint.{Bytes, pos, put_uvarint, uvarint, zigzag, varint, put_varint, limit}

pub length-put_uvarint : (n x : ℕ) → length (put_uvarint n x) ≤ n
unfolding put_uvarint
length-put_uvarint zero x = omega arith
length-put_uvarint (suc n) x = ground (arith, length-put_uvarint n (x / 128))

div_limit : (n x : ℕ) → x < limit (suc n) → x / 128 < limit n
unfolding limit
div_limit n x h = omega arith

small : (x : ℕ) → x < limit 0 → x ≡ 0
unfolding limit
small x h = omega arith

put_large :
    (n x : ℕ)
    → ltb x 128 ≡ false
    → put_uvarint (suc n) x ≡ (128 + x % 128) ∷ put_uvarint n (x / 128)
unfolding put_uvarint
put_large n x e = rw e refl

put_small : (n x : ℕ) → ltb x 128 ≡ true → put_uvarint (suc n) x ≡ x ∷ []
unfolding put_uvarint
put_small n x e = rw e refl

uvarint_small : (b : ℕ) (bs : Bytes) → ltb b 128 ≡ true → uvarint (b ∷ bs) ≡ some b
unfolding uvarint
uvarint_small b bs e = rw e refl

uvarint_large :
    (b y : ℕ) (bs : Bytes)
    → ltb b 128 ≡ false
    → uvarint bs ≡ some y
    → uvarint (b ∷ bs) ≡ some (b - 128 + 128 * y)
unfolding uvarint
uvarint_large b y bs e f = rw (e, f) refl

more_bytes : (n x : ℕ) → x < limit (suc n) → ltb x 128 ≡ false → 0 < n
unfolding limit
more_bytes zero x h e = absurd (ground arith)
more_bytes (suc n) x h e = omega arith

pub uvarint-put_uvarint :
    (n x : ℕ) (rest : Bytes) → x < limit n → 0 < n → uvarint (put_uvarint n x ++ rest) ≡ some x
uvarint-put_uvarint zero x rest h k = absurd (omega arith)
uvarint-put_uvarint (suc n) x rest h k = elim (Bool-cases (ltb x 128)) [
  | inl e ↦ ap (λ bs. uvarint (bs ++ rest)) (put_small n x e) ∙ uvarint_small x rest e
  | inr e ↦
      ap (λ bs. uvarint (bs ++ rest)) (put_large n x e)
      ∙ uvarint_large (128 + x % 128) (x / 128) (put_uvarint n (x / 128) ++ rest) (ground arith)
          (uvarint-put_uvarint n (x / 128) rest (div_limit n x h) (more_bytes n x h e))
      ∙ ap some (omega arith)
]

zigzag_pos : (c : ℕ) → zigzag (some (2 * c)) ≡ pos c
zigzag_pos c = ground arith

pub varint-put_varint :
    (n c : ℕ) (rest : Bytes) → 2 * c < limit n → 0 < n → varint (put_varint n c ++ rest) ≡ pos c
unfolding varint
varint-put_varint n c rest h k = ap zigzag (uvarint-put_uvarint n (2 * c) rest h k) ∙ zigzag_pos c

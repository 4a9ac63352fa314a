-- ===== src/Auth/Varint.antt =====
-- The numbers of encoding/binary that auth/auth.go writes to its tokens.
pub mod RoundTrip
use tasked.Base.{
  ltb, ◌==◌, if◌then◌else◌, ℕ, zero, suc, ◌+◌, ◌-◌, ◌*◌, ◌/◌, ◌%◌, Option, none, some, List, [],
  ◌∷◌,
}

abbrev pub Bytes : Type 0
Bytes = List ℕ

-- An `int64`, as a number of seconds.
pub data ℤ : Type 0 where
  pos : ℕ → ℤ
  negsuc : ℕ → ℤ

-- The bytes of `PutUvarint`, seven bits in each; the fuel is the number of bytes that there is room for.
unfoldable pub put_uvarint : ℕ → ℕ → Bytes
put_uvarint zero x = []
put_uvarint (suc n) x =
    let rest = put_uvarint n (x / 128) in if ltb x 128 then x ∷ [] else (128 + x % 128) ∷ rest

-- `Uvarint`, or none where the bytes end too early.
unfoldable pub uvarint : Bytes → Option ℕ
uvarint [] = none
uvarint (b ∷ bs) =
    let rest = uvarint bs in
    if ltb b 128 then some b else elim rest [ none ↦ none | some x ↦ some (b - 128 + 128 * x) ]

-- An odd number stands for a negative one. An error is the value 0.
abbrev pub zigzag : Option ℕ → ℤ
zigzag none = pos 0
zigzag (some ux) = if ux % 2 == 0 then pos (ux / 2) else negsuc (ux / 2)

-- `Varint`
unfoldable pub varint : Bytes → ℤ
varint bs = zigzag (uvarint bs)

-- `PutVarint`, for a number that is not negative.
abbrev pub put_varint : ℕ → ℕ → Bytes
put_varint n c = put_uvarint n (2 * c)

-- The first number that takes more than so many bytes.
unfoldable pub limit : ℕ → ℕ
limit zero = 1
limit (suc n) = 128 * limit n

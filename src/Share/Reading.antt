-- ===== src/Share/Reading.antt =====
-- `MaxReader` of share/http.go: a reader that gives no more than so many bytes. The errors of the reader
-- behind it are left out; they are passed on.
use tasked.Base.{ltb, leb, ◌==◌, if◌then◌else◌, ℕ, ◌+◌, ◌-◌, ◌≡◌, List, [], ◌∷◌, arith}

-- A call of `Read`: the length of the buffer, and how many bytes the reader behind has by then.
pub record Call : Type 0 where
  pub room : ℕ
  pub has : ℕ

-- What a call gives: a number of bytes, or the error `maxReadExceeded`.
pub data Got : Type 0 where
  bytes : ℕ → Got
  max_read_exceeded : Got

abbrev min : ℕ → ℕ → ℕ
min a b = if leb a b then a else b

-- The count that is left, which is 0 where that of the source is negative, and the result.
unfoldable pub read : ℕ → Call → ℕ × Got
read count c =
    if count == 0
    then (0, max_read_exceeded)
    else let n = min c.has (if ltb count c.room then count else c.room) in (count - n, bytes n)

unfoldable pub read_all : ℕ → List Call → ℕ × List Got
read_all count [] = (count, [])
read_all count (c ∷ cs) =
    let (left, g) = read count c in let (last, gs) = read_all left cs in (last, g ∷ gs)

unfoldable pub total : List Got → ℕ
total [] = 0
total (bytes n ∷ gs) = n + total gs
total (max_read_exceeded ∷ gs) = total gs

read-total : (count : ℕ) (c : Call) → (read count c).0 + total ((read count c).1 ∷ []) ≡ count
unfolding read total
read-total count c = ground arith

total-cons : (g : Got) (gs : List Got) → total (g ∷ gs) ≡ total (g ∷ []) + total gs
unfolding total
total-cons (bytes n) gs = omega arith
total-cons max_read_exceeded gs = omega arith

-- Over all calls, the bytes that were given and the count that is left make up the count at the start: so
-- no more bytes come through than that.
pub read_all-total :
    (count : ℕ) (cs : List Call) → (read_all count cs).0 + total (read_all count cs).1 ≡ count
unfolding read_all
read_all-total count [] = unfold total in omega arith
read_all-total count (c ∷ cs) = omega (
  arith,
  read-total count c,
  read_all-total (read count c).0 cs,
  total-cons (read count c).1 (read_all (read count c).0 cs).1,
)

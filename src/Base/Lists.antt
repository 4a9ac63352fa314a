-- ===== src/Base/Lists.antt =====
-- Lists measured by native numbers, predicates on lists, and texts as lists of code points.
use Prim.Native.Char.{code}
use Prim.Native.Nat.{ℕ, suc, ◌+◌}
use Prim.Native.String.{String}
use mathlib.Core.Bool.{Bool, true, false, ◌&&◌, ◌||◌}
use mathlib.Core.Path.{◌≡◌, refl, subst}
use mathlib.Core.Logic.{◌↔◌, inl, inr}
use mathlib.Core.List.{List, [], ◌∷◌, ◌++◌, concat-ne-nil}
use native.Mathlib.Omega.{arith}
use tasked.Base.Tests.{◌==◌, if◌then◌else◌, Bool-cases}

module _ {ℓ} {A : Type ℓ} where
  abbrev pub length : List A → ℕ
  length [] = 0
  length (x ∷ xs) = suc (length xs)

  pub length-append : (xs ys : List A) → length (xs ++ ys) ≡ length xs + length ys
  length-append [] ys = omega arith
  length-append (x ∷ xs) ys = omega (arith, length-append xs ys)

  pub concat_inj : (xs ys : List A) {a b : A} → xs ++ a ∷ [] ≡ ys ++ b ∷ [] → (xs ≡ ys) × (a ≡ b)
  concat_inj [] [] h = ground arith
  concat_inj [] (y ∷ ys) {b = b} h = absurd (concat-ne-nil b ys (ground arith))
  concat_inj (x ∷ xs) [] {a = a} h = absurd (concat-ne-nil a xs (ground arith))
  concat_inj (x ∷ xs) (y ∷ ys) {a = a} {b = b} h = ground (arith, concat_inj xs ys {a = a} {b = b})

abbrev pub All {ℓ κ} : {A : Type ℓ} → (A → Type κ) → List A → Type κ
All P [] = Unit
All P (x ∷ xs) = P x × All P xs

pub All-append {ℓ κ} :
    {A : Type ℓ} (P : A → Type κ) (front back : List A)
    → All P front
    → All P back
    → All P (front ++ back)
All-append P [] back h k = k
All-append P (a ∷ front) back (h, hs) k = (h, All-append P front back hs k)

-- A text as the list of its code points.
abbrev pub Runes : Type 0
Runes = List ℕ

abbrev pub codes : String → Runes
codes String.[] = []
codes (String.◌∷◌ c s) = code c ∷ codes s

-- Go's `==` on two texts.
unfoldable pub same_text : Runes → Runes → Bool
same_text [] [] = true
same_text (x ∷ xs) (y ∷ ys) = x == y && same_text xs ys
same_text _ _ = false

pub same_text_iff : (s t : Runes) → (same_text s t ≡ true) ↔ (s ≡ t)
unfolding same_text
same_text_iff (x ∷ s) (y ∷ t) = ground (arith, same_text_iff s t)
same_text_iff _ _ = ground arith

unfoldable pub contains : Runes → List Runes → Bool
unfolding same_text
contains s [] = false
contains s (t ∷ ts) = same_text s t || contains s ts

-- Pairwise different texts.
abbrev pub IsDistinct : List Runes → Type 0
IsDistinct [] = Unit
IsDistinct (x ∷ xs) = (contains x xs ≡ false) × IsDistinct xs

pub contains-append :
    (s : Runes) (xs ys : List Runes) → contains s (xs ++ ys) ≡ (contains s xs || contains s ys)
unfolding contains
contains-append s [] ys = refl
contains-append s (x ∷ xs) ys = ground (arith, contains-append s xs ys)

-- The parts of a list of different texts have different texts, and none in common.
pub IsDistinct-append :
    (xs ys : List Runes)
    → IsDistinct (xs ++ ys)
    → IsDistinct xs × IsDistinct ys × ((s : Runes) → contains s ys ≡ true → contains s xs ≡ false)
unfolding contains
IsDistinct-append [] ys d = (tt, d, λ s h. refl)
IsDistinct-append (x ∷ xs) ys (n, d) =
    let (dx, dy, f) = IsDistinct-append xs ys d in
    (
      (ground (arith, n, contains-append x xs ys), dx),
      dy,
      λ s h. elim (Bool-cases (same_text s x)) [
        | inl e ↦ absurd (clash s h ((same_text_iff s x).0 e))
        | inr e ↦ ground (arith, e, f s h)
      ],
    )
  where
    clash : (s : Runes) → contains s ys ≡ true → s ≡ x → ⊥
    clash s h e =
        absurd (ground (arith, n, contains-append x xs ys, subst (λ v. contains v ys ≡ true) e h))

abbrev pub onto_first : ℕ → List Runes → List Runes
onto_first c [] = (c ∷ []) ∷ []
onto_first c (w ∷ ws) = (c ∷ w) ∷ ws

-- Go's `strings.Split` for a separator of one rune.
unfoldable pub split : ℕ → Runes → List Runes
split sep [] = [] ∷ []
split sep (c ∷ cs) = let rest = split sep cs in if c == sep then [] ∷ rest else onto_first c rest

abbrev pub is_empty {ℓ} : {A : Type ℓ} → List A → Bool
is_empty [] = true
is_empty (_ ∷ _) = false

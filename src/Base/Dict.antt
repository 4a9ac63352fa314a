-- ===== src/Base/Dict.antt =====
-- Go's maps with string keys as association lists. A `range` goes through the list in its order;
-- the theorems hold of every list, and so of every order in which Go may go through a map.
use Prim.Native.String.{String}
use text.Mathlib.Text.{◌==◌}
use text.Mathlib.TextEquality.{eq_iff}
use mathlib.Core.List.{List, [], ◌∷◌, Perm}
use mathlib.Core.List.Perm
use mathlib.Core.Path.{◌≡◌, refl, sym}
use mathlib.Core.Logic.{◌≢◌, inl, inr}
use mathlib.Core.Bool.{Bool, false, ◌||◌}
use mathlib.Core.Option.{Option, none, some}
use Prim.Native.Nat.{suc, ◌≤◌}
use native.Mathlib.Omega.{arith}
use tasked.Base.Tests.{if◌then◌else◌, Bool-cases}
use tasked.Base.Lists.{length}

unfoldable pub has : String → List String → Bool
has k [] = false
has k (j ∷ ks) = j == k || has k ks

some_inj {ℓ} : {A : Type ℓ} {a b : A} → some a ≡ some b → a ≡ b
some_inj h = cc

none_ne_some {ℓ} : {A : Type ℓ} {a : A} → ◌≢◌ {A = Option A} none (some a)
none_ne_some h = cc

module _ {ℓ} {V : Type ℓ} where
  -- The binding of a key that stands first is the one that counts.
  unfoldable pub lookup : String → List (String × V) → Option V
  lookup key [] = none
  lookup key ((first, val) ∷ rest) = if first == key then some val else lookup key rest

  -- `delete(m, k)`
  unfoldable pub delete : String → List (String × V) → List (String × V)
  delete key [] = []
  delete key ((first, val) ∷ rest) =
      let kept = delete key rest in if first == key then kept else (first, val) ∷ kept

  -- `m[k] = v`
  unfoldable pub insert : String → V → List (String × V) → List (String × V)
  insert key new [] = (key, new) ∷ []
  insert key new ((first, old) ∷ rest) =
      if first == key then (key, new) ∷ rest else (first, old) ∷ insert key new rest

  unfoldable pub keys : List (String × V) → List String
  keys [] = []
  keys ((k, v) ∷ m) = k ∷ keys m

  unfoldable pub vals : List (String × V) → List V
  vals [] = []
  vals ((k, v) ∷ m) = v ∷ vals m

  -- No key stands twice.
  abbrev pub IsMap : List (String × V) → Type ℓ
  IsMap [] = Unit {ℓ}
  IsMap ((k, v) ∷ m) = (lookup k m ≡ none) × IsMap m

  pub lookup-insert :
      (key other : String) (new : V) (m : List (String × V))
      → lookup other (insert key new m) ≡ (if key == other then some new else lookup other m)
  unfolding insert lookup
  lookup-insert key other new [] = refl
  lookup-insert key other new ((first, old) ∷ rest) = ground (
    arith,
    lookup-insert key other new rest,
    eq_iff key other,
    eq_iff first key,
    eq_iff first other,
  )

  pub lookup-delete :
      (k j : String) (m : List (String × V))
      → lookup j (delete k m) ≡ (if k == j then none else lookup j m)
  unfolding lookup delete
  lookup-delete k j [] = ground arith
  lookup-delete k j ((i, w) ∷ m) =
      ground (arith, eq_iff k j, eq_iff i k, eq_iff i j, lookup-delete k j m)

  pub has-keys : (k : String) (m : List (String × V)) → has k (keys m) ≡ false → lookup k m ≡ none
  unfolding has keys lookup
  has-keys k [] h = refl
  has-keys k ((j, v) ∷ m) h = ground (arith, has-keys k m)

  pub keys_absent :
      (k : String) (m : List (String × V)) → lookup k m ≡ none → has k (keys m) ≡ false
  unfolding has keys lookup
  keys_absent k [] h = refl
  keys_absent k ((j, v) ∷ m) h = ground (arith, keys_absent k m)

  pub delete_absent : (k : String) (m : List (String × V)) → lookup k m ≡ none → delete k m ≡ m
  unfolding lookup delete
  delete_absent k [] h = refl
  delete_absent k ((j, v) ∷ m) h = ground (arith, delete_absent k m)

  pub insert-IsMap : (k : String) (v : V) (m : List (String × V)) → IsMap m → IsMap (insert k v m)
  unfolding insert lookup
  insert-IsMap k v [] h = (refl, tt)
  insert-IsMap k v ((j, w) ∷ m) h =
      ground (arith, eq_iff j k, eq_iff k j, lookup-insert k j v m, insert-IsMap k v m)

  pub delete-IsMap : (k : String) (m : List (String × V)) → IsMap m → IsMap (delete k m)
  unfolding delete
  delete-IsMap k [] h = tt
  delete-IsMap k ((j, w) ∷ m) h = ground (arith, lookup-delete k j m, delete-IsMap k m)

  -- The entry of a key, taken out.
  pub length-delete :
      (k : String) (v : V) (m : List (String × V))
      → IsMap m
      → lookup k m ≡ some v
      → suc (length (delete k m)) ≡ length m
  unfolding lookup delete
  length-delete k v [] h e = cc
  length-delete k v ((j, w) ∷ m) h e =
      ground (arith, eq_iff j k, delete_absent k m, length-delete k v m h.1)

  pub length-delete-le : (k : String) (m : List (String × V)) → length (delete k m) ≤ length m
  unfolding delete
  length-delete-le k [] = omega arith
  length-delete-le k ((j, w) ∷ m) = ground (arith, length-delete-le k m)

  pub length-insert_new :
      (k : String) (v : V) (m : List (String × V))
      → lookup k m ≡ none
      → length (insert k v m) ≡ suc (length m)
  unfolding lookup insert
  length-insert_new k v [] h = refl
  length-insert_new k v ((j, w) ∷ m) h = ground (arith, length-insert_new k v m)

  pub length-insert_old :
      (k : String) (v w : V) (m : List (String × V))
      → lookup k m ≡ some w
      → length (insert k v m) ≡ length m
  unfolding lookup insert
  length-insert_old k v w [] h = cc
  length-insert_old k v w ((j, x) ∷ m) h = ground (arith, length-insert_old k v w m)

  pub vals-delete-perm :
      (k : String) (v : V) (m : List (String × V))
      → IsMap m
      → lookup k m ≡ some v
      → Perm (vals m) (v ∷ vals (delete k m))
  unfolding vals lookup delete
  vals-delete-perm k v [] h e = absurd (cc)
  vals-delete-perm k v ((j, w) ∷ m) h e = elim (Bool-cases (j == k)) [
    | inl same ↦
        let same' : j ≡ k = (eq_iff j k).0 same in
        rw (same, delete_absent k m (ground (arith, h.0)), some_inj (rw same at e)) (Perm.refl _)
    | inr other ↦
        rw other
          (Perm.trans (Perm.cons w (vals-delete-perm k v m h.1 (rw other at e))) (Perm.swap v w _))
  ]

  pub vals-insert-perm :
      (k : String) (v : V) (m : List (String × V))
      → lookup k m ≡ none
      → Perm (vals (insert k v m)) (v ∷ vals m)
  unfolding vals lookup insert
  vals-insert-perm k v [] e = Perm.refl _
  vals-insert-perm k v ((j, w) ∷ m) e = elim (Bool-cases (j == k)) [
    | inl same ↦ absurd (none_ne_some (sym (rw same at e)))
    | inr other ↦
        rw other
          (Perm.trans (Perm.cons w (vals-insert-perm k v m (rw other at e))) (Perm.swap v w _))
  ]

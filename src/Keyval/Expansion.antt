-- ===== src/Keyval/Expansion.antt =====
-- `expandIncludes` of keyval/keyval.go against what an expansion is.
use mathlib.Core.Path.{subst}
use tasked.Base.{
  Bool-cases, All, All-append, Runes, same_text_iff, contains, ℕ, zero, suc, ◌≡◌, refl, inl, inr,
  true, false, List, [], ◌∷◌, ◌++◌, IsDistinct, arith,
}
use tasked.Keyval.Parser.{Entry}
use tasked.Keyval.Include.{
  Opened, Outcome, ok, err, panicked, stopped, ◌>>=◌, read_file, expand_entry, expand_loop,
  expand_includes, read_files, parse,
}

abbrev pub Ensures : {E A : Type 0} → (A → Type 0) → Outcome E A → Type 0
Ensures P (ok a) = P a
Ensures P _ = Unit {0}

pub Ensures-bind :
    {E A B : Type 0} (P : A → Type 0) (Q : B → Type 0) (m : Outcome E A) (f : A → Outcome E B)
    → Ensures P m
    → ((a : A) → m ≡ ok a → P a → Ensures Q (f a))
    → Ensures Q (m >>= f)
Ensures-bind P Q (ok a) f h k = k a refl h
Ensures-bind P Q (err e) f h k = tt
Ensures-bind P Q panicked f h k = tt
Ensures-bind P Q stopped f h k = tt

bind-eq-ok :
    {E A B : Type 0} (m : Outcome E A) (f : A → Outcome E B) {b : B}
    → (m >>= f) ≡ ok b
    → (a : A) × (m ≡ ok a) × (f a ≡ ok b)
bind-eq-ok stopped f h = absurd (cc)
bind-eq-ok panicked f h = absurd (cc)
bind-eq-ok (err e) f h = absurd (cc)
bind-eq-ok (ok r) f h = (r, refl, h)

pub ok_injective : {E A : Type 0} (a b : A) → ◌≡◌ {A = Outcome E A} (ok a) (ok b) → a ≡ b
ok_injective a b h = cc

pub always : {E A : Type 0} (m : Outcome E A) → Ensures (λ _. Unit {0}) m
always (ok a) = tt
always (err e) = tt
always panicked = tt
always stopped = tt

pub ensured :
    {E A : Type 0} (P : A → Type 0) (m : Outcome E A) {a : A} → Ensures P m → m ≡ ok a → P a
ensured P m h e = subst (Ensures P) e h

abbrev pub Within : List Runes → List Runes → Type 0
Within r r' = (s : Runes) → contains s r ≡ true → contains s r' ≡ true

pub Within-cons : (s : Runes) (r : List Runes) → Within r (s ∷ r)
unfolding contains
Within-cons s r t h = ground arith

pub contains_self : (s : Runes) (r : List Runes) → contains s (s ∷ r) ≡ true
unfolding contains
contains_self s r = rw ((same_text_iff s s).1 refl)

module _ {E : Type 0} (open_file : Runes → Opened E) (keys : List Runes) where
  -- `ys` is what `xs` stands for, from its last entry to its first, where the files of `from` stand for
  -- nothing any more; `to` has these files, and those that were put in. An include of a file that is not
  -- among them so far stands for what the file's entries stand for behind it; any other stands for nothing.
  pub data IsExpansion : (from to : List Runes) → List Entry → List Entry → Type 0 where
    nil : {from : List Runes} → IsExpansion from from [] []
    own :
        {x : Entry} {from to : List Runes} {xs ys : List Entry}
        → contains x.key keys ≡ false
        → IsExpansion from to xs ys
        → IsExpansion from to (x ∷ xs) (x ∷ ys)
    drops :
        {x : Entry} {from to : List Runes} {xs ys : List Entry}
        → contains x.key keys ≡ true
        → contains x.val to ≡ true
        → IsExpansion from to xs ys
        → IsExpansion from to (x ∷ xs) ys
    includes :
        {x : Entry} {from mid to : List Runes} {xs ys include expanded : List Entry}
        → contains x.key keys ≡ true
        → contains x.val mid ≡ false
        → read_file open_file x.val ≡ ok include
        → IsExpansion from mid xs ys
        → IsExpansion (x.val ∷ mid) to include expanded
        → IsExpansion from to (x ∷ xs) (expanded ++ ys)

  pub IsOwn : Entry → Type 0
  IsOwn x = contains x.key keys ≡ false

  pub expansion-IsOwn :
      {from to : List Runes} {xs ys : List Entry} → IsExpansion from to xs ys → All IsOwn ys
  unfolding IsOwn
  expansion-IsOwn nil = tt
  expansion-IsOwn (own k h) = (k, expansion-IsOwn h)
  expansion-IsOwn (drops k c h) = expansion-IsOwn h
  expansion-IsOwn (includes {ys} {expanded} k c e h g) =
      All-append IsOwn expanded ys (expansion-IsOwn g) (expansion-IsOwn h)

  -- No file is put in twice.
  expansion-IsDistinct :
      {from to : List Runes} {xs ys : List Entry}
      → IsExpansion from to xs ys
      → IsDistinct from
      → IsDistinct to
  expansion-IsDistinct nil d = d
  expansion-IsDistinct (own k h) d = expansion-IsDistinct h d
  expansion-IsDistinct (drops k c h) d = expansion-IsDistinct h d
  expansion-IsDistinct (includes k c e h g) d = expansion-IsDistinct g (c, expansion-IsDistinct h d)

  pub IsGood : List Runes → List Entry → List Entry × List Runes → Type 0
  IsGood from es out = IsExpansion from out.1 es out.0

  module _ (recur : List Entry → List Runes → Outcome E (List Entry × List Runes))
      (good : (es : List Entry) (r : List Runes) → Ensures (IsGood r es) (recur es r)) where
    expand_entry-IsGood :
        (x : Entry) (xs : List Entry) (from : List Runes) (later : List Entry × List Runes)
        → IsGood from xs later
        → Ensures (IsGood from (x ∷ xs)) (expand_entry open_file recur keys x later)
    unfolding expand_entry IsGood
    expand_entry-IsGood x xs from (ys, r) h = elim (Bool-cases (contains x.key keys)) [
      | inr own_key ↦ rw own_key (own own_key h)
      | inl include_key ↦ rw include_key (elim (Bool-cases (contains x.val r)) [
        | inl old ↦ rw old (drops include_key old h)
        | inr new ↦ rw new (
            Ensures-bind (λ _. Unit {0}) (IsGood from (x ∷ xs)) (read_file open_file x.val) _
              (always _)
              λ include e _.
                Ensures-bind (IsGood (x.val ∷ r) include) (IsGood from (x ∷ xs))
                  (recur include (x.val ∷ r)) _ (good include (x.val ∷ r))
                  λ (expanded, r') _ g. includes include_key new e h g)
      ])
    ]

    expand_loop-IsGood :
        (es : List Entry) (r : List Runes)
        → Ensures (IsGood r es) (expand_loop open_file recur keys es r)
    unfolding expand_loop IsGood
    expand_loop-IsGood [] r = nil
    expand_loop-IsGood (x ∷ xs) r =
        Ensures-bind (IsGood r xs) (IsGood r (x ∷ xs)) (expand_loop open_file recur keys xs r) _
          (expand_loop-IsGood xs r) (λ later _ g. expand_entry-IsGood x xs r later g)

  IsExpansion-refl : (r : List Runes) (es : List Entry) → keys ≡ [] → IsExpansion r r es es
  IsExpansion-refl r [] k = nil
  IsExpansion-refl r (x ∷ es) k = own (rw k (unfold contains in refl)) (IsExpansion-refl r es k)

pub expand_includes-IsGood :
    {E : Type 0} (open_file : Runes → Opened E) (keys : List Runes) (fuel : ℕ) (es : List Entry)
    (r : List Runes)
    → Ensures (IsGood open_file keys r es) (expand_includes open_file fuel keys es r)
unfolding expand_includes IsGood
expand_includes-IsGood open_file keys zero es r = tt
expand_includes-IsGood open_file [] (suc fuel) es r = IsExpansion-refl open_file [] r es refl
expand_includes-IsGood open_file (k ∷ keys) (suc fuel) es r =
    expand_loop-IsGood open_file (k ∷ keys) (expand_includes open_file fuel (k ∷ keys))
      (expand_includes-IsGood open_file (k ∷ keys) fuel) es r

-- When `Parse` gives entries, they are what the entries of its files stand for, from the last to the first:
-- an include of a file that was not put in so far stands for the expansion of the entries of this file, where
-- the file counts as put in; an include of a file that was put in stands for nothing; and any other entry
-- stands for itself. So no file is put in twice, and no include is left.
pub parse-IsExpansion :
    {E : Type 0} (open_file : Runes → Opened E) (keys : List Runes) (fuel : ℕ) (files : List Runes)
    {ys : List Entry}
    → parse open_file fuel files keys ≡ ok ys
    → (es : List Entry) × (read : List Runes) × (read_files open_file files [] ≡ ok es)
      × IsExpansion open_file keys [] read es ys
      × IsDistinct read
      × All (λ y. contains y.key keys ≡ false) ys
unfolding parse IsOwn IsGood
parse-IsExpansion {E} open_file keys fuel files {ys} h =
    let (es, a, h') = bind-eq-ok (read_files open_file files []) _ h in
    let ((zs, r), b, e) = bind-eq-ok (expand_includes open_file fuel keys es []) _ h' in
    let g =
      ensured (IsGood open_file keys [] es) (expand_includes open_file fuel keys es [])
        (expand_includes-IsGood open_file keys fuel es []) b in
    let x = subst (IsExpansion open_file keys [] r es) (ok_injective zs ys e) g in
    (es, r, a, x, expansion-IsDistinct open_file keys x tt, expansion-IsOwn open_file keys x)

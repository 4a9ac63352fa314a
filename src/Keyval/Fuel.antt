-- ===== src/Keyval/Fuel.antt =====
-- The recursion of `expandIncludes` of keyval/keyval.go ends: each call marks one more file as read.
use tasked.Base.{
  if◌then◌else◌, Bool-cases, length, All, All-append, Runes, same_text_iff, contains, ℕ, zero, suc,
  ◌+◌, ◌≤◌, ◌<◌, ◌≡◌, refl, ◌≢◌, inl, inr, true, false, List, [], ◌∷◌, ◌++◌, arith,
}
use tasked.Keyval.Parser.{Entry}
use tasked.Keyval.Include.{
  Opened, Outcome, ok, err, panicked, stopped, ◌>>=◌, read_file, expand_entry, expand_loop,
  expand_includes, read_files, parse,
}
use tasked.Keyval.Expansion.{Within, Within-cons}

-- `m` was not cut off, and its value satisfies `P`.
abbrev pub Halts : {E A : Type 0} → (A → Type 0) → Outcome E A → Type 0
Halts P (ok a) = P a
Halts P (err e) = Unit {0}
Halts P panicked = Unit {0}
Halts P stopped = ⊥

Halts-bind :
    {E A B : Type 0} (P : A → Type 0) (Q : B → Type 0) (m : Outcome E A) (f : A → Outcome E B)
    → Halts P m
    → ((a : A) → m ≡ ok a → P a → Halts Q (f a))
    → Halts Q (m >>= f)
Halts-bind P Q (ok a) f h k = k a refl h
Halts-bind P Q (err e) f h k = tt
Halts-bind P Q panicked f h k = tt
Halts-bind P Q stopped f h k = h

Halts-ne-stopped : {E A : Type 0} (P : A → Type 0) (m : Outcome E A) → Halts P m → m ≢ stopped
Halts-ne-stopped P (ok a) h e = cc
Halts-ne-stopped P (err x) h e = cc
Halts-ne-stopped P panicked h e = cc
Halts-ne-stopped P stopped h e = h

-- How many of the names were not read.
unread : List Runes → List Runes → ℕ
unread [] r = 0
unread (u ∷ us) r = (if contains u r then 0 else 1) + unread us r

unread-le-length : (us r : List Runes) → unread us r ≤ length us
unfolding unread
unread-le-length [] r = omega arith
unread-le-length (u ∷ us) r = ground (arith, unread-le-length us r)

unread_mono : (us r r' : List Runes) → Within r r' → unread us r' ≤ unread us r
unfolding unread
unread_mono [] r r' w = omega arith
unread_mono (u ∷ us) r r' w = ground (arith, unread_mono us r r' w, w u)

unread-cons :
    (us : List Runes) (s : Runes) (r : List Runes)
    → contains s us ≡ true
    → contains s r ≡ false
    → unread us (s ∷ r) < unread us r
unfolding unread contains
unread-cons [] s r h k = absurd (cc)
unread-cons (u ∷ us) s r h k = ground (
  arith,
  same_text_iff s u,
  same_text_iff u s,
  unread-cons us s r,
  unread_mono us r (s ∷ r) (Within-cons s r),
)

read_file-ne-stopped :
    {E : Type 0} (open_file : Runes → Opened E) (fn : Runes) → read_file open_file fn ≢ stopped
unfolding read_file
read_file-ne-stopped open_file fn = ground arith

of_values :
    {E A : Type 0} (P : A → Type 0) (m : Outcome E A)
    → m ≢ stopped
    → ((a : A) → m ≡ ok a → P a)
    → Halts P m
of_values P (ok a) n h = h a refl
of_values P (err e) n h = tt
of_values P panicked n h = tt
of_values P stopped n h = n refl

module _ {E : Type 0} (open_file : Runes → Opened E) (keys names : List Runes) where
  -- The includes among the entries name files of the list `names`.
  abbrev pub IsNamed : List Entry → Type 0
  IsNamed = All λ x. contains x.key keys ≡ true → contains x.val names ≡ true

  abbrev pub IsClosed : Type 0
  IsClosed = (fn : Runes) (es : List Entry) → read_file open_file fn ≡ ok es → IsNamed es

  abbrev Grows : List Runes → List Entry × List Runes → Type 0
  Grows r out = Within r out.1

  module _ (closed : IsClosed) where
    read_file-Halts : (fn : Runes) → Halts IsNamed (read_file open_file fn)
    read_file-Halts fn =
        of_values IsNamed (read_file open_file fn) (read_file-ne-stopped open_file fn) (closed fn)

    module _ (recur : List Entry → List Runes → Outcome E (List Entry × List Runes)) (fuel : ℕ)
        (halts : (es : List Entry) (r : List Runes)
          → unread names r < fuel
          → IsNamed es
          → Halts (Grows r) (recur es r)) where
      splice-Halts :
          (x : Entry) (ys : List Entry) (from r : List Runes)
          → contains x.val names ≡ true
          → contains x.val r ≡ false
          → unread names from < suc fuel
          → Within from r
          → Halts (Grows from) (
              read_file open_file x.val >>= λ include.
              recur include (x.val ∷ r) >>= λ (expanded, r'). ok (expanded ++ ys, r'))
      splice-Halts x ys from r m n u w =
          Halts-bind IsNamed (Grows from) (read_file open_file x.val) _ (read_file-Halts x.val)
            (λ include _ named.
              Halts-bind (Grows (x.val ∷ r)) (Grows from) (recur include (x.val ∷ r)) _
                (halts include (x.val ∷ r)
                  (omega (arith, unread-cons names x.val r m n, unread_mono names from r w)) named)
                (λ out _ g s c. g s (Within-cons x.val r s (w s c))))

      expand_entry-Halts :
          (x : Entry) (from : List Runes) (later : List Entry × List Runes)
          → (contains x.key keys ≡ true → contains x.val names ≡ true)
          → unread names from < suc fuel
          → Within from later.1
          → Halts (Grows from) (expand_entry open_file recur keys x later)
      unfolding expand_entry
      expand_entry-Halts x from (ys, r) m u w = elim (Bool-cases (contains x.key keys)) [
        | inr own_key ↦ rw own_key w
        | inl include_key ↦ rw include_key (elim (Bool-cases (contains x.val r)) [
          | inl old ↦ rw old w
          | inr new ↦ rw new (splice-Halts x ys from r (m include_key) new u w)
        ])
      ]

      expand_loop-Halts :
          (es : List Entry) (r : List Runes)
          → unread names r < suc fuel
          → IsNamed es
          → Halts (Grows r) (expand_loop open_file recur keys es r)
      unfolding expand_loop
      expand_loop-Halts [] r u m = λ s c. c
      expand_loop-Halts (x ∷ xs) r u m =
          Halts-bind (Grows r) (Grows r) (expand_loop open_file recur keys xs r) _
            (expand_loop-Halts xs r u m.1) (λ later _ g. expand_entry-Halts x r later m.0 u g)

    read_files-Halts :
        (fs : List Runes) (es : List Entry)
        → IsNamed es
        → Halts IsNamed (read_files open_file fs es)
    unfolding read_files
    read_files-Halts [] es m = m
    read_files-Halts (f ∷ fs) es m =
        Halts-bind IsNamed IsNamed (read_file open_file f) _ (read_file-Halts f)
          (λ ei _ n. read_files-Halts fs (es ++ ei) (All-append _ es ei m n))

expand_includes-Halts :
    {E : Type 0} (open_file : Runes → Opened E) (keys names : List Runes)
    (closed : IsClosed open_file keys names) (fuel : ℕ) (es : List Entry) (r : List Runes)
    → unread names r < fuel
    → IsNamed open_file keys names es
    → Halts (Grows open_file keys names r) (expand_includes open_file fuel keys es r)
unfolding expand_includes
expand_includes-Halts open_file keys names closed zero es r u m = absurd (omega arith)
expand_includes-Halts open_file [] names closed (suc fuel) es r u m = λ s c. c
expand_includes-Halts open_file (k ∷ keys) names closed (suc fuel) es r u m =
    expand_loop-Halts open_file (k ∷ keys) names closed (expand_includes open_file fuel (k ∷ keys))
      fuel (expand_includes-Halts open_file (k ∷ keys) names closed fuel) es r u m

-- Where all includes of all files name files of a list, `Parse` ends, with a recursion no deeper
-- than the list is long: cyclic includes do not keep it from returning.
pub parse-ne-stopped :
    {E : Type 0} (open_file : Runes → Opened E) (keys names : List Runes)
    → IsClosed open_file keys names
    → (fuel : ℕ) (files : List Runes) → length names < fuel
    → parse open_file fuel files keys ≢ stopped
unfolding parse
parse-ne-stopped open_file keys names closed fuel files u =
    Halts-ne-stopped (λ _. Unit {0}) (parse open_file fuel files keys)
      (Halts-bind (IsNamed open_file keys names) (λ _. Unit {0}) (read_files open_file files []) _
        (read_files-Halts open_file keys names closed files [] tt)
        (λ es _ m.
          Halts-bind (Grows open_file keys names []) (λ _. Unit {0})
            (expand_includes open_file fuel keys es []) _
            (expand_includes-Halts open_file keys names closed fuel es []
              (omega (arith, unread-le-length names [])) m)
            (λ out _ _. tt)))

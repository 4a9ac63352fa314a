-- ===== src/Htfile/Paths/Cleaning.antt =====
-- What `path.Clean` gives for an absolute path, of htfile/htfile.go's paths.
use tasked.Base.{
  ◌==◌, if◌then◌else◌, Bool-cases, All, Runes, same_text, onto_first, split, is_empty, ℕ, ◌≡◌, refl,
  ap, ◌∙◌, inl, inr, true, false, List, [], ◌∷◌, ◌++◌, append-nil, arith,
}
use tasked.Htfile.Paths.{dot, dot_dot, pop, push, rev_onto, resolve, render, rooted_text, clean}

abbrev pub IsWord : Runes → Type 0
IsWord = All λ c. (c == b'/') ≡ false

-- A name that stands for itself: no step back, and nothing that is skipped.
pub record IsProper (w : Runes) : Type 0 where
  pub word : IsWord w
  pub filled : is_empty w ≡ false
  pub no_dot : same_text w dot ≡ false
  pub no_dot_dot : same_text w dot_dot ≡ false

split-cons :
    (c : ℕ) (cs : Runes)
    → split b'/' (c ∷ cs) ≡ (if c == b'/' then [] ∷ split b'/' cs else onto_first c (split b'/' cs))
unfolding split
split-cons c cs = refl

onto_first-IsWord :
    (c : ℕ) (ws : List Runes) → (c == b'/') ≡ false → All IsWord ws → All IsWord (onto_first c ws)
onto_first-IsWord c [] e h = ((e, tt), tt)
onto_first-IsWord c (w ∷ ws) e (h, hs) = ((e, h), hs)

pub split-IsWord : (s : Runes) → All IsWord (split b'/' s)
split-IsWord [] = unfold split in (tt, tt)
split-IsWord (c ∷ cs) = elim (Bool-cases (c == b'/')) [
  | inl e ↦ rw (split-cons c cs, e) (tt, split-IsWord cs)
  | inr e ↦ rw (split-cons c cs, e) (onto_first-IsWord c (split b'/' cs) e (split-IsWord cs))
]

pop-IsProper : (stack : List Runes) → All IsProper stack → All IsProper (pop true stack)
unfolding pop
pop-IsProper [] h = tt
pop-IsProper (w ∷ stack) (h, hs) = rw h.no_dot_dot hs

push-IsProper :
    (w : Runes) (stack : List Runes)
    → IsWord w
    → All IsProper stack
    → All IsProper (push true w stack)
unfolding push
push-IsProper w stack h hs = elim (Bool-cases (is_empty w)) [
  | inl e ↦ rw e hs
  | inr e ↦ elim (Bool-cases (same_text w dot)) [
    | inl f ↦ rw (e, f) hs
    | inr f ↦ elim (Bool-cases (same_text w dot_dot)) [
      | inl g ↦ rw (e, f, g) (pop-IsProper stack hs)
      | inr g ↦ rw (e, f, g) (record { word = h; filled = e; no_dot = f; no_dot_dot = g }, hs)
    ]
  ]
]

rev_onto-IsProper :
    (stack ws : List Runes)
    → All IsProper stack
    → All IsProper ws
    → All IsProper (rev_onto stack ws)
rev_onto-IsProper [] ws h k = k
rev_onto-IsProper (w ∷ stack) ws (h, hs) k = rev_onto-IsProper stack (w ∷ ws) hs (h, k)

resolve-IsProper :
    (stack ws : List Runes)
    → All IsProper stack
    → All IsWord ws
    → All IsProper (resolve true stack ws)
unfolding resolve
resolve-IsProper stack [] h k = rev_onto-IsProper stack [] h tt
resolve-IsProper stack (w ∷ ws) h (k, ks) =
    resolve-IsProper (push true w stack) ws (push-IsProper w stack k h) ks

-- The words of a clean absolute path.
abbrev pub words : Runes → List Runes
words d = resolve true [] (split b'/' d)

pub words-IsProper : (d : Runes) → All IsProper (words d)
words-IsProper d = resolve-IsProper [] (split b'/' d) tt (split-IsWord d)

pub clean-rooted : (d : Runes) → clean (b'/' ∷ d) ≡ rooted_text (words d)
unfolding clean
clean-rooted d = refl

pub push-proper : (w : Runes) (stack : List Runes) → IsProper w → push true w stack ≡ w ∷ stack
unfolding push
push-proper w stack h = rw (h.filled, h.no_dot, h.no_dot_dot) refl

pub resolve-proper :
    (stack ws : List Runes) → All IsProper ws → resolve true stack ws ≡ rev_onto stack ws
unfolding resolve
resolve-proper stack [] h = refl
resolve-proper stack (w ∷ ws) (h, hs) =
    ap (λ s. resolve true s ws) (push-proper w stack h) ∙ resolve-proper (w ∷ stack) ws hs

split_word : (w s : Runes) → IsWord w → split b'/' (w ++ b'/' ∷ s) ≡ w ∷ split b'/' s
unfolding split
split_word [] s h = refl
split_word (c ∷ w) s (h, hs) = ground (arith, split_word w s hs)

pub split_last : (w : Runes) → IsWord w → split b'/' w ≡ w ∷ []
unfolding split
split_last [] h = refl
split_last (c ∷ w) (h, hs) = ground (arith, split_last w hs)

pub split-render :
    (w : Runes) (ws : List Runes)
    → IsProper w
    → All IsProper ws
    → split b'/' (w ++ render ws) ≡ w ∷ ws
split-render w [] h hs = ap (split b'/') (append-nil w) ∙ split_last w h.word
split-render w (v ∷ ws) h (k, ks) =
    split_word w (v ++ render ws) h.word ∙ ap (◌∷◌ w) (split-render v ws k ks)

-- Clean paths stay as they are.
pub clean-rooted_text :
    (ws : List Runes) → All IsProper ws → clean (rooted_text ws) ≡ rooted_text ws
unfolding clean
clean-rooted_text [] h = unfold split resolve push in refl
clean-rooted_text (w ∷ ws) (h, hs) =
    ap rooted_text
      (ap (resolve true []) (split-render w ws h hs) ∙ resolve-proper [] (w ∷ ws) (h, hs))

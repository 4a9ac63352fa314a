-- ===== src/Htfile/Paths/Containment.antt =====
-- Which paths `getPath` of htfile/htfile.go gives.
use mathlib.Core.Path.{subst}
use tasked.Base.{
  ltb, ◌==◌, Bool-cases, length, All, Runes, same_text, same_text_iff, ℕ, ◌≡◌, refl, sym, ap, ◌∙◌,
  ◌≢◌, ◌⊎◌, inl, inr, true, some, List, [], ◌∷◌, ◌++◌, append-nil, append_assoc, arith,
}
use tasked.Htfile.Paths.{
  render, rooted_text, clean, is_abs, join_path, clean_dir_path, PathMatch, no_match,
  right_contains, left_contains, same_path, is_under, path_intersect, get_path,
}
use tasked.Htfile.Paths.Cleaning.{
  IsWord, IsProper, words, words-IsProper, clean-rooted, clean-rooted_text,
}

pub is_under_eq :
    (long short : Runes)
    → is_under long short ≡ true
    → (rest : Runes) × (long ≡ short ++ b'/' ∷ rest)
unfolding is_under
is_under_eq [] short h = absurd (cc)
is_under_eq (c ∷ long) [] h = (long, ground arith)
is_under_eq (c ∷ long) (d ∷ short) h =
    let (rest, e) = is_under_eq long short (ground arith) in (rest, ground arith)

-- A text that is empty or starts with a slash.
abbrev IsTail : Runes → Type 0
IsTail [] = Unit
IsTail (c ∷ cs) = c ≡ b'/'

word_inj :
    (v w r s : Runes)
    → IsWord v
    → IsWord w
    → IsTail r
    → IsTail s
    → v ++ r ≡ w ++ s
    → (v ≡ w) × (r ≡ s)
word_inj [] [] r s h k t u e = (refl, e)
word_inj [] (d ∷ w) [] s h k t u e = absurd (cc)
word_inj [] (d ∷ w) (c ∷ r) s h k t u e = absurd (ground (arith, k.0))
word_inj (c ∷ v) [] r [] h k t u e = absurd (cc)
word_inj (c ∷ v) [] r (d ∷ s) h k t u e = absurd (ground (arith, h.0))
word_inj (c ∷ v) (d ∷ w) r s h k t u e = ground (arith, word_inj v w r s h.1 k.1 t u)

render-IsTail : (ws : List Runes) → IsTail (render ws)
render-IsTail [] = tt
render-IsTail (w ∷ ws) = refl

append-IsTail : (ws : List Runes) (rest : Runes) → IsTail (render ws ++ b'/' ∷ rest)
append-IsTail [] rest = refl
append-IsTail (w ∷ ws) rest = refl

tail_eq : (a b : ℕ) (x y : Runes) → a ∷ x ≡ b ∷ y → x ≡ y
tail_eq a b x y e = cc

-- The words of a path go on from those of a path that it is under.
under_words :
    (ds qs : List Runes) (rest : Runes)
    → All IsProper ds
    → All IsProper qs
    → render qs ≡ render ds ++ b'/' ∷ rest
    → (ws : List Runes) × All IsProper ws × (render qs ≡ render ds ++ render ws)
under_words [] qs rest h k e = (qs, k, refl)
under_words (d ∷ ds) [] rest h k e = absurd (cc)
under_words (d ∷ ds) (q ∷ qs) rest (h, hs) (k, ks) e =
    let (f, g) =
      word_inj q d (render qs) (render ds ++ b'/' ∷ rest) k.word h.word (render-IsTail qs)
        (append-IsTail ds rest) (tail_eq _ _ _ _ e ∙ append_assoc d (render ds) (b'/' ∷ rest)) in
    let (ws, p, i) = under_words ds qs rest hs ks g in
    (
      ws,
      p,
      ap (◌∷◌ b'/') (
          ap (λ v. v ++ render qs) f
          ∙ ap (◌++◌ d) i
          ∙ sym (append_assoc d (render ds) (render ws))),
    )

-- `q` is the directory `a`, or it is below: proper names follow.
abbrev pub IsInside : Runes → Runes → Type 0
IsInside a q = (ws : List Runes) × All IsProper ws × (q ≡ a ++ render ws)

pub not_under_root :
    (qs : List Runes) (rest : Runes) → All IsProper qs → rooted_text qs ≢ b'/' ∷ b'/' ∷ rest
not_under_root [] rest h e = cc
not_under_root ([] ∷ qs) rest (h, hs) e = ground (arith, h.filled)
not_under_root ((c ∷ w) ∷ qs) rest (h, hs) e = ground (arith, h.word.0)

rooted-IsInside :
    (ds qs : List Runes) (rest : Runes)
    → All IsProper ds
    → All IsProper qs
    → rooted_text qs ≡ rooted_text ds ++ b'/' ∷ rest
    → IsInside (rooted_text ds) (rooted_text qs)
rooted-IsInside [] qs rest h k e = absurd (not_under_root qs rest k e)
rooted-IsInside (d ∷ ds) [] rest h k e =
    absurd (under_words_nil (d ++ render ds) rest (tail_eq _ _ _ _ e))
  where
    under_words_nil : (v rest : Runes) → [] ≢ v ++ b'/' ∷ rest
    under_words_nil [] rest e = cc
    under_words_nil (c ∷ v) rest e = cc
rooted-IsInside (d ∷ ds) (q ∷ qs) rest h k e = under_words (d ∷ ds) (q ∷ qs) rest h k e

rooted-is_abs : (ws : List Runes) → is_abs (rooted_text ws) ≡ true
rooted-is_abs [] = refl
rooted-is_abs (w ∷ ws) = refl

pub clean_dir_path-rooted :
    (ws : List Runes) → All IsProper ws → clean_dir_path (rooted_text ws) ≡ rooted_text ws
unfolding clean_dir_path
clean_dir_path-rooted ws h = rw (clean-rooted_text ws h, rooted-is_abs ws) refl

pub clean_dir_path-abs : (d : Runes) → clean_dir_path (b'/' ∷ d) ≡ rooted_text (words d)
unfolding clean_dir_path
clean_dir_path-abs d = rw (clean-rooted d, rooted-is_abs (words d)) refl

pub join_path-abs :
    (d p : Runes) → (qs : List Runes) × All IsProper qs × (join_path (b'/' ∷ d) p ≡ rooted_text qs)
unfolding join_path
join_path-abs d [] = (words d, words-IsProper d, clean-rooted d)
join_path-abs d (c ∷ p) = (
  words (d ++ b'/' ∷ c ∷ p),
  words-IsProper (d ++ b'/' ∷ c ∷ p),
  clean-rooted (d ++ b'/' ∷ c ∷ p),
)

-- What the two results of `pathIntersect` mean that `getPath` takes.
abbrev pub IsTaken : Runes → Runes → PathMatch → Type 0
IsTaken a q same_path = q ≡ a
IsTaken a q left_contains = is_under q a ≡ true
IsTaken a q _ = Unit {0}

pub path_intersect-IsTaken :
    (p0 p1 : Runes) → IsTaken (clean_dir_path p0) (clean_dir_path p1) (path_intersect p0 p1)
unfolding path_intersect
path_intersect-IsTaken p0 p1 =
    let a = clean_dir_path p0 in
    let b = clean_dir_path p1 in
    elim (Bool-cases (length a == length b)) [
      | inl e ↦ elim (Bool-cases (same_text a b)) [
        | inl f ↦ rw (e, f) (sym ((same_text_iff a b).0 f))
        | inr f ↦ rw (e, f) tt
      ]
      | inr e ↦ elim (Bool-cases (ltb (length a) (length b))) [
        | inl f ↦ elim (Bool-cases (is_under b a)) [
          | inl g ↦ rw (e, f, g) g
          | inr g ↦ rw (e, f, g) tt
        ]
        | inr f ↦ elim (Bool-cases (is_under a b)) [
          | inl g ↦ rw (e, f, g) tt
          | inr g ↦ rw (e, f, g) tt
        ]
      ]
    ]

pub get_path_by :
    (dn p q : Runes) (m : PathMatch)
    → path_intersect dn (join_path dn p) ≡ m
    → get_path dn p ≡ some q
    → (q ≡ join_path dn p) × ((m ≡ same_path) ⊎ (m ≡ left_contains))
unfolding get_path
get_path_by dn p q no_match e h = absurd (ground arith)
get_path_by dn p q right_contains e h = absurd (ground arith)
get_path_by dn p q left_contains e h = (ground arith, inr refl)
get_path_by dn p q same_path e h = (ground arith, inl refl)

taken-IsInside :
    (d : Runes) (qs : List Runes) (m : PathMatch)
    → All IsProper qs
    → (m ≡ same_path) ⊎ (m ≡ left_contains)
    → IsTaken (rooted_text (words d)) (rooted_text qs) m
    → IsInside (rooted_text (words d)) (rooted_text qs)
taken-IsInside d qs m k (inl e) t =
    ([], tt, subst (IsTaken (rooted_text (words d)) (rooted_text qs)) e t ∙ sym (append-nil _))
taken-IsInside d qs m k (inr e) t =
    let (rest, f) =
      is_under_eq _ _ (subst (IsTaken (rooted_text (words d)) (rooted_text qs)) e t) in
    rooted-IsInside (words d) qs rest (words-IsProper d) k f

-- Where the root is an absolute path, `getPath` gives only the root itself and paths below it: it is the
-- clean root, followed by names that are neither empty nor `.` or `..`, whatever the request asks for.
pub get_path-IsInside :
    (d p q : Runes) → get_path (b'/' ∷ d) p ≡ some q → IsInside (clean (b'/' ∷ d)) q
get_path-IsInside d p q h =
    let (e, taken) = get_path_by (b'/' ∷ d) p q _ refl h in
    let (qs, k, f) = join_path-abs d p in
    let t = path_intersect-IsTaken (b'/' ∷ d) (join_path (b'/' ∷ d) p) in
    let joined = ap clean_dir_path f ∙ clean_dir_path-rooted qs k in
    let t' = rw (clean_dir_path-abs d, joined) at t in
    subst (λ v. IsInside v q) (sym (clean-rooted d))
      (subst (IsInside (rooted_text (words d))) (sym (e ∙ f)) (taken-IsInside d qs _ k taken t'))

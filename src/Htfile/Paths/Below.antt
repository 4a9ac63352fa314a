-- ===== src/Htfile/Paths/Below.antt =====
-- The paths that the handlers of htfile/htfile.go make from those that `getPath` gives.
use mathlib.Core.Path.{subst}
use tasked.Base.{
  ◌==◌, Bool-cases, All, All-append, Runes, onto_first, split, is_empty, ℕ, ◌≡◌, refl, sym, ap, ◌∙◌,
  ◌≢◌, ◌⊎◌, inl, inr, true, false, some, List, [], ◌∷◌, ◌++◌, append-nil, append_assoc, arith,
}
use tasked.Htfile.Paths.{
  push, rev_onto, resolve, render, rooted_text, clean, up_to_slash, dir, join_path, get_path,
}
use tasked.Htfile.Paths.Cleaning.{
  IsWord, IsProper, words, clean-rooted, push-proper, resolve-proper, split_last, split-render,
  clean-rooted_text,
}
use tasked.Htfile.Paths.Containment.{
  IsInside, not_under_root, join_path-abs, get_path_by, get_path-IsInside,
}

-- `q` is the directory of the names `ds`, or proper names lead to it from there.
abbrev pub IsBelow : List Runes → Runes → Type 0
IsBelow ds q = (ws : List Runes) × All IsProper ws × (q ≡ rooted_text (ds ++ ws))

render-append : (ds ws : List Runes) → render ds ++ render ws ≡ render (ds ++ ws)
render-append [] ws = refl
render-append (d ∷ ds) ws =
    ap (◌∷◌ b'/') (append_assoc d (render ds) (render ws) ∙ ap (◌++◌ d) (render-append ds ws))

inside-IsBelow :
    (ds qs : List Runes) (q : Runes)
    → All IsProper qs
    → q ≡ rooted_text qs
    → IsInside (rooted_text ds) q
    → IsBelow ds q
inside-IsBelow [] qs q k f ([], t, e) = ([], tt, e)
inside-IsBelow [] qs q k f (w ∷ ws, t, e) =
    absurd (not_under_root qs (w ++ render ws) k (sym f ∙ e))
inside-IsBelow (d ∷ ds) qs q k f (ws, t, e) = (ws, t, e ∙ render-append (d ∷ ds) ws)

pub get_path-IsBelow : (d p q : Runes) → get_path (b'/' ∷ d) p ≡ some q → IsBelow (words d) q
get_path-IsBelow d p q h =
    let (e, taken) = get_path_by (b'/' ∷ d) p q _ refl h in
    let (qs, k, f) = join_path-abs d p in
    inside-IsBelow (words d) qs q k (e ∙ f)
      (subst (λ v. IsInside v q) (clean-rooted d) (get_path-IsInside d p q h))

split_ne_nil : (s : Runes) → split b'/' s ≢ []
unfolding split
split_ne_nil [] e = cc
split_ne_nil (c ∷ s) e = elim (Bool-cases (c == b'/')) [
  | inl h ↦ ground arith
  | inr h ↦ onto_ne_nil c (split b'/' s) (rw h at e)
]
  where
    onto_ne_nil : (c : ℕ) (ws : List Runes) → onto_first c ws ≢ []
    onto_ne_nil c [] e = cc
    onto_ne_nil c (w ∷ ws) e = cc

onto_first-append :
    (c : ℕ) (ws vs : List Runes) → ws ≢ [] → onto_first c (ws ++ vs) ≡ onto_first c ws ++ vs
onto_first-append c [] vs h = absurd (h refl)
onto_first-append c (w ∷ ws) vs h = refl

split-append : (s t : Runes) → split b'/' (s ++ b'/' ∷ t) ≡ split b'/' s ++ split b'/' t
unfolding split
split-append [] t = refl
split-append (c ∷ s) t = elim (Bool-cases (c == b'/')) [
  | inl h ↦ rw h (ap (◌∷◌ []) (split-append s t))
  | inr h ↦ rw h (
      ap (onto_first c) (split-append s t)
      ∙ onto_first-append c (split b'/' s) (split b'/' t) (split_ne_nil s))
]

resolve-trailing :
    (stack ws : List Runes)
    → All IsProper ws
    → resolve true stack (ws ++ [] ∷ []) ≡ rev_onto stack ws
unfolding resolve
resolve-trailing stack [] h = unfold push in refl
resolve-trailing stack (w ∷ ws) (h, hs) =
    ap (λ v. resolve true v (ws ++ [] ∷ [])) (push-proper w stack h)
    ∙ resolve-trailing (w ∷ stack) ws hs

render_snoc : (qs : List Runes) (w : Runes) → render (qs ++ w ∷ []) ≡ render qs ++ b'/' ∷ w
render_snoc qs w = sym (render-append qs (w ∷ [])) ∙ ap (λ v. render qs ++ b'/' ∷ v) (append-nil w)

words_slash : (s : Runes) → words (b'/' ∷ s) ≡ words s
unfolding split resolve push
words_slash s = refl

words-proper : (w : Runes) → IsProper w → words w ≡ w ∷ []
words-proper w h = ap (resolve true []) (split_last w h.word) ∙ resolve-proper [] (w ∷ []) (h, tt)

pub join_path-proper :
    (qs : List Runes) (w : Runes)
    → All IsProper qs
    → IsProper w
    → join_path (rooted_text qs) w ≡ rooted_text (qs ++ w ∷ [])
unfolding join_path
join_path-proper qs [] h k = absurd (ground (arith, k.filled))
join_path-proper [] (c ∷ w) h k =
    clean-rooted (b'/' ∷ c ∷ w) ∙ ap rooted_text (words_slash (c ∷ w) ∙ words-proper (c ∷ w) k)
join_path-proper (q ∷ qs) (c ∷ w) h k =
    ap clean (sym (render_snoc (q ∷ qs) (c ∷ w)))
    ∙ clean-rooted_text (q ∷ qs ++ (c ∷ w) ∷ [])
        (All-append IsProper (q ∷ qs) ((c ∷ w) ∷ []) h (k, tt))

up_to_slash_word : (w : Runes) → IsWord w → up_to_slash w ≡ []
unfolding up_to_slash
up_to_slash_word [] h = refl
up_to_slash_word (c ∷ w) (h, hs) = rw (up_to_slash_word w hs, h) refl

is_empty-snoc : (s : Runes) (c : ℕ) → is_empty (s ++ c ∷ []) ≡ false
is_empty-snoc [] c = refl
is_empty-snoc (d ∷ s) c = refl

up_to_slash-append : (s w : Runes) → IsWord w → up_to_slash (s ++ b'/' ∷ w) ≡ s ++ b'/' ∷ []
unfolding up_to_slash
up_to_slash-append [] w h = rw (up_to_slash_word w h) refl
up_to_slash-append (c ∷ s) w h = rw (up_to_slash-append s w h, is_empty-snoc s b'/') refl

rooted_text_snoc :
    (qs : List Runes) (w : Runes) → rooted_text (qs ++ w ∷ []) ≡ render qs ++ b'/' ∷ w
rooted_text_snoc [] w = ap (◌∷◌ b'/') (append-nil w)
rooted_text_snoc (q ∷ qs) w = render_snoc (q ∷ qs) w

words_trailing :
    (q : Runes) (qs : List Runes)
    → All IsProper (q ∷ qs)
    → words ((q ++ render qs) ++ b'/' ∷ []) ≡ q ∷ qs
words_trailing q qs (h, hs) =
    ap (resolve true []) (split-append (q ++ render qs) [] ∙ split_and_nil (split-render q qs h hs))
    ∙ resolve-trailing [] (q ∷ qs) (h, hs)
  where
    split_and_nil : {ws vs : List Runes} → ws ≡ vs → ws ++ split b'/' [] ≡ vs ++ [] ∷ []
    split_and_nil e = unfold split in ap (λ v. v ++ [] ∷ []) e

clean_trailing :
    (qs : List Runes) → All IsProper qs → clean (render qs ++ b'/' ∷ []) ≡ rooted_text qs
clean_trailing [] h = clean-rooted_text [] tt
clean_trailing (q ∷ qs) h =
    clean-rooted ((q ++ render qs) ++ b'/' ∷ []) ∙ ap rooted_text (words_trailing q qs h)

-- The directory of a path is the path without its last name.
pub dir-rooted_text :
    (qs : List Runes) (w : Runes)
    → All IsProper qs
    → IsProper w
    → dir (rooted_text (qs ++ w ∷ [])) ≡ rooted_text qs
unfolding dir
dir-rooted_text qs w h k =
    ap (λ v. clean (up_to_slash v)) (rooted_text_snoc qs w)
    ∙ ap clean (up_to_slash-append (render qs) w k.word)
    ∙ clean_trailing qs h

pub join_path-IsBelow :
    (ds : List Runes) (q w : Runes)
    → All IsProper ds
    → IsBelow ds q
    → IsProper w
    → IsBelow ds (join_path q w)
join_path-IsBelow ds q w h (ws, k, e) t = (
  ws ++ w ∷ [],
  All-append IsProper ws (w ∷ []) k (t, tt),
  ap (λ v. join_path v w) e
      ∙ join_path-proper (ds ++ ws) w (All-append IsProper ds ws h k) t
      ∙ ap rooted_text (append_assoc ds ws (w ∷ [])),
)

-- The list is empty, or it has a last element.
snoc_cases : (ws : List Runes) → (ws ≡ []) ⊎ ((vs : List Runes) × (w : Runes) × (ws ≡ vs ++ w ∷ []))
snoc_cases [] = inl refl
snoc_cases (w ∷ ws) = elim (snoc_cases ws) [
  | inl e ↦ inr ([], w, ap (◌∷◌ w) e)
  | inr (vs, v, e) ↦ inr (w ∷ vs, v, ap (◌∷◌ w) e)
]

All-front :
    (vs : List Runes) (w : Runes) → All IsProper (vs ++ w ∷ []) → All IsProper vs × IsProper w
All-front [] w (h, hs) = (tt, h)
All-front (v ∷ vs) w (h, hs) = let (k, ks) = All-front vs w hs in ((h, k), ks)

-- The directory of such a path is again one, but for that of the root.
pub dir-IsBelow :
    (ds : List Runes) (q : Runes)
    → All IsProper ds
    → IsBelow ds q
    → IsBelow ds (dir q) ⊎ (q ≡ rooted_text ds)
dir-IsBelow ds q h (ws, k, e) = elim (snoc_cases ws) [
  | inl f ↦ inr (e ∙ ap rooted_text (ap (◌++◌ ds) f ∙ append-nil ds))
  | inr (vs, w, f) ↦
      let (ks, t) = All-front vs w (subst (All IsProper) f k) in
      inl (
        vs,
        ks,
        ap dir (e ∙ ap rooted_text (ap (◌++◌ ds) f ∙ sym (append_assoc ds vs (w ∷ []))))
            ∙ dir-rooted_text (ds ++ vs) w (All-append IsProper ds vs h ks) t,
      )
]

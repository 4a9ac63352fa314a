-- ===== src/Htfile/Paths/Roots.antt =====
-- Roots for which `getPath` of htfile/htfile.go does not give just the paths below the root.
use mathlib.Core.Path.{subst}
use tasked.Base.{
  ltb, ◌==◌, Bool-cases, length, All, Runes, same_text, split, is_empty, ◌≡◌, refl, ap, ◌∙◌, ◌⊎◌,
  inl, inr, true, false, ◌||◌, some, List, [], ◌∷◌, ◌++◌, arith,
}
use tasked.Htfile.Paths.{
  dot, dot_dot, pop, push, rev_onto, resolve, rooted_text, relative_text, clean, is_abs, join_path,
  clean_dir_path, PathMatch, left_contains, same_path, is_under, path_intersect, get_path,
}
use tasked.Htfile.Paths.Cleaning.{IsWord, IsProper, split-IsWord}
use tasked.Htfile.Paths.Containment.{
  is_under_eq, not_under_root, clean_dir_path-rooted, join_path-abs, IsTaken,
  path_intersect-IsTaken, get_path_by,
}

slash-IsTaken :
    (qs : List Runes) (m : PathMatch)
    → All IsProper qs
    → (m ≡ same_path) ⊎ (m ≡ left_contains)
    → IsTaken (b'/' ∷ []) (rooted_text qs) m
    → rooted_text qs ≡ b'/' ∷ []
slash-IsTaken qs m k (inl e) t = subst (IsTaken (b'/' ∷ []) (rooted_text qs)) e t
slash-IsTaken qs m k (inr e) t =
    let (rest, f) = is_under_eq _ _ (subst (IsTaken (b'/' ∷ []) (rooted_text qs)) e t) in
    absurd (not_under_root qs rest k f)

clean_dir_path_slash : clean_dir_path (b'/' ∷ []) ≡ b'/' ∷ []
unfolding clean_dir_path clean resolve push split
clean_dir_path_slash = refl

-- Where the root is the root of the file system, `getPath` gives no path but the root itself.
pub get_path_slash : (p q : Runes) → get_path (b'/' ∷ []) p ≡ some q → q ≡ b'/' ∷ []
get_path_slash p q h =
    let (e, taken) = get_path_by (b'/' ∷ []) p q _ refl h in
    let (qs, k, f) = join_path-abs [] p in
    let t = path_intersect-IsTaken (b'/' ∷ []) (join_path (b'/' ∷ []) p) in
    let joined = ap clean_dir_path f ∙ clean_dir_path-rooted qs k in
    let t' = rw (clean_dir_path_slash, joined) at t in e ∙ f ∙ slash-IsTaken qs _ k taken t'

-- A word of a relative path.
abbrev IsFilled : Runes → Type 0
IsFilled w = IsWord w × (is_empty w ≡ false)

dot_dot-IsFilled : IsFilled dot_dot
dot_dot-IsFilled = ((refl, (refl, tt)), refl)

pop-IsFilled : (stack : List Runes) → All IsFilled stack → All IsFilled (pop false stack)
unfolding pop
pop-IsFilled [] h = (dot_dot-IsFilled, tt)
pop-IsFilled (w ∷ stack) h = elim (Bool-cases (same_text w dot_dot)) [
  | inl e ↦ rw e (dot_dot-IsFilled, h)
  | inr e ↦ rw e h.1
]

push-IsFilled :
    (w : Runes) (stack : List Runes)
    → IsWord w
    → All IsFilled stack
    → All IsFilled (push false w stack)
unfolding push
push-IsFilled w stack h hs = elim (Bool-cases (is_empty w)) [
  | inl e ↦ rw e hs
  | inr e ↦ elim (Bool-cases (same_text w dot)) [
    | inl f ↦ rw (e, f) hs
    | inr f ↦ elim (Bool-cases (same_text w dot_dot)) [
      | inl g ↦ rw (e, f, g) (pop-IsFilled stack hs)
      | inr g ↦ rw (e, f, g) ((h, e), hs)
    ]
  ]
]

rev_onto-IsFilled :
    (stack ws : List Runes)
    → All IsFilled stack
    → All IsFilled ws
    → All IsFilled (rev_onto stack ws)
rev_onto-IsFilled [] ws h k = k
rev_onto-IsFilled (w ∷ stack) ws (h, hs) k = rev_onto-IsFilled stack (w ∷ ws) hs (h, k)

resolve-IsFilled :
    (stack ws : List Runes)
    → All IsFilled stack
    → All IsWord ws
    → All IsFilled (resolve false stack ws)
unfolding resolve
resolve-IsFilled stack [] h k = rev_onto-IsFilled stack [] h tt
resolve-IsFilled stack (w ∷ ws) h (k, ks) =
    resolve-IsFilled (push false w stack) ws (push-IsFilled w stack k h) ks

relative-is_abs : (ws : List Runes) → All IsFilled ws → is_abs (relative_text ws) ≡ false
relative-is_abs [] h = refl
relative-is_abs ([] ∷ ws) (h, hs) = absurd (ground (arith, h.1))
relative-is_abs ((c ∷ w) ∷ ws) (h, hs) = h.0.0

is_abs-clean : (s : Runes) → is_abs s ≡ false → is_abs (clean s) ≡ false
unfolding clean
is_abs-clean [] h = refl
is_abs-clean (c ∷ cs) h = rw h (
    relative-is_abs (resolve false [] (split b'/' (c ∷ cs)))
      (resolve-IsFilled [] (split b'/' (c ∷ cs)) tt (split-IsWord (c ∷ cs))))

join_path-dot : (p : Runes) → is_abs (join_path dot p) ≡ false
unfolding join_path
join_path-dot [] = is_abs-clean dot refl
join_path-dot (c ∷ p) = is_abs-clean (dot ++ b'/' ∷ c ∷ p) refl

clean_dir_path-dot : clean_dir_path dot ≡ dot
unfolding clean_dir_path clean resolve push split same_text
clean_dir_path-dot = refl

longer_dot :
    (r b : Runes)
    → b ≡ b'.' ∷ b'/' ∷ r
    → ((length dot == length b) ≡ false) × (ltb (length dot) (length b) ≡ true)
longer_dot r b e = ground arith

under_dot : (r b : Runes) → b ≡ b'.' ∷ b'/' ∷ r → is_under b dot ≡ true
unfolding is_under
under_dot r b e = rw e refl

intersect_longer :
    (q r : Runes) → clean_dir_path q ≡ b'.' ∷ b'/' ∷ r → path_intersect dot q ≡ left_contains
unfolding path_intersect
intersect_longer q r e =
    let l = longer_dot r (clean_dir_path q) e in
    let u = under_dot r (clean_dir_path q) e in rw (clean_dir_path-dot, l.0, l.1, u) refl

intersect_same : (q : Runes) → clean_dir_path q ≡ dot → path_intersect dot q ≡ same_path
unfolding path_intersect
intersect_same q e = rw (clean_dir_path-dot, e) (unfold same_text in refl)

path_intersect-dot :
    (q : Runes)
    → is_abs (clean q) ≡ false
    → (path_intersect dot q ≡ same_path) ⊎ (path_intersect dot q ≡ left_contains)
path_intersect-dot q h = elim (Bool-cases (is_empty (clean q) || same_text (clean q) dot)) [
  | inl e ↦ inl (intersect_same q (unfold clean_dir_path in rw (h, e) refl))
  | inr e ↦ inr (intersect_longer q (clean q) (unfold clean_dir_path in rw (h, e) refl))
]

get_path_taken :
    (dn p : Runes)
    → (path_intersect dn (join_path dn p) ≡ same_path)
      ⊎ (path_intersect dn (join_path dn p) ≡ left_contains)
    → get_path dn p ≡ some (join_path dn p)
unfolding get_path
get_path_taken dn p h = ground arith

-- Where the root is the working directory, written as a dot, `getPath` refuses no path: it gives whatever
-- the root and the path join to.
pub get_path-dot : (p : Runes) → get_path dot p ≡ some (join_path dot p)
get_path-dot p =
    get_path_taken dot p (path_intersect-dot (join_path dot p) (is_abs-clean _ (join_path-dot p)))

-- ===== src/Htfile/Copying/Places.antt =====
-- Where a copy of a tree is, for `copyTree` of htfile/htfile.go.
use mathlib.Core.Path.{subst}
use tasked.Base.{
  Bool-cases, Runes, same_text, same_text_iff, contains, contains-append, ℕ, ◌≡◌, refl, sym, ap,
  ◌∙◌, inl, inr, true, false, Option, none, some, [], ◌∷◌, arith,
}
use tasked.Htfile.Paths.{join_path}
use tasked.Htfile.Copying.{
  Tree, file, folder, Forest, nil, grow, info, Node, dir_node, IsDirAt, IsNoDir, copied, copied_all,
  paths, paths_all, IsFree, AreFree,
}

same_text_sym : (s t : Runes) → same_text s t ≡ same_text t s
unfolding same_text
same_text_sym [] [] = refl
same_text_sym [] (y ∷ t) = refl
same_text_sym (x ∷ s) [] = refl
same_text_sym (x ∷ s) (y ∷ t) = ground (arith, same_text_sym s t)

-- A copy changes nothing but what is at its paths.
mutual
  unfolding copied paths contains

  pub copied-outside :
      (to p : Runes) (t : Tree) → contains p (paths to t) ≡ false → copied to t p ≡ none
  copied-outside to p (file fi text) h = ground (arith, h, same_text_sym to p)
  copied-outside to p (folder fi kids) h = elim (Bool-cases (same_text p to)) [
    | inl e ↦ absurd (ground (arith, e, h))
    | inr e ↦ rw (same_text_sym to p, e) (copied_all-outside to p kids (ground (arith, e, h)))
  ]

  pub copied_all-outside :
      (to p : Runes) (ts : Forest)
      → contains p (paths_all to ts) ≡ false
      → copied_all to ts p ≡ none
  copied_all-outside to p nil h = refl
  copied_all-outside to p (grow t ts) h =
      let q = join_path to (info t).name in
      let e = contains-append p (paths q t) (paths_all to ts) in
      rw (copied_all-outside to p ts (ground (arith, e, h)))
        (copied-outside q p t (ground (arith, e, h)))

-- What is free for a copy depends on the paths of the copy only.
mutual
  unfolding IsFree paths contains

  pub IsFree-agree :
      (n m : Runes → Option Node) (to : Runes) (t : Tree)
      → ((p : Runes) → contains p (paths to t) ≡ true → n p ≡ m p)
      → IsFree n to t
      → IsFree m to t
  IsFree-agree n m to (file fi text) e h =
      subst IsNoDir (e to (ground (arith, (same_text_iff to to).1 refl))) h
  IsFree-agree n m to (folder fi kids) e (h, hs) = (
    sym (e to (ground (arith, (same_text_iff to to).1 refl))) ∙ h,
    AreFree-agree n m to kids (λ p k. e p (ground (arith, k))) hs,
  )

  pub AreFree-agree :
      (n m : Runes → Option Node) (to : Runes) (ts : Forest)
      → ((p : Runes) → contains p (paths_all to ts) ≡ true → n p ≡ m p)
      → AreFree n to ts
      → AreFree m to ts
  AreFree-agree n m to nil e h = tt
  AreFree-agree n m to (grow t ts) e (h, hs) =
      let q = join_path to (info t).name in
      (
        IsFree-agree n m q t
            (λ p k. e p (ground (arith, k, contains-append p (paths q t) (paths_all to ts)))) h,
        AreFree-agree n m to ts
            (λ p k. e p (ground (arith, k, contains-append p (paths q t) (paths_all to ts)))) hs,
      )

none-ne-dir : {m : ℕ} → ◌≡◌ {A = Option Node} none (some (dir_node m)) → ⊥
none-ne-dir h = absurd (cc)

-- A copy to where it is free leaves the directories that are there.
mutual
  unfolding copied IsFree

  pub copied-IsDirAt :
      (n : Runes → Option Node) (to p : Runes) (t : Tree)
      → IsFree n to t
      → IsDirAt n p
      → copied to t p ≡ none
  copied-IsDirAt n to p (file fi text) h (m, d) = elim (Bool-cases (same_text to p)) [
    | inl e ↦ absurd (subst IsNoDir (ap n ((same_text_iff to p).0 e) ∙ d) h)
    | inr e ↦ rw e refl
  ]
  copied-IsDirAt n to p (folder fi kids) (h, hs) (m, d) = elim (Bool-cases (same_text to p)) [
    | inl e ↦ absurd (none-ne-dir (sym h ∙ ap n ((same_text_iff to p).0 e) ∙ d))
    | inr e ↦ rw e (copied_all-IsDirAt n to p kids hs (m, d))
  ]

  pub copied_all-IsDirAt :
      (n : Runes → Option Node) (to p : Runes) (ts : Forest)
      → AreFree n to ts
      → IsDirAt n p
      → copied_all to ts p ≡ none
  copied_all-IsDirAt n to p nil h d = refl
  copied_all-IsDirAt n to p (grow t ts) (h, hs) d =
      rw (copied_all-IsDirAt n to p ts hs d) (copied-IsDirAt n (join_path to (info t).name) p t h d)

-- ===== src/Htfile/Copying/Exact.antt =====
-- That `copyTree` of htfile/htfile.go copies.
use mathlib.Core.Path.{subst, fun_ext}
use tasked.Base.{
  Bool-cases, Runes, same_text, same_text_iff, contains, IsDistinct, contains-append,
  IsDistinct-append, ℕ, zero, suc, ◌≤◌, ◌≡◌, refl, sym, ap, ◌∙◌, inl, inr, true, false, Option,
  none, some, [], arith,
}
use tasked.Share.Errors.{OsError}
use tasked.Htfile.Paths.{dir, join_path}
use tasked.Htfile.Io.{FileInfo, ok, lstat, open_file, readdir, read, Io}
use tasked.Htfile.Io.Run.{System, run}
use tasked.Htfile.Files.{copy_entries, copy_dir, copy_file, copy_tree}
use tasked.Htfile.Copying.{
  Tree, file, folder, Forest, nil, grow, info, infos, Node, file_node, dir_node, with_mode,
  with_text, at, on_node, first, IsDirAt, IsNoDir, emptied, Disk, IsHeld, AreHeld, copied,
  copied_all, paths, paths_all, IsFree, AreFree, IsApart, AreApart, depth, depth_all,
}
use tasked.Htfile.Copying.Places.{copied-outside, copied_all-outside, AreFree-agree}
use tasked.Htfile.Copying.Runs.{
  overlay, first_assoc, Does, Does-seq, Does-read, Does-mkdir, Does-create, Does-chmod, Does-write,
  Does-else, Does-then,
}

at_self :
    (p : Runes) (f : Option Node → Option Node) (n : Runes → Option Node) → at p f n p ≡ f (n p)
at_self p f n = rw ((same_text_iff p p).1 refl) refl

-- What is at a path where a file was created, written, and given its mode.
emptied-IsNoDir :
    (mode : ℕ) (n : Option Node) → IsNoDir n → (m : ℕ) × (emptied mode n ≡ some (file_node m []))
emptied-IsNoDir mode none h = (mode, refl)
emptied-IsNoDir mode (some (file_node m text)) h = (m, refl)
emptied-IsNoDir mode (some (dir_node m)) h = absurd h

module _ (S : System) (D : Disk S) where
  abbrev file_made : Runes → (Runes → Option Node) → Runes → Option Node
  file_made to = at to (emptied D.file_mode)

  abbrev dir_made : Runes → (Runes → Option Node) → Runes → Option Node
  dir_made to = at to λ n. some (dir_node D.dir_mode)

  -- What the calls for a file leave.
  file_lem :
      (to : Runes) (fi : FileInfo) (text : Runes) (nodes : Runes → Option Node)
      → IsNoDir (nodes to)
      → at to (on_node (with_mode fi.mode)) (at to (on_node (with_text text)) (file_made to nodes))
        ≡ overlay (copied to (file fi text)) nodes
  unfolding copied
  file_lem to fi text nodes h = fun_ext λ p. elim (Bool-cases (same_text to p)) [
    | inl e ↦
        let (m, k) =
          emptied-IsNoDir D.file_mode (nodes p)
            (subst (λ q. IsNoDir (nodes q)) ((same_text_iff to p).0 e) h) in
        rw (e, k) refl
    | inr e ↦ rw e refl
  ]

  dir_lem :
      (to : Runes) (fi : FileInfo) (kids : Forest) (nodes : Runes → Option Node)
      → copied_all to kids to ≡ none
      → at to (on_node (with_mode fi.mode)) (overlay (copied_all to kids) (dir_made to nodes))
        ≡ overlay (copied to (folder fi kids)) nodes
  unfolding copied
  dir_lem to fi kids nodes h = fun_ext λ p. elim (Bool-cases (same_text to p)) [
    | inl e ↦ rw (e, subst (λ q. copied_all to kids q ≡ none) ((same_text_iff to p).0 e) h) refl
    | inr e ↦ rw e refl
  ]

  grow_lem :
      (to : Runes) (t : Tree) (ts : Forest) (nodes : Runes → Option Node)
      → overlay (copied_all to ts) (overlay (copied (join_path to (info t).name) t) nodes)
        ≡ overlay (copied_all to (grow t ts)) nodes
  unfolding copied
  grow_lem to t ts nodes = fun_ext λ p. first_assoc _ _ (nodes p)

  copy_file-Does :
      (s : S.State) (from to text : Runes)
      → ((s : S.State) → (S.answer (read from) s).0 ≡ ok text)
      → IsDirAt (D.nodes s) (dir to)
      → IsNoDir (D.nodes s to)
      → Does S D s (λ n. at to (on_node (with_text text)) (file_made to n)) (copy_file from to)
  unfolding copy_file
  copy_file-Does s from to text h d n =
      let T = at to (on_node (with_text text)) in
      let (m, k) = emptied-IsNoDir D.file_mode (D.nodes s to) n in
      Does-seq S D s (file_made to) T _ _ (Does-create S D s to d n) λ t e.
        Does-read S D t T (read from) (ok text) _ h (D.reads t from).3 λ u f.
          Does-write S D u to text m []
            (ap (λ v. v to) (f ∙ e) ∙ at_self to (emptied D.file_mode) (D.nodes s) ∙ k)

  -- The tree can be copied to this path.
  abbrev pub IsReady : S.State → (from to : Runes) → Tree → Type 0
  IsReady s from to t =
      IsHeld S from t
      × IsApart from to t
      × IsDistinct (paths to t)
      × IsDirAt (D.nodes s) (dir to)
      × IsFree (D.nodes s) to t

  module _ (fuel : ℕ) (recur : Runes → Runes → Io (Option OsError))
      (copies : (s : S.State) (from to : Runes) (t : Tree)
        → depth t ≤ fuel
        → IsReady s from to t
        → Does S D s (overlay (copied to t)) (recur from to)) where
    copy_entries-Does :
        (s : S.State) (from to : Runes) (ts : Forest)
        → depth_all ts ≤ fuel
        → AreHeld S from ts
        → AreApart from to ts
        → contains to (paths_all to ts) ≡ false
        → IsDistinct (paths_all to ts)
        → IsDirAt (D.nodes s) to
        → AreFree (D.nodes s) to ts
        → Does S D s (overlay (copied_all to ts)) (copy_entries recur from to (infos ts))
    unfolding copy_entries infos copied depth IsHeld IsApart IsFree paths
    copy_entries-Does s from to nil d h a c i p f = (s, (unfold run in refl), refl)
    copy_entries-Does s from to (grow t ts) d (h, hs) (e, a, b) c i p (f, g) =
        let q = join_path to (info t).name in
        let (j, k, l) = IsDistinct-append (paths q t) (paths_all to ts) i in
        let c' = contains-append to (paths q t) (paths_all to ts) in
        subst (λ T. Does S D s T (copy_entries recur from to (infos (grow t ts))))
          (fun_ext (grow_lem to t ts))
          (Does-seq S D s (overlay (copied q t)) (overlay (copied_all to ts)) _ _
            (copies s (join_path from (info t).name) q t (omega (arith, d))
              (h, a, j, subst (IsDirAt (D.nodes s)) (sym e) p, f))
            λ u v.
              copy_entries-Does u from to ts (omega (arith, d)) hs b (ground (arith, c, c')) k
                (
                  p.0,
                  ap (λ n. n to) v
                      ∙ ap (λ m. first m (D.nodes s to))
                          (copied-outside q to t (ground (arith, c, c')))
                      ∙ p.1,
                )
                (AreFree-agree (D.nodes s) (D.nodes u) to ts
                  (λ r w. sym (
                    ap (λ n. n r) v
                    ∙ ap (λ m. first m (D.nodes s r)) (copied-outside q r t (l r w))))
                  g))

    made_other :
        (to p : Runes) (ts : Forest) (n : Runes → Option Node)
        → contains to (paths_all to ts) ≡ false
        → contains p (paths_all to ts) ≡ true
        → n p ≡ dir_made to n p
    made_other to p ts n h k = elim (Bool-cases (same_text to p)) [
      | inl e ↦ absurd (
          ground (
            arith,
            h,
            subst (λ q. contains q (paths_all to ts) ≡ true) (sym ((same_text_iff to p).0 e)) k,
          ))
      | inr e ↦ rw e refl
    ]

    copy_dir-Does :
        (s : S.State) (from to : Runes) (ts : Forest)
        → depth_all ts ≤ fuel
        → ((s : S.State) → (S.answer (readdir from) s).0 ≡ ok (infos ts))
        → AreHeld S from ts
        → AreApart from to ts
        → contains to (paths_all to ts) ≡ false
        → IsDistinct (paths_all to ts)
        → IsDirAt (D.nodes s) (dir to)
        → D.nodes s to ≡ none
        → AreFree (D.nodes s) to ts
        → Does S D s (λ n. overlay (copied_all to ts) (dir_made to n)) (copy_dir recur from to)
    unfolding copy_dir
    copy_dir-Does s from to ts d r h a c i p n f =
        let T = overlay (copied_all to ts) in
        Does-seq S D s (dir_made to) T _ _ (Does-mkdir S D s to p n) λ t e.
          Does-read S D t T (readdir from) (ok (infos ts)) _ r (D.reads t from).2 λ u g.
            copy_entries-Does u from to ts d h a c i
              (
                D.dir_mode,
                ap (λ v. v to) (g ∙ e) ∙ at_self to (λ m. some (dir_node D.dir_mode)) (D.nodes s),
              )
              (AreFree-agree (D.nodes s) (D.nodes u) to ts
                (λ q k. made_other to q ts (D.nodes s) c k ∙ sym (ap (λ v. v q) (g ∙ e))) f)

  written_at :
      (to text : Runes) (n : Runes → Option Node)
      → IsNoDir (n to)
      → (m : ℕ) × (at to (on_node (with_text text)) (file_made to n) to ≡ some (file_node m text))
  written_at to text n h =
      let (m, k) = emptied-IsNoDir D.file_mode (n to) h in
      (
        m,
        at_self to (on_node (with_text text)) (file_made to n)
            ∙ ap (on_node (with_text text)) (at_self to (emptied D.file_mode) n ∙ k),
      )

  made_at :
      (to : Runes) (ts : Forest) (n : Runes → Option Node)
      → contains to (paths_all to ts) ≡ false
      → overlay (copied_all to ts) (dir_made to n) to ≡ some (dir_node D.dir_mode)
  made_at to ts n h =
      ap (λ m. first m (dir_made to n to)) (copied_all-outside to to ts h)
      ∙ at_self to (λ m. some (dir_node D.dir_mode)) n

  -- `copyTree` of trees that are not as deep as the fuel.
  pub copy_tree-Does :
      (fuel : ℕ) (s : S.State) (from to : Runes) (t : Tree)
      → depth t ≤ fuel
      → IsReady s from to t
      → Does S D s (overlay (copied to t)) (copy_tree fuel from to)
  unfolding copy_tree depth IsHeld IsApart IsFree paths
  copy_tree-Does zero s from to (file fi text) d r = absurd (omega (arith, d))
  copy_tree-Does zero s from to (folder fi kids) d r = absurd (omega (arith, d))
  copy_tree-Does (suc fuel) s from to (file fi text) d ((b, l, o, r), a, i, p, f) =
      let T : (Runes → Option Node) → Runes → Option Node =
        λ n. at to (on_node (with_text text)) (file_made to n) in
      let U = at to (on_node (with_mode fi.mode)) in
      let (t, e, k) =
        Does-else S D s (λ n. U (T n)) (same_text from to) _ _ a
          (Does-read S D s (λ n. U (T n)) (lstat from) (ok fi) _ l (D.reads s from).0
            λ u g.
              Does-read S D u (λ n. U (T n)) (open_file from) none _ o (D.reads u from).1
                λ v h.
                  Does-seq S D v T U _ _
                    (Does-else S D v T fi.is_dir _ _ b (
                      copy_file-Does v from to text r
                        (subst (λ n. IsDirAt n (dir to)) (sym (h ∙ g)) p)
                        (subst (λ n. IsNoDir (n to)) (sym (h ∙ g)) f)))
                    λ w x.
                      let (m, y) =
                        written_at to text (D.nodes v)
                          (subst (λ n. IsNoDir (n to)) (sym (h ∙ g)) f) in
                      Does-chmod S D w to fi.mode (file_node m text) (ap (λ n. n to) x ∙ y)) in
      (t, e, k ∙ file_lem to fi text (D.nodes s) f)
  copy_tree-Does (suc fuel) s from to (folder fi kids) d
        ((b, l, o, r, hs), (a, a2), (c, i), p, (n, f)) =
      let T : (Runes → Option Node) → Runes → Option Node =
        λ m. overlay (copied_all to kids) (dir_made to m) in
      let U = at to (on_node (with_mode fi.mode)) in
      let (t, e, k) =
        Does-else S D s (λ m. U (T m)) (same_text from to) _ _ a
          (Does-read S D s (λ m. U (T m)) (lstat from) (ok fi) _ l (D.reads s from).0
            λ u g.
              Does-read S D u (λ m. U (T m)) (open_file from) none _ o (D.reads u from).1
                λ v h.
                  Does-seq S D v T U _ _
                    (Does-then S D v T fi.is_dir _ _ b (
                      copy_dir-Does fuel (copy_tree fuel) (copy_tree-Does fuel) v from to kids
                        (omega (arith, d)) r hs a2 c i
                        (subst (λ m. IsDirAt m (dir to)) (sym (h ∙ g)) p)
                        (ap (λ m. m to) (h ∙ g) ∙ n)
                        (subst (λ m. AreFree m to kids) (sym (h ∙ g)) f)))
                    λ w x.
                      Does-chmod S D w to fi.mode (dir_node D.dir_mode)
                        (ap (λ m. m to) x ∙ made_at to kids (D.nodes v) c)) in
      (t, e, k ∙ dir_lem to fi kids (D.nodes s) (copied_all-outside to to kids c))

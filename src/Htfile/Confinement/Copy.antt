-- ===== src/Htfile/Confinement/Copy.antt =====
-- The calls of `copyTree`, of htfile/htfile.go.
use mathlib.Core.Path.{subst}
use tasked.Base.{All, Runes, same_text, ℕ, zero, suc, Option, List, [], ◌∷◌}
use tasked.Share.Errors.{OsError}
use tasked.Htfile.Paths.{join_path}
use tasked.Htfile.Paths.Cleaning.{IsProper}
use tasked.Htfile.Paths.Below.{IsBelow, join_path-IsBelow}
use tasked.Htfile.Io.{FileInfo, lstat, open_file, readdir, read, mkdir, create, write, Io, ask}
use tasked.Htfile.Io.Confined.{
  Confined, Confined-ask, Confined-on_error, Confined-on_result, Confined-if,
}
use tasked.Htfile.Files.{copy_entries, copy_dir, copy_file, copy_tree}
use tasked.Htfile.Confinement.{AreProper, below, Anything, Confined-bind-any}

module _ (ds : List Runes) (proper : All IsProper ds) where
  copy_file-Confined :
      (from to : Runes)
      → IsBelow ds from
      → IsBelow ds to
      → Confined (below ds) Anything (copy_file from to)
  unfolding copy_file
  copy_file-Confined from to h k = Confined-ask (below ds) Anything (create to) _ k λ e q.
      Confined-on_error (below ds) Anything e _ _ (λ err. tt)
        (Confined-ask (below ds) Anything (read from) _ h λ r s.
          Confined-on_result (below ds) Anything r _ _ (λ err. tt)
            λ t e'. Confined-ask (below ds) Anything (write to t) _ k λ w s'. tt)

  module _ (recur : Runes → Runes → Io (Option OsError))
      (asks : (from to : Runes)
        → IsBelow ds from
        → IsBelow ds to
        → Confined (below ds) Anything (recur from to)) where
    copy_entries-Confined :
        (from to : Runes) (fis : List FileInfo)
        → IsBelow ds from
        → IsBelow ds to
        → All (λ fi. IsProper fi.name) fis
        → Confined (below ds) Anything (copy_entries recur from to fis)
    unfolding copy_entries
    copy_entries-Confined from to [] h k t = tt
    copy_entries-Confined from to (fi ∷ fis) h k (t, ts) =
        Confined-bind-any (below ds) _ _
          (asks (join_path from fi.name) (join_path to fi.name)
            (join_path-IsBelow ds from fi.name proper h t)
            (join_path-IsBelow ds to fi.name proper k t))
          λ e.
            Confined-on_error (below ds) Anything e _ _ (λ err. tt)
              (copy_entries-Confined from to fis h k ts)

    copy_dir-Confined :
        (from to : Runes)
        → IsBelow ds from
        → IsBelow ds to
        → Confined (below ds) Anything (copy_dir recur from to)
    unfolding copy_dir
    copy_dir-Confined from to h k = Confined-ask (below ds) Anything (mkdir to) _ k λ e q.
        Confined-on_error (below ds) Anything e _ _ (λ err. tt)
          (Confined-ask (below ds) Anything (readdir from) _ h λ r s.
            Confined-on_result (below ds) Anything r _ _ (λ err. tt)
              λ fis e'. copy_entries-Confined from to fis h k (subst AreProper e' s))

  pub copy_tree-Confined :
      (fuel : ℕ) (from to : Runes)
      → IsBelow ds from
      → IsBelow ds to
      → Confined (below ds) Anything (copy_tree fuel from to)
  unfolding copy_tree ask
  copy_tree-Confined zero from to h k = tt
  copy_tree-Confined (suc fuel) from to h k =
      Confined-if (below ds) Anything (same_text from to) _ _ tt (
        Confined-ask (below ds) Anything (lstat from) _ h λ r q.
          Confined-on_result (below ds) Anything r _ _ (λ err. tt)
            λ fi e. Confined-ask (below ds) Anything (open_file from) _ h λ e' q'.
              Confined-on_error (below ds) Anything e' _ _ (λ err. tt)
                (Confined-bind-any (below ds) _ _
                  (Confined-if (below ds) Anything fi.is_dir _ _
                    (copy_dir-Confined (copy_tree fuel) (copy_tree-Confined fuel) from to h k)
                    (copy_file-Confined from to h k))
                  λ e''. Confined-on_error (below ds) Anything e'' _ _ (λ err. tt) (k, λ a s. tt)))

-- ===== src/Htfile/Termination/Copy.antt =====
-- How `copyTree` of htfile/htfile.go ends.
use mathlib.Core.Path.{subst}
use tasked.Base.{Runes, same_text, ℕ, zero, suc, ◌≤◌, ◌<◌, Option, List, [], ◌∷◌, arith}
use tasked.Share.Errors.{OsError}
use tasked.Htfile.Paths.{join_path}
use tasked.Htfile.Io.{FileInfo, lstat, open_file, readdir, read, mkdir, create, write, Io, ask}
use tasked.Htfile.Io.Confined.{
  Confined, Confined-ask, Confined-on_error, Confined-on_result, Confined-if,
}
use tasked.Htfile.Files.{copy_entries, copy_dir, copy_file, copy_tree}
use tasked.Htfile.Confinement.{Anything, Confined-bind-any}
use tasked.Htfile.Termination.{total, AreCounted, finite}

module _ (size : Runes → ℕ) where
  copy_file-Ends : (from to : Runes) → Confined (finite size) Anything (copy_file from to)
  unfolding copy_file
  copy_file-Ends from to = Confined-ask (finite size) Anything (create to) _ tt λ e q.
      Confined-on_error (finite size) Anything e _ _ (λ err. tt)
        (Confined-ask (finite size) Anything (read from) _ tt λ r s.
          Confined-on_result (finite size) Anything r _ _ (λ err. tt)
            λ t e'. Confined-ask (finite size) Anything (write to t) _ tt λ w s'. tt)

  module _ (fuel : ℕ) (recur : Runes → Runes → Io (Option OsError))
      (ends : (from to : Runes)
        → size from < fuel
        → Confined (finite size) Anything (recur from to)) where
    copy_entries-Ends :
        (from to : Runes) (fis : List FileInfo)
        → total size from fis ≤ fuel
        → Confined (finite size) Anything (copy_entries recur from to fis)
    unfolding copy_entries
    copy_entries-Ends from to [] h = tt
    copy_entries-Ends from to (fi ∷ fis) h =
        Confined-bind-any (finite size) _ _
          (ends (join_path from fi.name) (join_path to fi.name) (omega (arith, h)))
          λ e.
            Confined-on_error (finite size) Anything e _ _ (λ err. tt)
              (copy_entries-Ends from to fis (omega (arith, h)))

    copy_dir-Ends :
        (from to : Runes)
        → size from ≤ fuel
        → Confined (finite size) Anything (copy_dir recur from to)
    unfolding copy_dir
    copy_dir-Ends from to h = Confined-ask (finite size) Anything (mkdir to) _ tt λ e q.
        Confined-on_error (finite size) Anything e _ _ (λ err. tt)
          (Confined-ask (finite size) Anything (readdir from) _ tt λ r s.
            Confined-on_result (finite size) Anything r _ _ (λ err. tt)
              λ fis e'.
                copy_entries-Ends from to fis (omega (arith, h, subst (AreCounted size from) e' s)))

  pub copy_tree-Ends :
      (fuel : ℕ) (from to : Runes)
      → size from < fuel
      → Confined (finite size) Anything (copy_tree fuel from to)
  unfolding copy_tree ask
  copy_tree-Ends zero from to h = absurd (omega (arith, h))
  copy_tree-Ends (suc fuel) from to h =
      Confined-if (finite size) Anything (same_text from to) _ _ tt (
        Confined-ask (finite size) Anything (lstat from) _ tt λ r q.
          Confined-on_result (finite size) Anything r _ _ (λ err. tt)
            λ fi e. Confined-ask (finite size) Anything (open_file from) _ tt λ e' q'.
              Confined-on_error (finite size) Anything e' _ _ (λ err. tt)
                (Confined-bind-any (finite size) _ _
                  (Confined-if (finite size) Anything fi.is_dir _ _
                    (copy_dir-Ends fuel (copy_tree fuel) (copy_tree-Ends fuel) from to
                      (omega (arith, h)))
                    (copy_file-Ends from to))
                  λ e''.
                    Confined-on_error (finite size) Anything e'' _ _ (λ err. tt) (tt, λ a s. tt)))

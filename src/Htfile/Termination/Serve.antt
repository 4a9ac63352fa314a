-- ===== src/Htfile/Termination/Serve.antt =====
-- `ServeHTTP` of htfile/htfile.go answers.
use mathlib.Core.Path.{subst}
use tasked.Base.{Runes, ℕ, ◌+◌, ◌<◌, ◌≡◌, some, ◌∷◌, arith}
use tasked.Htfile.Paths.{get_path}
use tasked.Htfile.Paths.Cleaning.{words, words-IsProper}
use tasked.Htfile.Paths.Below.{get_path-IsBelow}
use tasked.Htfile.Io.{Call}
use tasked.Htfile.Io.Confined.{Confined-weaken}
use tasked.Htfile.Io.Run.{System, run}
use tasked.Htfile.Request.{Reply, Request, Libraries, Handler}
use tasked.Htfile.Serve.{serve_http}
use tasked.Htfile.Confinement.{Anything}
use tasked.Htfile.Confinement.Serve.{serve_http-keeps}
use tasked.Htfile.Termination.{IsFinite, finite, run-Confined}
use tasked.Htfile.Termination.Search.{IsFoundAtMost, search_path-Ends}
use tasked.Htfile.Termination.Copy.{copy_tree-Ends}

-- Every request is answered, whatever it asks for and whichever calls of the system fail: in a system where
-- no more than so many files lie below each directory, searching and copying come to an end, with fuel that
-- is more than that by two. The root is an absolute path.
pub serve_http_answers :
    (S : System) (size : Runes → ℕ) (lib : Libraries) (fuel : ℕ) (h : Handler) (d : Runes)
    (r : Request) (s : S.State)
    → h.dn ≡ b'/' ∷ d
    → ((c : Call) (t : S.State) → IsFinite size c (S.answer c t).0)
    → ((p : Runes) → size p + 1 < fuel)
    → (reply : Reply) × ((run S (serve_http lib fuel h r) s).0 ≡ some reply)
serve_http_answers S size lib fuel h d r s e answers bounded =
    let (reply, f, t) =
      run-Confined S (finite size) Anything (serve_http lib fuel h r) s answers (λ x. x)
        (serve_http-keeps lib fuel h (words d) (words-IsProper d)
          (λ p q t. get_path-IsBelow d p q (subst (λ dn. get_path dn p ≡ some q) e t)) (finite size)
          (λ c k. tt) r
          (λ p max rxn rxc b.
            Confined-weaken (finite size) (IsFoundAtMost max) Anything _
              (search_path-Ends size lib fuel bounded p max rxn rxc) λ reply u. tt)
          (λ from to b b'. copy_tree-Ends size fuel from to (omega (arith, bounded from)))) in
    (reply, f)

-- ===== src/Htfile/Termination.antt =====
-- That the handlers of htfile/htfile.go come to an end: the fuel that the model adds is enough where no
-- directory is its own descendant.
pub mod Search
pub mod Copy
pub mod Serve
use tasked.Base.{Runes, ℕ, suc, ◌+◌, ◌-◌, ◌≤◌, ◌≡◌, refl, some, List, [], ◌∷◌}
use tasked.Htfile.Paths.{join_path}
use tasked.Htfile.Io.{FileInfo, Result, ok, fails, Call, readdir, Answer, Io, done, call, stopped}
use tasked.Htfile.Io.Confined.{Contract, Confined}
use tasked.Htfile.Io.Run.{System, run}
use tasked.Htfile.Files.{Found, path_of}
use tasked.Htfile.Confinement.{Anything}

module _ (size : Runes → ℕ) where
  -- The entries of a directory, with what is below each.
  abbrev pub total : Runes → List FileInfo → ℕ
  total p [] = 0
  total p (fi ∷ fis) = suc (size (join_path p fi.name)) + total p fis

  -- `size` is no less than the number of files below a directory.
  abbrev pub AreCounted : Runes → Result (List FileInfo) → Type 0
  AreCounted p (fails e) = Unit {0}
  AreCounted p (ok fis) = total p fis ≤ size p

  abbrev pub IsFinite : (c : Call) → Answer c → Type 0
  IsFinite (readdir p) a = AreCounted p a
  IsFinite _ a = Unit {0}

  abbrev pub finite : Contract
  finite = record { P = Anything; Q = IsFinite; End = ⊥ }

  abbrev pub weight : List Found → ℕ
  weight [] = 0
  weight (fi ∷ fis) = suc (size (path_of fi)) + weight fis

-- A handler that keeps to a contract with no cut-off ends, in a system that keeps to the contract.
pub run-Confined :
    {A : Type 0} (S : System) (C : Contract) (R : A → Type 0) (m : Io A) (s : S.State)
    → ((c : Call) (t : S.State) → C.Q c (S.answer c t).0)
    → ¬ C.End
    → Confined C R m
    → (a : A) × ((run S m s).0 ≡ some a) × R a
unfolding run
run-Confined S C R (done a) s answers e h = (a, refl, h)
run-Confined S C R (call c k) s answers e h =
    run-Confined S C R (k (S.answer c s).0) (S.answer c s).1 answers e
      (h.1 (S.answer c s).0 (answers c s))
run-Confined S C R stopped s answers e h = absurd (e h)

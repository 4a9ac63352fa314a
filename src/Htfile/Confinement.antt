-- ===== src/Htfile/Confinement.antt =====
-- Which calls the handlers of htfile/htfile.go make: the paths stay below the root.
pub mod Search
pub mod Copy
pub mod Reading
pub mod Handlers
pub mod Serve
use tasked.Base.{All, Runes, ℕ, ◌-◌, ◌≡◌, refl, ◌⊎◌, Bool, true, false, Option, none, some, List}
use tasked.Share.Errors.{OsError}
use tasked.Htfile.Paths.{rooted_text, dir, join_path}
use tasked.Htfile.Paths.Cleaning.{IsProper}
use tasked.Htfile.Paths.Below.{IsBelow}
use tasked.Htfile.Io.{
  FileInfo, Result, ok, fails, Call, lstat, open_file, stat, readdir, read, read_head, seek, mkdir,
  mkdir_all, create, remove_all, matches, write, chmod, chown, rename, current_user, lookup_user,
  lookup_group, user_name, group_name, Answer, Io, ◌>>=◌,
}
use tasked.Htfile.Io.Confined.{Contract, Confined, Confined-bind}
use tasked.Htfile.Request.{Reply, check, on_some, on_none, check_os, on_ok}

-- The paths of a call are the root, of the names `ds`, or below it. Only the directory in which a file is
-- put may be that of the root.
abbrev pub IsCallBelow : List Runes → Call → Type 0
IsCallBelow ds (lstat p) = IsBelow ds p
IsCallBelow ds (open_file p) = IsBelow ds p
IsCallBelow ds (stat p) = IsBelow ds p
IsCallBelow ds (readdir p) = IsBelow ds p
IsCallBelow ds (read p) = IsBelow ds p
IsCallBelow ds (read_head p) = IsBelow ds p
IsCallBelow ds (seek p) = IsBelow ds p
IsCallBelow ds (mkdir p) = IsBelow ds p
IsCallBelow ds (mkdir_all p) = IsBelow ds p ⊎ (p ≡ dir (rooted_text ds))
IsCallBelow ds (create p) = IsBelow ds p
IsCallBelow ds (remove_all p) = IsBelow ds p
IsCallBelow ds (matches p expr) = IsBelow ds p
IsCallBelow ds (write p t) = IsBelow ds p
IsCallBelow ds (chmod p mode) = IsBelow ds p
IsCallBelow ds (chown p uid gid) = IsBelow ds p
IsCallBelow ds (rename from to) = IsBelow ds from × IsBelow ds to
IsCallBelow ds current_user = Unit {0}
IsCallBelow ds (lookup_user name) = Unit {0}
IsCallBelow ds (lookup_group name) = Unit {0}
IsCallBelow ds (user_name uid) = Unit {0}
IsCallBelow ds (group_name gid) = Unit {0}

-- `Lstat` gives the name that the path ends in.
abbrev pub IsNamed : Runes → Result FileInfo → Type 0
IsNamed p (fails e) = Unit {0}
IsNamed p (ok fi) = join_path (dir p) fi.name ≡ p

-- `Readdir` gives names with no slash in them, and never `.` or `..`.
abbrev pub AreProper : Result (List FileInfo) → Type 0
AreProper (fails e) = Unit {0}
AreProper (ok fis) = All (λ fi. IsProper fi.name) fis

abbrev pub IsSane : (c : Call) → Answer c → Type 0
IsSane (lstat p) a = IsNamed p a
IsSane (readdir p) a = AreProper a
IsSane _ a = Unit {0}

-- The calls satisfy `P` as long as the answers are sane; fuel may end early.
abbrev pub sane : (Call → Type 0) → Contract
sane P = record { P = P; Q = IsSane; End = Unit {0} }

abbrev pub below : List Runes → Contract
below ds = sane (IsCallBelow ds)

-- The calls that leave the files as they are.
abbrev pub IsReading : Call → Type 0
IsReading (mkdir p) = ⊥
IsReading (mkdir_all p) = ⊥
IsReading (create p) = ⊥
IsReading (remove_all p) = ⊥
IsReading (write p t) = ⊥
IsReading (chmod p mode) = ⊥
IsReading (chown p uid gid) = ⊥
IsReading (rename from to) = ⊥
IsReading _ = Unit {0}

abbrev pub Anything {ℓ} : {A : Type ℓ} → A → Type 0
Anything a = Unit {0}

module _ (C : Contract) where
  pub Confined-on_some :
      {A : Type 0} (o : Option A) (status : ℕ) (k : A → Io Reply)
      → ((a : A) → o ≡ some a → Confined C Anything (k a))
      → Confined C Anything (on_some o status k)
  Confined-on_some none status k h = tt
  Confined-on_some (some a) status k h = h a refl

  pub Confined-check :
      (b : Bool) (status : ℕ) (k : Io Reply)
      → (b ≡ true → Confined C Anything k)
      → Confined C Anything (check b status k)
  Confined-check false status k h = tt
  Confined-check true status k h = h refl

  pub Confined-check_os :
      (e : Option OsError) (k : Io Reply)
      → Confined C Anything k
      → Confined C Anything (check_os e k)
  Confined-check_os none k h = h
  Confined-check_os (some e) k h = tt

  pub Confined-on_none :
      (e : Option OsError) (status : ℕ) (k : Io Reply)
      → Confined C Anything k
      → Confined C Anything (on_none e status k)
  Confined-on_none none status k h = h
  Confined-on_none (some e) status k h = tt

  pub Confined-on_ok :
      {A : Type 0} (r : Result A) (k : A → Io Reply)
      → ((a : A) → r ≡ ok a → Confined C Anything (k a))
      → Confined C Anything (on_ok r k)
  Confined-on_ok (fails e) k h = tt
  Confined-on_ok (ok a) k h = h a refl

  pub Confined-bind-any :
      {A B : Type 0} (m : Io A) (f : A → Io B)
      → Confined C Anything m
      → ((a : A) → Confined C Anything (f a))
      → Confined C Anything (m >>= f)
  Confined-bind-any m f h k = Confined-bind C Anything Anything m f h λ a t. k a

-- ===== src/Share/Fs.antt =====
-- `Abspath`, `AbspathNotEmpty`, `EnsureDir` and `CheckPath` of share/fs.go. What the system answers to the
-- calls of package os is an argument.
use tasked.Base.{
  ◌==◌, if◌then◌else◌, Runes, is_empty, ◌≡◌, refl, ap, ◌∙◌, ◌↔◌, Bool, true, false, not, ◌&&◌, ◌||◌,
  Option, none, some, [], ◌∷◌, arith,
}
use tasked.Share.Errors.{OsError, is_not_exist}
use tasked.Htfile.Paths.{join_path}
use tasked.Htfile.Io.{FileInfo, Result, ok, fails}

abbrev pub is_abs : Runes → Bool
is_abs [] = false
is_abs (c ∷ p) = c == b'/'

unfoldable pub abspath : (p dir : Runes) → Runes
abspath p dir = if is_abs p then p else join_path dir p

unfoldable pub abspath_not_empty : (p dir : Runes) → Runes
abspath_not_empty p dir = if is_empty p then p else abspath p dir

-- How a check ends: without an error, with one of the system, or since a file is in the way.
pub data Ensured : Type 0 where
  ensured not_a_directory : Ensured
  os_fails : OsError → Ensured

abbrev pub of_error : Option OsError → Ensured
of_error none = ensured
of_error (some e) = os_fails e

-- `stat` is the answer for the path, `mkdir_all` that for making the directory.
unfoldable pub ensure_dir : (stat : Result FileInfo) → (mkdir_all : Option OsError) → Ensured
ensure_dir (ok fi) mkdir_all = if fi.is_dir then ensured else not_a_directory
ensure_dir (fails e) mkdir_all = if is_not_exist e.cause then of_error mkdir_all else os_fails e

unfoldable pub check_path : (lstat : Result FileInfo) → (dir : Bool) → Bool × Option OsError
check_path (ok fi) dir = ((fi.is_dir && dir) || (not fi.is_dir && not dir), none)
check_path (fails e) dir = if is_not_exist e.cause then (false, none) else (false, some e)

agree_iff : (a b : Bool) → ((a && b) || (not a && not b) ≡ true) ↔ (a ≡ b)
agree_iff true true = ground arith
agree_iff true false = ground arith
agree_iff false true = ground arith
agree_iff false false = ground arith

-- A path is good just if something is there, and it is a directory or not as it should be.
check_path_iff :
    (lstat : Result FileInfo) (dir : Bool)
    → ((check_path lstat dir).0 ≡ true) ↔ ((fi : FileInfo) × (lstat ≡ ok fi) × (fi.is_dir ≡ dir))
unfolding check_path
check_path_iff (ok fi) dir = (
  λ h. (fi, refl, (agree_iff fi.is_dir dir).0 h),
  λ (x, e, f). (agree_iff fi.is_dir dir).1 (is_dir_of fi x e ∙ f),
)
  where
    is_dir_of : (a b : FileInfo) → ◌≡◌ {A = Result FileInfo} (ok a) (ok b) → a.is_dir ≡ b.is_dir
    is_dir_of a b e = ap (λ (r : Result FileInfo). elim r [ ok c ↦ c.is_dir | fails err ↦ false ]) e
check_path_iff (fails e) dir = (λ h. absurd (ground (arith, h)), λ (x, e', f). absurd (cc))

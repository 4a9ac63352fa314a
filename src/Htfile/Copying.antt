-- ===== src/Htfile/Copying.antt =====
-- What `copyTree` of htfile/htfile.go is to do: trees of files, and a disk that holds one.
pub mod Places
pub mod Runs
pub mod Exact
pub mod Requests
use tasked.Base.{
  if◌then◌else◌, Runes, same_text, ℕ, suc, ◌+◌, ◌≡◌, true, false, Option, none, some, List, [], ◌∷◌,
  ◌++◌,
}
use tasked.Htfile.Paths.{dir, join_path}
use tasked.Htfile.Io.{
  FileInfo, ok, lstat, open_file, readdir, read, mkdir, create, write, all_written, chmod,
}
use tasked.Htfile.Io.Run.{System}

-- A file with its text, or a directory with what is in it.
mutual
  pub data Tree : Type 0 where
    file : FileInfo → Runes → Tree
    folder : FileInfo → Forest → Tree

  pub data Forest : Type 0 where
    nil : Forest
    grow : Tree → Forest → Forest

abbrev pub info : Tree → FileInfo
info (file fi text) = fi
info (folder fi kids) = fi

unfoldable pub infos : Forest → List FileInfo
infos nil = []
infos (grow t ts) = info t ∷ infos ts

-- What a disk has at a path.
pub data Node : Type 0 where
  file_node : (mode : ℕ) (text : Runes) → Node
  dir_node : (mode : ℕ) → Node

abbrev pub with_mode : ℕ → Node → Node
with_mode m (file_node n text) = file_node m text
with_mode m (dir_node n) = dir_node m

abbrev pub with_text : Runes → Node → Node
with_text text (file_node n old) = file_node n text
with_text text (dir_node n) = dir_node n

-- A change of what is at one path.
abbrev pub at : Runes → (Option Node → Option Node) → (Runes → Option Node) → Runes → Option Node
at p f nodes q = if same_text p q then f (nodes q) else nodes q

abbrev pub on_node : (Node → Node) → Option Node → Option Node
on_node f none = none
on_node f (some n) = some (f n)

-- The first of two that is there.
abbrev pub first : Option Node → Option Node → Option Node
first none n = n
first (some m) n = some m

abbrev pub IsDirAt : (Runes → Option Node) → Runes → Type 0
IsDirAt nodes p = (m : ℕ) × (nodes p ≡ some (dir_node m))

-- Nothing, or a file.
abbrev pub IsNoDir : Option Node → Type 0
IsNoDir none = Unit
IsNoDir (some (file_node m text)) = Unit
IsNoDir (some (dir_node m)) = ⊥

-- What `os.Create` leaves: a new file, or the file that was there without its text.
abbrev pub emptied : (mode : ℕ) → Option Node → Option Node
emptied mode none = some (file_node mode [])
emptied mode (some (file_node m text)) = some (file_node m [])
emptied mode (some (dir_node m)) = some (dir_node m)

-- A system with a disk, on which the calls that copy fail only for what is at the paths. A directory is made
-- where nothing is, and a file is created where there is no directory, both in a directory that is there; a
-- file that is there is written, and the mode of what is there is changed. Each changes what is at its path,
-- and no other.
pub record Disk (S : System) : Type 0 where
  pub nodes : S.State → Runes → Option Node
  pub dir_mode : ℕ
  pub file_mode : ℕ
  pub reads :
      (s : S.State) (p : Runes)
      → (nodes (S.answer (lstat p) s).1 ≡ nodes s)
        × (nodes (S.answer (open_file p) s).1 ≡ nodes s)
        × (nodes (S.answer (readdir p) s).1 ≡ nodes s)
        × (nodes (S.answer (read p) s).1 ≡ nodes s)
  pub makes :
      (s : S.State) (p : Runes)
      → IsDirAt (nodes s) (dir p)
      → nodes s p ≡ none
      → ((S.answer (mkdir p) s).0 ≡ none)
        × ((q : Runes)
            → nodes (S.answer (mkdir p) s).1 q ≡ at p (λ n. some (dir_node dir_mode)) (nodes s) q)
  pub creates :
      (s : S.State) (p : Runes)
      → IsDirAt (nodes s) (dir p)
      → IsNoDir (nodes s p)
      → ((S.answer (create p) s).0 ≡ none)
        × ((q : Runes) → nodes (S.answer (create p) s).1 q ≡ at p (emptied file_mode) (nodes s) q)
  pub writes :
      (s : S.State) (p text : Runes) (m : ℕ) (old : Runes)
      → nodes s p ≡ some (file_node m old)
      → ((S.answer (write p text) s).0 ≡ all_written)
        × ((q : Runes)
            → nodes (S.answer (write p text) s).1 q ≡ at p (on_node (with_text text)) (nodes s) q)
  pub changes :
      (s : S.State) (p : Runes) (m : ℕ) (n : Node)
      → nodes s p ≡ some n
      → ((S.answer (chmod p m) s).0 ≡ none)
        × ((q : Runes)
            → nodes (S.answer (chmod p m) s).1 q ≡ at p (on_node (with_mode m)) (nodes s) q)

module _ (S : System) where
  -- Whatever the state, the system answers that this tree is at the path.
  unfoldable mutual
    pub IsHeld : Runes → Tree → Type 0
    IsHeld from (file fi text) =
        (fi.is_dir ≡ false)
        × ((s : S.State) → (S.answer (lstat from) s).0 ≡ ok fi)
        × ((s : S.State) → (S.answer (open_file from) s).0 ≡ none)
        × ((s : S.State) → (S.answer (read from) s).0 ≡ ok text)
    IsHeld from (folder fi kids) =
        (fi.is_dir ≡ true)
        × ((s : S.State) → (S.answer (lstat from) s).0 ≡ ok fi)
        × ((s : S.State) → (S.answer (open_file from) s).0 ≡ none)
        × ((s : S.State) → (S.answer (readdir from) s).0 ≡ ok (infos kids))
        × AreHeld from kids

    pub AreHeld : Runes → Forest → Type 0
    AreHeld from nil = Unit
    AreHeld from (grow t ts) = IsHeld (join_path from (info t).name) t × AreHeld from ts

-- What is to be at a path when a tree was copied to `to`: none where the copy does not change it.
unfoldable mutual
  pub copied : (to : Runes) → Tree → Runes → Option Node
  copied to (file fi text) p = if same_text to p then some (file_node fi.mode text) else none
  copied to (folder fi kids) p =
      if same_text to p then some (dir_node fi.mode) else copied_all to kids p

  pub copied_all : (to : Runes) → Forest → Runes → Option Node
  copied_all to nil p = none
  copied_all to (grow t ts) p = first (copied_all to ts p) (copied (join_path to (info t).name) t p)

-- The paths of a copy.
unfoldable mutual
  pub paths : (to : Runes) → Tree → List Runes
  paths to (file fi text) = to ∷ []
  paths to (folder fi kids) = to ∷ paths_all to kids

  pub paths_all : (to : Runes) → Forest → List Runes
  paths_all to nil = []
  paths_all to (grow t ts) = paths (join_path to (info t).name) t ++ paths_all to ts

-- Where a directory is to be copied to there is nothing, and where a file is to be copied to there is no
-- directory.
unfoldable mutual
  pub IsFree : (Runes → Option Node) → (to : Runes) → Tree → Type 0
  IsFree nodes to (file fi text) = IsNoDir (nodes to)
  IsFree nodes to (folder fi kids) = (nodes to ≡ none) × AreFree nodes to kids

  pub AreFree : (Runes → Option Node) → (to : Runes) → Forest → Type 0
  AreFree nodes to nil = Unit
  AreFree nodes to (grow t ts) = IsFree nodes (join_path to (info t).name) t × AreFree nodes to ts

-- Nothing of the tree is copied to itself, and the path of an entry is in its directory.
unfoldable mutual
  pub IsApart : (from to : Runes) → Tree → Type 0
  IsApart from to (file fi text) = same_text from to ≡ false
  IsApart from to (folder fi kids) = (same_text from to ≡ false) × AreApart from to kids

  pub AreApart : (from to : Runes) → Forest → Type 0
  AreApart from to nil = Unit
  AreApart from to (grow t ts) =
      (dir (join_path to (info t).name) ≡ to)
      × IsApart (join_path from (info t).name) (join_path to (info t).name) t
      × AreApart from to ts

-- How deep a tree is.
unfoldable mutual
  pub depth : Tree → ℕ
  depth (file fi text) = 1
  depth (folder fi kids) = suc (depth_all kids)

  pub depth_all : Forest → ℕ
  depth_all nil = 0
  depth_all (grow t ts) = depth t + depth_all ts

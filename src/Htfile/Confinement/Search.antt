-- ===== src/Htfile/Confinement/Search.antt =====
-- The calls of a search, of htfile/htfile.go.
use mathlib.Core.Path.{subst}
use tasked.Base.{
  ◌==◌, if◌then◌else◌, All, All-append, Runes, contains, is_empty, ℕ, zero, suc, ◌-◌, sym, Bool,
  true, false, not, Option, none, some, List, [], ◌∷◌, ◌++◌,
}
use tasked.Htfile.Paths.{dir, join_path}
use tasked.Htfile.Paths.Cleaning.{IsProper}
use tasked.Htfile.Io.{FileInfo, Call, lstat, open_file, readdir, read_head, seek, matches, Io, ask}
use tasked.Htfile.Io.Confined.{
  Contract, Confined, Confined-bind, Confined-ask, Confined-on_error, Confined-on_result,
  Confined-if,
}
use tasked.Htfile.Files.{
  Found, path_of, found_in, search_entries, search_dir, search_files, Types, ext,
  detect_content_type,
}
use tasked.Htfile.Request.{Libraries}
use tasked.Htfile.Properties.{text_types, matches_name, matches_content, search_query}
use tasked.Htfile.Handlers.{search_path}
use tasked.Htfile.Confinement.{
  IsNamed, AreProper, sane, Anything, Confined-on_ok, Confined-bind-any,
}

-- Of what a search asks of a file, where the contract allows it for its path.
module _ (C : Contract) (Good : Runes → Type 0)
    (calls : (p e : Runes)
      → Good p
      → C.P (open_file p) × C.P (read_head p) × C.P (seek p) × C.P (matches p e)) where
  pub detect_content_type-Confined :
      (types : Types) (name p : Runes)
      → Good p
      → Confined C Anything (detect_content_type types name p)
  unfolding detect_content_type
  detect_content_type-Confined types name p h =
      Confined-if C Anything (not (is_empty (types.by_extension (ext name)))) _ _ tt (
        Confined-ask C Anything (read_head p) _ (calls p [] h).1 λ r q.
          Confined-on_result C Anything r _ _ (λ err. tt)
            λ head e.
              Confined-ask C Anything (seek p) _ (calls p [] h).2
                λ e' q'. Confined-on_error C Anything e' _ _ (λ err. tt) tt)

  matches_content-Confined :
      (lib : Libraries) (e : Runes) (fi : Found)
      → Good (path_of fi)
      → Confined C Anything (matches_content lib e fi)
  unfolding matches_content ask
  matches_content-Confined lib e fi h = Confined-if C Anything fi.sys.is_dir _ _ tt (
      Confined-ask C Anything (open_file (path_of fi)) _ (calls (path_of fi) e h).0 λ err q.
        Confined-on_error C Anything err _ _ (λ x. tt)
          (Confined-bind-any C (detect_content_type lib.types fi.sys.name (path_of fi)) _
            (detect_content_type-Confined lib.types fi.sys.name (path_of fi) h)
            λ r.
              Confined-on_result C Anything r _ _ (λ x. tt)
                λ ct e'.
                  Confined-if C Anything (contains ct text_types) _ _
                    ((calls (path_of fi) e h).3, λ a s. tt) tt))

  pub search_query-Confined :
      (lib : Libraries) (rxn rxc : Option Runes) (fi : Found)
      → Good (path_of fi)
      → Confined C Anything (search_query lib rxn rxc fi)
  unfolding search_query
  search_query-Confined lib rxn none fi h =
      Confined-if C Anything (not (matches_name lib rxn fi)) _ _ tt tt
  search_query-Confined lib rxn (some e) fi h =
      Confined-if C Anything (not (matches_name lib rxn fi)) _ _ tt
        (matches_content-Confined lib e fi h)

-- The same of the search itself, where names lead from good paths to good paths.
module _ (P : Call → Type 0) (Good : Runes → Type 0)
    (calls : (p e : Runes)
      → Good p
      → P (open_file p) × P (read_head p) × P (seek p) × P (matches p e))
    (lists : (p : Runes) → Good p → P (lstat p) × P (readdir p))
    (joins : (p name : Runes) → Good p → IsProper name → Good (join_path p name)) where
  abbrev pub Within : Found → Type 0
  Within fi = Good (path_of fi)

  -- Of what a search gives for a directory: the directories to search are good.
  abbrev Pending : List Found × List Found × ℕ → Type 0
  Pending r = All Within r.1

  module _ (query : Found → Io Bool)
      (asks : (fi : Found) → Within fi → Confined (sane P) Anything (query fi)) where
    with_dir-Within :
        (b : Bool) (fi : Found) (dirs : List Found)
        → Within fi
        → All Within dirs
        → All Within (if b then dirs ++ fi ∷ [] else dirs)
    with_dir-Within true fi dirs h k = All-append Within dirs (fi ∷ []) k (h, tt)
    with_dir-Within false fi dirs h k = k

    search_entries-Confined :
        (p : Runes) (fis : List FileInfo) (dirs : List Found) (max : ℕ)
        → Good p
        → All (λ fi. IsProper fi.name) fis
        → All Within dirs
        → Confined (sane P) Pending (search_entries query p fis dirs max)
    unfolding search_entries
    search_entries-Confined p [] dirs max h t k = k
    search_entries-Confined p (fi ∷ fis) dirs max h (t, ts) k =
        let w = joins p fi.name h t in
        let k' = with_dir-Within fi.is_dir (found_in p fi) dirs w k in
        Confined-bind (sane P) Anything Pending (query (found_in p fi)) _ (asks (found_in p fi) w)
          λ hit s.
            Confined-if (sane P) Pending hit _ _
              (Confined-if (sane P) Pending (max == 1) _ _ k (
                Confined-bind (sane P) Pending Pending _ _
                  (search_entries-Confined p fis _ (max - 1) h ts k') λ a b. b))
              (search_entries-Confined p fis _ max h ts k')

    search_dir-Confined :
        (di : Found) (dirs : List Found) (max : ℕ)
        → Within di
        → All Within dirs
        → Confined (sane P) Pending (search_dir query di dirs max)
    unfolding search_dir
    search_dir-Confined di dirs max h k =
        Confined-ask (sane P) Pending (open_file (path_of di)) _ (calls (path_of di) [] h).0 λ e q.
          Confined-on_error (sane P) Pending e _ _ (λ err. k)
            (Confined-ask (sane P) Pending (readdir (path_of di)) _ (lists (path_of di) h).1 λ r s.
              Confined-on_result (sane P) Pending r _ _ (λ err. k)
                λ fis e'.
                  search_entries-Confined (path_of di) fis dirs max h (subst AreProper e' s) k)

    pub search_files-Confined :
        (fuel : ℕ) (dirs : List Found) (max : ℕ)
        → All Within dirs
        → Confined (sane P) Anything (search_files fuel query dirs max)
    unfolding search_files
    search_files-Confined zero dirs max k = tt
    search_files-Confined (suc fuel) [] max k = tt
    search_files-Confined (suc fuel) (di ∷ dirs) max (h, k) =
        Confined-if (sane P) Anything (max == 0) _ _ tt (
          Confined-bind (sane P) Pending Anything (search_dir query di dirs max) _
            (search_dir-Confined di dirs max h k)
            λ a b. Confined-bind-any (sane P) _ _ (search_files-Confined fuel a.1 a.2 b) λ more. tt)

  pub search_path-Confined :
      (lib : Libraries) (fuel : ℕ) (p : Runes) (max : ℕ) (rxn rxc : Option Runes)
      → Good p
      → Confined (sane P) Anything (search_path lib fuel p max rxn rxc)
  unfolding search_path
  search_path-Confined lib fuel p max rxn rxc h =
      Confined-ask (sane P) Anything (lstat p) _ (lists p h).0 λ r q.
        Confined-on_ok (sane P) r _ λ di e.
          Confined-bind-any (sane P) _ _
            (search_files-Confined (search_query lib rxn rxc)
              (search_query-Confined (sane P) Good calls lib rxn rxc) fuel
              (found_in (dir p) di ∷ []) max (subst Good (sym (subst (IsNamed p) e q)) h, tt))
            λ fis. tt

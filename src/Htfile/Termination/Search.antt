-- ===== src/Htfile/Termination/Search.antt =====
-- How a search of htfile/htfile.go ends, and how much it finds.
use mathlib.Core.Path.{subst}
use tasked.Base.{
  ◌==◌, if◌then◌else◌, length, length-append, Runes, ℕ, zero, suc, ◌+◌, ◌-◌, ◌≤◌, ◌<◌, ◌≡◌, refl,
  ap, ◌≢◌, Bool, true, false, Option, none, some, List, [], ◌∷◌, ◌++◌, map, arith,
}
use tasked.Htfile.Paths.{dir, get_path}
use tasked.Htfile.Io.{FileInfo, Result, ok, fails, Call, lstat, open_file, readdir, Io, done, ◌>>=◌}
use tasked.Htfile.Io.Confined.{
  Confined, Confined-bind, Confined-ask, Confined-on_error, Confined-on_result, Confined-if,
  Confined-test, Confined-weaken,
}
use tasked.Htfile.Io.Run.{System, run}
use tasked.Htfile.Files.{Found, path_of, found_in, search_entries, search_dir, search_files}
use tasked.Htfile.Request.{
  Props, Reply, empty, error_response, property_map, property_maps, content, Query, Request,
  Libraries, Handler, on_some, on_ok,
}
use tasked.Htfile.Properties.{found_props, get_qry_num, get_qry_expression, search_query}
use tasked.Htfile.Handlers.{search_limit, search_path, searchf}
use tasked.Htfile.Confinement.{Anything}
use tasked.Htfile.Confinement.Search.{search_query-Confined}
use tasked.Htfile.Termination.{total, AreCounted, IsFinite, finite, weight, run-Confined}

module _ (size : Runes → ℕ) where
  weight-append : (ds es : List Found) → weight size (ds ++ es) ≡ weight size ds + weight size es
  weight-append [] es = omega arith
  weight-append (d ∷ ds) es = omega (arith, weight-append ds es)

  weight_with :
      (b : Bool) (fi : Found) (dirs : List Found)
      → weight size (if b then dirs ++ fi ∷ [] else dirs)
        ≤ weight size dirs + suc (size (path_of fi))
  weight_with true fi dirs = omega (arith, weight-append dirs (fi ∷ []))
  weight_with false fi dirs = omega arith

  -- What was found and what may still be found make up what could be found before; the directories that
  -- are left weigh no more than `bound`.
  IsStep : ℕ → ℕ → List Found × List Found × ℕ → Type 0
  IsStep max bound r = (length r.0 + r.2 ≡ max) × (weight size r.1 ≤ bound)

  module _ (query : Found → Io Bool)
      (asks : (fi : Found) → Confined (finite size) Anything (query fi)) where
    search_entries-IsStep :
        (p : Runes) (fis : List FileInfo) (dirs : List Found) (max bound : ℕ)
        → max ≢ 0
        → weight size dirs + total size p fis ≤ bound
        → Confined (finite size) (IsStep max bound) (search_entries query p fis dirs max)
    unfolding search_entries IsStep
    search_entries-IsStep p [] dirs max bound m h = (omega arith, omega (arith, h))
    search_entries-IsStep p (fi ∷ fis) dirs max bound m h =
        let w = weight_with fi.is_dir (found_in p fi) dirs in
        Confined-bind (finite size) Anything (IsStep max bound) (query (found_in p fi)) _
          (asks (found_in p fi))
          λ hit s.
            Confined-if (finite size) (IsStep max bound) hit _ _
              (Confined-test (finite size) (IsStep max bound) (max == 1) _ _
                (λ e. (ground (arith, e), omega (arith, h)))
                λ e.
                  Confined-bind (finite size) (IsStep (max - 1) bound) (IsStep max bound) _ _
                    (search_entries-IsStep p fis _ (max - 1) bound (ground (arith, e, m))
                      (omega (arith, w, h)))
                    λ r t. (omega (arith, t.0, m), t.1))
              (search_entries-IsStep p fis _ max bound m (omega (arith, w, h)))

    search_dir-IsStep :
        (di : Found) (dirs : List Found) (max : ℕ)
        → max ≢ 0
        → Confined
            (finite size)
            (IsStep max (weight size dirs + size (path_of di)))
            (search_dir query di dirs max)
    unfolding search_dir IsStep
    search_dir-IsStep di dirs max m =
        let bound = weight size dirs + size (path_of di) in
        Confined-ask (finite size) (IsStep max bound) (open_file (path_of di)) _ tt λ e q.
          Confined-on_error (finite size) (IsStep max bound) e _ _
            (λ err. (omega arith, omega arith))
            (Confined-ask (finite size) (IsStep max bound) (readdir (path_of di)) _ tt λ r s.
              Confined-on_result (finite size) (IsStep max bound) r _ _
                (λ err. (omega arith, omega arith))
                λ fis e'.
                  search_entries-IsStep (path_of di) fis dirs max bound m
                    (omega (arith, subst (AreCounted size (path_of di)) e' s)))

    pub search_files-Ends :
        (fuel : ℕ) (dirs : List Found) (max : ℕ)
        → weight size dirs < fuel
        → Confined (finite size) (λ fis. length fis ≤ max) (search_files fuel query dirs max)
    unfolding search_files IsStep
    search_files-Ends zero dirs max h = absurd (omega (arith, h))
    search_files-Ends (suc fuel) [] max h = omega arith
    search_files-Ends (suc fuel) (di ∷ dirs) max h =
        Confined-test (finite size) (λ fis. length fis ≤ max) (max == 0) _ _ (λ e. omega arith)
          λ e.
            Confined-bind (finite size) (IsStep max (weight size dirs + size (path_of di))) _ _ _
              (search_dir-IsStep di dirs max (ground (arith, e)))
              λ r t.
                Confined-bind (finite size) (λ fis. length fis ≤ r.2) _ _ _
                  (search_files-Ends fuel r.1 r.2 (omega (arith, h, t.1)))
                  λ more u. omega (arith, t.0, u, length-append r.0 more)

-- A search answers with no more files than that, or with an error.
abbrev pub IsFoundAtMost : ℕ → Reply → Type 0
IsFoundAtMost n (property_maps ps) = length ps ≤ n
IsFoundAtMost n (error_response status) = Unit
IsFoundAtMost n _ = ⊥

length-map : (f : Found → Props) (fis : List Found) → length (map f fis) ≡ length fis
length-map f [] = refl
length-map f (fi ∷ fis) = ap suc (length-map f fis)

search_limit_le : (limit max : ℕ) → search_limit limit max ≤ limit
unfolding search_limit
search_limit_le limit max = ground arith

module _ (size : Runes → ℕ) (lib : Libraries) (fuel : ℕ)
    (bounded : (p : Runes) → size p + 1 < fuel) where
  query-Ends :
      (rxn rxc : Option Runes) (fi : Found)
      → Confined (finite size) Anything (search_query lib rxn rxc fi)
  query-Ends rxn rxc fi =
      search_query-Confined (finite size) Anything (λ p e h. (tt, tt, tt, tt)) lib rxn rxc fi tt

  pub search_path-Ends :
      (p : Runes) (max : ℕ) (rxn rxc : Option Runes)
      → Confined (finite size) (IsFoundAtMost max) (search_path lib fuel p max rxn rxc)
  unfolding search_path
  search_path-Ends p max rxn rxc =
      Confined-ask (finite size) (IsFoundAtMost max) (lstat p) _ tt λ r q. on_stat_of r
    where
      on_stat_of :
          (r : Result FileInfo)
          → Confined (finite size) (IsFoundAtMost max) (
              on_ok r λ di.
                search_files fuel (search_query lib rxn rxc) (found_in (dir p) di ∷ []) max
                >>= λ fis. done (property_maps (map found_props fis)))
      on_stat_of (fails e) = tt
      on_stat_of (ok di) =
          Confined-bind (finite size) (λ fis. length fis ≤ max) _ _ _
            (search_files-Ends size (search_query lib rxn rxc) (query-Ends rxn rxc) fuel
              (found_in (dir p) di ∷ []) max
              (omega (arith, bounded (path_of (found_in (dir p) di)))))
            λ fis u. omega (arith, u, length-map found_props fis)

  on_some-Ends :
      {A : Type 0} (n : ℕ) (o : Option A) (status : ℕ) (k : A → Io Reply)
      → ((a : A) → Confined (finite size) (IsFoundAtMost n) (k a))
      → Confined (finite size) (IsFoundAtMost n) (on_some o status k)
  on_some-Ends n none status k h = tt
  on_some-Ends n (some a) status k h = h a

  IsFoundAtMost-le : (n m : ℕ) (r : Reply) → n ≤ m → IsFoundAtMost n r → IsFoundAtMost m r
  IsFoundAtMost-le n m (property_maps ps) h k = omega (arith, h, k)
  IsFoundAtMost-le n m (error_response status) h k = tt
  IsFoundAtMost-le n m empty h k = k
  IsFoundAtMost-le n m (property_map ps) h k = k
  IsFoundAtMost-le n m (content ct s t) h k = k

  searchf-Ends :
      (h : Handler) (r : Request) (qry : Query)
      → Confined (finite size) (IsFoundAtMost h.max_search_results) (searchf lib fuel h r qry)
  unfolding searchf
  searchf-Ends h r qry =
      let limit = h.max_search_results in
      on_some-Ends limit (get_path h.dn r.path) 404 _ λ p.
        on_some-Ends limit (get_qry_num lib qry.max) 400 _ λ max.
          on_some-Ends limit (get_qry_expression lib qry.name) 400 _ λ rxn.
            on_some-Ends limit (get_qry_expression lib qry.content) 400 _ λ rxc.
              Confined-weaken (finite size) (IsFoundAtMost (search_limit limit max))
                (IsFoundAtMost limit) _ (search_path-Ends p (search_limit limit max) rxn rxc)
                λ reply u.
                  IsFoundAtMost-le (search_limit limit max) limit reply (search_limit_le limit max)
                    u

-- In a system where no more than so many files lie below each directory, and the fuel is more by two, a
-- search comes to an end: it answers with an error, or with the properties of no more files than
-- `maxSearchResults`, whatever the request asks for as the maximum.
pub searchf_lem :
    (S : System) (size : Runes → ℕ) (lib : Libraries) (fuel : ℕ) (h : Handler) (r : Request)
    (qry : Query) (s : S.State)
    → ((c : Call) (t : S.State) → IsFinite size c (S.answer c t).0)
    → ((p : Runes) → size p + 1 < fuel)
    → (reply : Reply) × ((run S (searchf lib fuel h r qry) s).0 ≡ some reply)
      × IsFoundAtMost h.max_search_results reply
searchf_lem S size lib fuel h r qry s answers bounded =
    run-Confined S (finite size) (IsFoundAtMost h.max_search_results) (searchf lib fuel h r qry) s
      answers (λ e. e) (searchf-Ends size lib fuel bounded h r qry)

-- ===== src/Htfile/Properties.antt =====
-- What the requests of htfile/htfile.go ask for: properties, and the query of a search.
use tasked.Base.{
  ◌==◌, if◌then◌else◌, Runes, codes, contains, is_empty, ℕ, Bool, true, false, not, ◌||◌, Option,
  none, some, List, [], ◌∷◌,
}
use tasked.Htfile.Io.{
  FileInfo, open_file, matches, user_name, group_name, Io, done, ◌>>=◌, on_error, on_result,
  on_stat, ask,
}
use tasked.Htfile.Files.{Found, path_of, detect_content_type}
use tasked.Htfile.Request.{Props, Libraries, replace_mode}

-- `isOwner`, for the number of a user.
unfoldable pub is_owner : ℕ → FileInfo → Bool
is_owner u fi = u == 0 || elim fi.stat [ none ↦ false | some s ↦ s.uid == u ]

abbrev pub plain_props : FileInfo → Props
plain_props fi = record {
  name = fi.name;
  size = fi.size;
  mod_time = fi.mod_time;
  is_dir = fi.is_dir;
  mode = none;
  user = none;
  group = none;
  times = none;
  dirname = none;
}

-- `toPropertyMap`, without and with the properties for the owner.
abbrev pub found_props : Found → Props
found_props fi = record (plain_props fi.sys) { dirname = some fi.dirname }

unfoldable pub to_property_map : FileInfo → (ext : Bool) → Io Props
to_property_map fi false = done (plain_props fi)
to_property_map fi true =
    let m = record (plain_props fi) { mode = some (replace_mode 0 fi.mode) } in
    on_stat fi.stat (done m) λ s. ask (user_name s.uid) >>= λ u.
    ask (group_name s.gid) >>= λ g. done (record m { user = u; group = g; times = some s })

-- The loop of `getDir`.
unfoldable pub property_map_all : ℕ → List FileInfo → Io (List Props)
property_map_all u [] = done []
property_map_all u (fi ∷ fis) =
    to_property_map fi (is_owner u fi) >>= λ m. property_map_all u fis >>= λ ms. done (m ∷ ms)

abbrev pub text_types : List Runes
text_types =
    codes "text/css; charset=utf-8"
    ∷ codes "text/html; charset=utf-8"
    ∷ codes "application/x-javascript"
    ∷ codes "text/xml; charset=utf-8"
    ∷ codes "text/plain; charset=utf-8"
    ∷ codes "text/plain; charset=utf-16le"
    ∷ codes "text/plain; charset=utf-16be"
    ∷ []

module _ (lib : Libraries) where
  unfoldable pub get_qry_num : Option (List Runes) → Option ℕ
  get_qry_num none = some 0
  get_qry_num (some []) = none
  get_qry_num (some (n ∷ [])) = lib.atoi n
  get_qry_num (some (n ∷ m ∷ ns)) = none

  -- The expression, where there is one.
  unfoldable pub get_qry_expression : List Runes → Option (Option Runes)
  get_qry_expression [] = some none
  get_qry_expression (e ∷ []) =
      if is_empty e then some none else if lib.compiles e then some (some e) else none
  get_qry_expression (e ∷ f ∷ es) = none

  abbrev pub matches_name : Option Runes → Found → Bool
  matches_name none fi = true
  matches_name (some e) fi = lib.match_string e fi.sys.name

  -- The part of the query that looks into a file.
  unfoldable pub matches_content : Runes → Found → Io Bool
  matches_content e fi =
      if fi.sys.is_dir
      then done false
      else (ask (open_file (path_of fi)) >>= λ err.
          on_error err (λ x. done false)
            (detect_content_type lib.types fi.sys.name (path_of fi) >>= λ r.
              on_result r (λ x. done false)
                λ ct. if contains ct text_types then ask (matches (path_of fi) e) else done false))

  unfoldable pub search_query : Option Runes → Option Runes → Found → Io Bool
  search_query rxn rxc fi =
      if not (matches_name rxn fi)
      then done false
      else elim rxc [ none ↦ done true | some e ↦ matches_content e fi ]

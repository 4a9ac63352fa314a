-- ===== src/Htfile/Handlers.antt =====
-- The handlers of htfile/htfile.go. `fuel` bounds the recursions of searches and copies.
use tasked.Base.{
  ltb, ◌==◌, if◌then◌else◌, Runes, codes, same_text, ℕ, ◌||◌, Option, none, some, [], ◌∷◌, map,
}
use tasked.Share.Errors.{is_not_exist}
use tasked.Htfile.Paths.{dir, get_path}
use tasked.Htfile.Io.{
  FileInfo, lstat, open_file, stat, readdir, read, mkdir_all, remove_all, current_user, Io, done,
  ◌>>=◌, on_error, on_result, ask,
}
use tasked.Htfile.Files.{found_in, search_files, Types, detect_content_type}
use tasked.Htfile.Request.{
  Reply, empty, error_response, property_map, property_maps, content, Query, Request, Libraries,
  Handler, on_some, check_os, on_ok,
}
use tasked.Htfile.Properties.{
  is_owner, found_props, to_property_map, property_map_all, get_qry_num, get_qry_expression,
  search_query,
}

-- How many files a search may find.
unfoldable pub search_limit : ℕ → ℕ → ℕ
search_limit limit max = if max == 0 || ltb limit max then limit else max

unfoldable pub search_path : Libraries → ℕ → Runes → ℕ → Option Runes → Option Runes → Io Reply
search_path lib fuel p max rxn rxc = ask (lstat p) >>= λ r. on_ok r λ di.
    search_files fuel (search_query lib rxn rxc) (found_in (dir p) di ∷ []) max >>= λ fis.
    done (property_maps (map found_props fis))

unfoldable pub searchf : Libraries → ℕ → Handler → Request → Query → Io Reply
searchf lib fuel h r qry = on_some (get_path h.dn r.path) 404 λ p.
    on_some (get_qry_num lib qry.max) 400 λ max.
      on_some (get_qry_expression lib qry.name) 400 λ rxn.
        on_some (get_qry_expression lib qry.content) 400
          λ rxc. search_path lib fuel p (search_limit h.max_search_results max) rxn rxc

unfoldable pub propsf : Handler → Request → Io Reply
propsf h r = on_some (get_path h.dn r.path) 404 λ p. ask (lstat p) >>= λ res. on_ok res λ fi.
    ask current_user >>= λ u.
    on_some u 500 λ user. to_property_map fi (is_owner user fi) >>= λ m. done (property_map m)

unfoldable pub get_dir : Runes → Io Reply
get_dir p = ask (readdir p) >>= λ r. on_ok r λ fis. ask current_user >>= λ u.
    on_some u 500 λ user. property_map_all user fis >>= λ ms. done (property_maps ms)

unfoldable pub get_file : Types → Request → Runes → FileInfo → Io Reply
get_file types r p fi = detect_content_type types fi.name p >>= λ res.
    on_result res (λ e. done (error_response 500))
      λ ct.
        if same_text r.method (codes "HEAD")
        then done (content ct fi.size none)
        else (ask (read p) >>= λ text. done (content ct fi.size (some text)))

-- The default case of `get`.
unfoldable pub get_path_content : Types → Handler → Request → Io Reply
get_path_content types h r = on_some (get_path h.dn r.path) 404 λ p. ask (open_file p) >>= λ e.
    check_os e (
      ask (stat p) >>= λ res.
      on_ok res λ fi. if fi.is_dir then get_dir p else get_file types r p fi)

unfoldable pub deletef : Handler → Request → Io Reply
deletef h r = on_some (get_path h.dn r.path) 404 λ p. ask (remove_all p) >>= λ e.
    on_error e
      (λ err. if is_not_exist err.cause then done empty else check_os (some err) (done empty))
      (done empty)

unfoldable pub mkdirf : Handler → Request → Io Reply
mkdirf h r =
    on_some (get_path h.dn r.path) 404 λ p. ask (mkdir_all p) >>= λ e. check_os e (done empty)

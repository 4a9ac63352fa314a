-- ===== src/Htfile/Examples.antt =====
-- Paths of htfile/htfile.go at concrete inputs.
use tasked.Base.{codes, same_text, split, ◌≡◌, refl, none, some}
use tasked.Htfile.Paths.{
  dot, pop, push, resolve, clean, join_path, clean_dir_path, is_under, path_intersect, get_path,
}
use tasked.Htfile.Paths.Containment.{IsInside, get_path-IsInside}
use tasked.Htfile.Paths.Roots.{get_path_slash, get_path-dot}

get_path_lem :
    (get_path (codes "/srv/www/") (codes "/a/./b//c/..") ≡ some (codes "/srv/www/a/b"))
    × (get_path (codes "/srv/www") (codes "/../wwwroot") ≡ none)
    × (get_path (codes "/srv/www") (codes "/../..") ≡ none)
    × (get_path (codes "files") (codes "../x") ≡ none)
    × (get_path (codes ".") (codes "/../../etc/passwd") ≡ some (codes "../../etc/passwd"))
    × (get_path (codes "..") (codes "/../x") ≡ some (codes "../../x"))
    × (get_path (codes "/") (codes "/etc") ≡ none)
unfolding get_path path_intersect is_under clean_dir_path join_path clean resolve push pop split
    same_text
get_path_lem = (refl, refl, refl, refl, refl, refl, refl)

get_path-IsInside_example : IsInside (clean (codes "/srv/www/")) (codes "/srv/www/a/b")
get_path-IsInside_example =
    get_path-IsInside (codes "srv/www/") (codes "/a/./b//c/..") (codes "/srv/www/a/b")
      get_path_lem.0

get_path_slash_example : codes "/" ≡ codes "/"
get_path_slash_example = get_path_slash (codes "") (codes "/") (
    unfold get_path path_intersect clean_dir_path join_path clean resolve push split same_text in
    refl)

get_path-dot_example : get_path dot (codes "/../x") ≡ some (join_path dot (codes "/../x"))
get_path-dot_example = get_path-dot (codes "/../x")

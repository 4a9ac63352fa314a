-- ===== src/Htfile/Copying/Requests.antt =====
-- That a request to copy, of htfile/htfile.go, copies.
use tasked.Base.{Runes, ◌≡◌, Option, none, some, List, [], ◌∷◌, ◌++◌}
use tasked.Htfile.Paths.{dir, no_match, path_intersect, get_path}
use tasked.Htfile.Request.{Request, Handler}
use tasked.Htfile.Copying.{Tree, Node, first, IsDirAt, copied, paths, IsFree, IsApart}

-- What the copies to these paths leave at a path.
unfoldable pub landed : List Runes → Tree → Runes → Option Node
landed [] t p = none
landed (q ∷ qs) t p = first (landed qs t p) (copied q t p)

-- The paths of all the copies.
unfoldable pub all_paths : List Runes → Tree → List Runes
all_paths [] t = []
all_paths (q ∷ qs) t = paths q t ++ all_paths qs t

-- The values of the query stand for these paths, none of which is above or below `from`; they are in
-- directories that are there, and free for the tree.
abbrev pub AreTargets :
    Handler → Runes → Tree → (Runes → Option Node) → List Runes → List Runes → Type 0
AreTargets h from t nodes [] [] = Unit
AreTargets h from t nodes (to ∷ tos) (q ∷ qs) =
    (get_path h.dn to ≡ some q)
    × (path_intersect from q ≡ no_match)
    × IsApart from q t
    × IsDirAt nodes (dir q)
    × IsFree nodes q t
    × AreTargets h from t nodes tos qs
AreTargets h from t nodes _ _ = ⊥

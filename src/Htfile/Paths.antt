-- ===== src/Htfile/Paths.antt =====
-- The paths of htfile/htfile.go: `cleanDirPath`, `pathIntersect` and `getPath`, with what they use of
-- Go's package path.
pub mod Cleaning
pub mod Containment
pub mod Below
pub mod Roots
use tasked.Base.{
  ltb, ◌==◌, if◌then◌else◌, length, Runes, same_text, split, is_empty, ◌+◌, ◌/◌, Bool, true, false,
  not, ◌&&◌, ◌||◌, Option, none, some, List, [], ◌∷◌, ◌++◌,
}

abbrev pub dot : Runes
dot = b'.' ∷ []

abbrev pub dot_dot : Runes
dot_dot = b'.' ∷ b'.' ∷ []

-- A step back: behind the root there is nothing, and behind the working directory its parent.
unfoldable pub pop : Bool → List Runes → List Runes
pop rooted [] = if rooted then [] else dot_dot ∷ []
pop rooted (w ∷ stack) = if same_text w dot_dot then dot_dot ∷ w ∷ stack else stack

unfoldable pub push : Bool → Runes → List Runes → List Runes
push rooted w stack =
    if is_empty w || same_text w dot
    then stack
    else if same_text w dot_dot
    then pop rooted stack
    else w ∷ stack

abbrev pub rev_onto : List Runes → List Runes → List Runes
rev_onto [] ws = ws
rev_onto (w ∷ stack) ws = rev_onto stack (w ∷ ws)

-- The words of a path that are left, where `stack` holds the last one first.
unfoldable pub resolve : Bool → List Runes → List Runes → List Runes
resolve rooted stack [] = rev_onto stack []
resolve rooted stack (w ∷ ws) = resolve rooted (push rooted w stack) ws

abbrev pub render : List Runes → Runes
render [] = []
render (w ∷ ws) = b'/' ∷ (w ++ render ws)

abbrev pub rooted_text : List Runes → Runes
rooted_text [] = b'/' ∷ []
rooted_text (w ∷ ws) = render (w ∷ ws)

abbrev pub relative_text : List Runes → Runes
relative_text [] = dot
relative_text (w ∷ ws) = w ++ render ws

-- `path.Clean`
unfoldable pub clean : Runes → Runes
clean [] = dot
clean (c ∷ cs) =
    if c == b'/'
    then rooted_text (resolve true [] (split b'/' cs))
    else relative_text (resolve false [] (split b'/' (c ∷ cs)))

abbrev pub is_abs : Runes → Bool
is_abs [] = false
is_abs (c ∷ cs) = c == b'/'

-- What stands before the last slash, with that slash.
unfoldable pub up_to_slash : Runes → Runes
up_to_slash [] = []
up_to_slash (c ∷ cs) =
    let rest = up_to_slash cs in if is_empty rest && not (c == b'/') then [] else c ∷ rest

-- `path.Dir`
unfoldable pub dir : Runes → Runes
dir p = clean (up_to_slash p)

-- `path.Join`, of two paths.
unfoldable pub join_path : Runes → Runes → Runes
join_path [] [] = []
join_path [] (c ∷ p) = clean (c ∷ p)
join_path (d ∷ dir) [] = clean (d ∷ dir)
join_path (d ∷ dir) (c ∷ p) = clean ((d ∷ dir) ++ b'/' ∷ c ∷ p)

unfoldable pub clean_dir_path : Runes → Runes
clean_dir_path p =
    let q = clean p in
    if is_abs q then q else if is_empty q || same_text q dot then dot else b'.' ∷ b'/' ∷ q

pub data PathMatch : Type 0 where
  no_match right_contains left_contains same_path : PathMatch

-- The shorter path stands before a slash in the longer one.
unfoldable pub is_under : Runes → Runes → Bool
is_under [] short = false
is_under (c ∷ long) [] = c == b'/'
is_under (c ∷ long) (d ∷ short) = c == d && is_under long short

unfoldable pub path_intersect : Runes → Runes → PathMatch
path_intersect p0 p1 =
    let a = clean_dir_path p0 in
    let b = clean_dir_path p1 in
    if length a == length b
    then if same_text a b then same_path else no_match
    else if ltb (length a) (length b)
    then if is_under b a then left_contains else no_match
    else if is_under a b
    then right_contains
    else no_match

-- `dn` is the root of the handler.
unfoldable pub get_path : Runes → Runes → Option Runes
get_path dn p =
    let q = join_path dn p in
    elim (path_intersect dn q) [
      | no_match ↦ none
      | right_contains ↦ none
      | left_contains ↦ some q
      | same_path ↦ some q
    ]

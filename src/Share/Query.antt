-- ===== src/Share/Query.antt =====
-- The command in the query of a request: `GetQryValuesCmd` of share/http.go.
pub mod Allowed
use tasked.Base.{
  if◌then◌else◌, Runes, codes, same_text, contains, is_empty, Bool, true, not, ◌&&◌, Option, none,
  some, List, [], ◌∷◌,
}

abbrev pub http_cmd_auth : Runes
http_cmd_auth = codes "auth"

abbrev pub http_cmd_all : Runes
http_cmd_all = codes "all_"

abbrev pub all_cmds : List Runes
all_cmds =
    codes "props"
    ∷ codes "search"
    ∷ codes "modprops"
    ∷ codes "delete"
    ∷ codes "mkdir"
    ∷ codes "copy"
    ∷ codes "rename"
    ∷ http_cmd_auth
    ∷ []

-- The commands that are not among the filters.
unfoldable pub filtered : List Runes → List Runes → List Runes
filtered filters [] = []
filtered filters (cmd ∷ cmds) =
    let rest = filtered filters cmds in if contains cmd filters then rest else cmd ∷ rest

-- The commands that are allowed: behind `all_`, the others are exceptions.
unfoldable pub expand_allowed : List Runes → List Runes
expand_allowed [] = []
expand_allowed (a ∷ more) =
    if same_text a http_cmd_all
    then elim more [ [] ↦ all_cmds | f ∷ fs ↦ filtered (f ∷ fs) all_cmds ]
    else a ∷ more

unfoldable pub all_found : List Runes → List Runes → Bool
all_found [] allowed = true
all_found (cmd ∷ cmds) allowed = contains cmd allowed && all_found cmds allowed

-- `cmds` is `qry[HttpCmdKey]`; none is the error `InvalidQryCmd`.
unfoldable pub get_qry_values_cmd : List Runes → List Runes → Option Runes
get_qry_values_cmd cmds allowed =
    if not (all_found cmds (expand_allowed allowed))
    then none
    else elim cmds [ [] ↦ some [] | cmd ∷ rest ↦ if is_empty rest then some cmd else none ]

-- ===== src/Share/Query/Allowed.antt =====
-- Which commands `GetQryValuesCmd` of share/http.go lets through.
use tasked.Base.{
  Runes, same_text_iff, contains, ◌≡◌, refl, ◌↔◌, ◌⊎◌, true, false, not, ◌&&◌, some, List, [], ◌∷◌,
  arith,
}
use tasked.Share.Query.{
  http_cmd_all, all_cmds, filtered, expand_allowed, all_found, get_qry_values_cmd,
}

contains-filtered :
    (c : Runes) (filters cmds : List Runes)
    → contains c (filtered filters cmds) ≡ (contains c cmds && not (contains c filters))
unfolding filtered contains
contains-filtered c filters [] = refl
contains-filtered c filters (cmd ∷ cmds) =
    ground (arith, contains-filtered c filters cmds, same_text_iff c cmd)

contains-nil : (c : Runes) → contains c [] ≡ false
unfolding contains
contains-nil c = refl

-- Behind `all_`, just the commands of the server are allowed that are not named as exceptions.
pub contains-expand_allowed :
    (c : Runes) (filters : List Runes)
    → contains c (expand_allowed (http_cmd_all ∷ filters))
      ≡ (contains c all_cmds && not (contains c filters))
unfolding expand_allowed
contains-expand_allowed c [] =
    ground (arith, contains-nil c, (same_text_iff http_cmd_all http_cmd_all).1 refl)
contains-expand_allowed c (f ∷ fs) =
    ground (
      arith,
      contains-filtered c (f ∷ fs) all_cmds,
      (same_text_iff http_cmd_all http_cmd_all).1 refl,
    )

-- A request has a command, or none, just if its query holds one that is allowed, or none: not with two
-- commands, even if they are the same, and not with one that is not allowed.
pub get_qry_values_cmd_iff :
    (cmds allowed : List Runes) (c : Runes)
    → (get_qry_values_cmd cmds allowed ≡ some c)
      ↔ ((cmds ≡ [] × c ≡ []) ⊎ (cmds ≡ c ∷ [] × contains c (expand_allowed allowed) ≡ true))
unfolding get_qry_values_cmd all_found
get_qry_values_cmd_iff [] allowed c = ground arith
get_qry_values_cmd_iff (d ∷ []) allowed c = ground arith
get_qry_values_cmd_iff (d ∷ e ∷ cmds) allowed c = ground arith

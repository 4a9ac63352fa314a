-- ===== src/Htfile/Members.antt =====
-- The members of the object that `modpropsf` of htfile/htfile.go reads.
use tasked.Base.{if◌then◌else◌, Runes, codes, same_text, ℕ, Option, none, some, List, [], ◌∷◌}
use tasked.Base.Options.{◌>>=◌}
use tasked.Htfile.Request.{natural, Json, number, text}

-- How the changes of `modpropsf` are collected: a mode of -1 is none.
pub record Changes : Type 0 where
  pub mode : Option ℕ
  pub owner : Runes
  pub group : Runes

abbrev pub no_changes : Changes
no_changes = record { mode = none; owner = []; group = [] }

-- The type assertions on a member, and the checks behind them.
abbrev pub on_number : Json → (ℕ → Option Changes) → Option Changes
on_number (number (natural n)) k = k n
on_number _ k = none

abbrev pub on_text : Json → (Runes → Option Changes) → Option Changes
on_text (text t) k = k t
on_text _ k = none

-- One member of the object; none is a bad request.
unfoldable pub add_member : Runes → Json → Changes → Option Changes
add_member k v c =
    if same_text k (codes "mode")
    then (on_number v λ n. some (record c { mode = some n }))
    else if same_text k (codes "owner")
    then (on_text v λ t. some (record c { owner = t }))
    else if same_text k (codes "group")
    then (on_text v λ t. some (record c { group = t }))
    else none

unfoldable pub add_members : List (Runes × Json) → Changes → Option Changes
add_members [] c = some c
add_members ((k, v) ∷ ms) c = add_member k v c >>= λ c'. add_members ms c'

-- ===== src/Share/Examples.antt =====
-- The parts of share/http.go at concrete inputs.
use tasked.Base.{}
use tasked.Share.Query.{http_cmd_all, filtered, expand_allowed, all_found, get_qry_values_cmd}
use tasked.Share.Query.Allowed.{get_qry_values_cmd_iff}
use tasked.Share.Filters.{Filter}
use tasked.Base.{
  Runes, codes, same_text, contains, split, ℕ, ◌+◌, ◌≡◌, refl, ◌↔◌, ◌⊎◌, Bool, true, none, some,
  List, [], ◌∷◌,
}
use tasked.Htfile.Paths.{pop, push, resolve, clean, join_path}
use tasked.Share.Json.{no_error, Decoder, accepted, body_too_large, of_decoded, read_json_request}
use tasked.Share.Fs.{abspath, abspath_not_empty}
use tasked.Share.Reading.{Call, bytes, max_read_exceeded, read, read_all}

get_qry_values_cmd_lem :
    (get_qry_values_cmd (codes "props" ∷ []) (http_cmd_all ∷ codes "auth" ∷ [])
      ≡ some (codes "props"))
    × (get_qry_values_cmd (codes "auth" ∷ []) (http_cmd_all ∷ codes "auth" ∷ []) ≡ none)
    × (get_qry_values_cmd (codes "copy" ∷ codes "copy" ∷ []) (http_cmd_all ∷ []) ≡ none)
unfolding get_qry_values_cmd all_found expand_allowed filtered contains same_text
get_qry_values_cmd_lem = (refl, refl, refl)

get_qry_values_cmd_iff_example :
    (get_qry_values_cmd (codes "copy" ∷ []) (codes "copy" ∷ []) ≡ some (codes "copy")) ↔ (
      (◌≡◌ {A = List Runes} (codes "copy" ∷ []) [] × ◌≡◌ {A = Runes} (codes "copy") [])
      ⊎ (codes "copy" ∷ [] ≡ codes "copy" ∷ []
          × contains (codes "copy") (expand_allowed (codes "copy" ∷ [])) ≡ true))
get_qry_values_cmd_iff_example =
    get_qry_values_cmd_iff (codes "copy" ∷ []) (codes "copy" ∷ []) (codes "copy")

-- Filters that add to a list, of which the second handles the request.
abbrev mark : ℕ → Bool → Filter (List ℕ) ℕ
mark n h w d = record { response = n ∷ w; d = d + n; handled = h }

abbrev calls : List Call
calls =
    record { room = 4; has = 9 } ∷ record { room = 9; has = 9 } ∷ record { room = 1; has = 1 } ∷ []

read_all_lem : read_all 6 calls ≡ (0, bytes 4 ∷ bytes 2 ∷ max_read_exceeded ∷ [])
unfolding read_all read
read_all_lem = refl

-- A body of three bytes, which is one JSON value.
abbrev three : Decoder
three = record {
  calls = record { room = 8; has = 3 } ∷ [];
  decode = λ gs. no_error;
  buffered = λ gs. 0;
}

read_json_request_lem :
    (read_json_request 3 three ≡ body_too_large)
    × (read_json_request 4 three ≡ accepted)
    × (read_json_request 0 three ≡ accepted)
unfolding read_json_request of_decoded read_all read
read_json_request_lem = (refl, refl, refl)

fs_lem :
    (abspath (codes "a/../b") (codes "/srv") ≡ codes "/srv/b")
    × (abspath (codes "/b") (codes "/srv") ≡ codes "/b")
    × (abspath_not_empty [] (codes "/srv") ≡ [])
unfolding abspath abspath_not_empty join_path clean resolve push pop split same_text
fs_lem = (refl, refl, refl)

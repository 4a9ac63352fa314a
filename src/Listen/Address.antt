-- ===== src/Listen/Address.antt =====
-- `parseAddress` and `getListenerParams` of listen.go. The regular expression is written out as what it
-- matches; `strconv` is a parameter.
use mathlib.Core.Option
use tasked.Base.{
  leb, ◌==◌, if◌then◌else◌, Runes, codes, is_empty, ℕ, zero, suc, ◌%◌, ◌^◌, Bool, true, false, not,
  ◌&&◌, ◌||◌, Option, none, some, [], ◌∷◌, ◌++◌,
}

-- The schema of an address, where it has one.
pub data Schema : Type 0 where
  no_schema schema_http schema_https schema_unix : Schema

pub record Address : Type 0 where
  pub schema : Schema
  pub val : Runes
  pub port : ℕ

unfoldable pub strip_prefix : Runes → Runes → Option Runes
strip_prefix [] s = some s
strip_prefix (c ∷ cs) [] = none
strip_prefix (c ∷ cs) (d ∷ s) = if c == d then strip_prefix cs s else none

abbrev pub is_digit : ℕ → Bool
is_digit c = leb b'0' c && leb c b'9'

unfoldable pub all_digits : Runes → Bool
all_digits [] = true
all_digits (c ∷ cs) = is_digit c && all_digits cs

-- `(:(\d+))?$`: the digits.
unfoldable pub port_of : Runes → Option Runes
port_of [] = some []
port_of (c ∷ cs) = if c == b':' && not (is_empty cs) && all_digits cs then some cs else none

-- `[^:]*`, and what follows.
unfoldable pub before_colon : Runes → Runes × Runes
before_colon [] = ([], [])
before_colon (c ∷ cs) =
    if c == b':' then ([], c ∷ cs) else let (w, rest) = before_colon cs in (c ∷ w, rest)

-- `.*\]` with `(:(\d+))?$` behind it, up to the last bracket that will do.
unfoldable pub to_bracket : Runes → Option (Runes × Runes)
to_bracket [] = none
to_bracket (c ∷ cs) =
    let later = to_bracket cs in
    if c == b'\n' then none else elim later [
      | some (w, ds) ↦ some (c ∷ w, ds)
      | none ↦ if c == b']' then Option.map (λ ds. (c ∷ [], ds)) (port_of cs) else none
    ]

-- `(\[.*\])` with what follows.
unfoldable pub bracketed : Runes → Option (Runes × Runes)
bracketed [] = none
bracketed (c ∷ cs) = if c == b'[' then Option.map (λ r. (c ∷ r.0, r.1)) (to_bracket cs) else none

-- `/{0,2}`
unfoldable pub drop_slashes : ℕ → Runes → Runes
drop_slashes zero s = s
drop_slashes (suc n) [] = []
drop_slashes (suc n) (c ∷ cs) = if c == b'/' then drop_slashes n cs else c ∷ cs

-- The host and the digits of the port.
unfoldable pub authority : Runes → Option (Runes × Runes)
authority s =
    let t = drop_slashes 2 s in
    let (w, rest) = before_colon t in
    elim (port_of rest) [ some ds ↦ some (w, ds) | none ↦ bracketed t ]

-- The schema at the start, and what stands behind its colon.
unfoldable pub scheme_of : Runes → Option (Schema × Runes)
scheme_of s = elim (strip_prefix (codes "https:") s) [
  | some rest ↦ some (schema_https, rest)
  | none ↦ elim (strip_prefix (codes "http:") s) [
    | some rest ↦ some (schema_http, rest)
    | none ↦ Option.map (λ rest. (schema_unix, rest)) (strip_prefix (codes "unix:") s)
  ]
]

abbrev has_newline : Runes → Bool
has_newline [] = false
has_newline (c ∷ cs) = c == b'\n' || has_newline cs

-- `(unix:(.*)$)`, which is not bound to the start.
unfoldable pub unix_anywhere : Runes → Option Runes
unix_anywhere [] = none
unix_anywhere (c ∷ cs) =
    let later = unix_anywhere cs in
    elim (strip_prefix (codes "unix:") (c ∷ cs)) [
      | some rest ↦ if has_newline rest then later else some rest
      | none ↦ later
    ]

-- The groups of a match: the schema, what follows it, the host, the port, and the unix address.
pub record Match : Type 0 where
  pub sch : Schema
  pub any_addr : Runes
  pub tcp_addr : Runes
  pub tcp_port : Runes
  pub unix_addr : Runes

abbrev pub authority_match : Schema → Runes → Runes × Runes → Match
authority_match sch s (host, ds) = record {
  sch = sch;
  any_addr = s;
  tcp_addr = host;
  tcp_port = ds;
  unix_addr = [];
}

abbrev pub unix_match : Runes → Match
unix_match u = record {
  sch = no_schema;
  any_addr = [];
  tcp_addr = [];
  tcp_port = [];
  unix_addr = u;
}

-- A match with no schema, or of a unix address anywhere.
unfoldable pub match_plain : Runes → Option Match
match_plain s = elim (authority s) [
  | some r ↦ some (authority_match no_schema s r)
  | none ↦ Option.map unix_match (unix_anywhere s)
]

-- `addressRx.FindStringSubmatch`
unfoldable pub find_submatch : Runes → Option Match
find_submatch s = elim (scheme_of s) [
  | none ↦ match_plain s
  | some (sch, rest) ↦ elim (authority rest) [
    | some r ↦ some (authority_match sch rest r)
    | none ↦ match_plain s
  ]
]

abbrev pub is_unix : Schema → Bool
is_unix schema_unix = true
is_unix _ = false

-- `strconv.Atoi` of digits, and `strconv.FormatUint`.
pub record Strconv : Type 0 where
  pub atoi : Runes → Option ℕ
  pub format_uint : ℕ → Runes

-- The port is a `uint16`.
unfoldable pub tcp_address : Strconv → Match → Option Address
tcp_address conv m =
    if is_empty m.tcp_port
    then some record { schema = m.sch; val = m.tcp_addr; port = 0 }
    else Option.map (λ p. record { schema = m.sch; val = m.tcp_addr; port = p % 2 ^ 16 })
        (conv.atoi m.tcp_port)

unfoldable pub address_of : Strconv → Match → Option Address
address_of conv m =
    if is_unix m.sch
    then some record { schema = schema_unix; val = m.any_addr; port = 0 }
    else if not (is_empty m.unix_addr)
    then some record { schema = schema_unix; val = m.unix_addr; port = 0 }
    else tcp_address conv m

unfoldable pub parse_address : Strconv → Runes → Option Address
parse_address conv s = elim (find_submatch s) [ none ↦ none | some m ↦ address_of conv m ]

abbrev pub default_port : ℕ
default_port = 9090

-- The network and the address for `net.Listen`.
unfoldable pub get_listener_params : Strconv → (pid : ℕ) → Address → Runes × Runes
get_listener_params conv pid a =
    if is_unix a.schema
    then (
      codes "unixpacket",
      if is_empty a.val then codes "nlet-" ++ conv.format_uint pid else a.val,
    )
    else (
      codes "tcp",
      a.val ++ b':' ∷ conv.format_uint (if a.port == 0 then default_port else a.port),
    )

-- ===== src/Htfile/Request.antt =====
-- What the handlers of htfile/htfile.go read of a request, and what they answer. The body of a JSON
-- request is what `ReadJsonRequest` makes of it; the encoding of a response does not fail.
use tasked.Base.{Runes, ℕ, ◌+◌, ◌*◌, ◌/◌, ◌%◌, Bool, true, false, Option, none, some, List}
use tasked.Share.Errors.{OsError, os_error_status}
use tasked.Htfile.Io.{Stat, Result, ok, fails, Io, done}
use tasked.Htfile.Files.{Types}

-- The map of `toPropertyMap`; the last fields are those for the owner of a file.
pub record Props : Type 0 where
  pub name : Runes
  pub size : ℕ
  pub mod_time : ℕ
  pub is_dir : Bool
  pub mode : Option ℕ
  pub user : Option Runes
  pub group : Option Runes
  pub times : Option Stat
  pub dirname : Option Runes

-- What a handler answers: an error response, a JSON text, a file's text, or nothing, which is success.
pub data Reply : Type 0 where
  empty : Reply
  error_response : ℕ → Reply
  property_map : Props → Reply
  property_maps : List Props → Reply
  content : (content_type : Runes) → (size : ℕ) → (text : Option (Result Runes)) → Reply

-- A number of a JSON text: none where it is no `int64`, and negative, or not.
pub data Number : Type 0 where
  no_int : Number
  negative : Number
  natural : ℕ → Number

pub data Json : Type 0 where
  number : Number → Json
  text : Runes → Json
  other : Json

-- What `ReadJsonRequest` gives for a body: one of its errors, or the members of the object.
pub data JsonBody : Type 0 where
  too_large invalid : JsonBody
  members : List (Runes × Json) → JsonBody

-- The body as it is read: its bytes, and whether reading ends with an error.
pub record Body : Type 0 where
  pub bytes : Runes
  pub broken : Bool

-- The values of the query, and `err` where it does not parse.
pub record Query : Type 0 where
  pub cmds : List Runes
  pub to : Option (List Runes)
  pub max : Option (List Runes)
  pub name : List Runes
  pub content : List Runes

pub record Request : Type 0 where
  pub method : Runes
  pub path : Runes
  pub qry : Option Query
  pub json : JsonBody
  pub body : Body

-- The libraries: `strconv.Atoi` with 0 for a negative number, and regexp.
pub record Libraries : Type 0 where
  pub atoi : Runes → Option ℕ
  pub compiles : Runes → Bool
  pub match_string : Runes → Runes → Bool
  pub types : Types

-- The struct `handler`. A limit that is not positive is 0.
pub record Handler : Type 0 where
  pub dn : Runes
  pub max_request_body : ℕ
  pub max_search_results : ℕ

abbrev pub mode_mask : ℕ
mode_mask = 512

-- `n &^ modeMask | m & modeMask`, where the mask is the 9 lowest bits.
unfoldable pub replace_mode : ℕ → ℕ → ℕ
replace_mode n m = n / mode_mask * mode_mask + m % mode_mask

-- `CheckHandle`
abbrev pub check : Bool → ℕ → Io Reply → Io Reply
check true status k = k
check false status k = done (error_response status)

-- `CheckHandle(w, err == nil, status)`, for a value with an error.
abbrev pub on_some : {A : Type 0} → Option A → ℕ → (A → Io Reply) → Io Reply
on_some none status k = done (error_response status)
on_some (some a) status k = k a

-- `CheckHandle(w, err == nil, status)`
abbrev pub on_none : Option OsError → ℕ → Io Reply → Io Reply
on_none none status k = k
on_none (some e) status k = done (error_response status)

-- `CheckOsError`
abbrev pub check_os : Option OsError → Io Reply → Io Reply
check_os none k = k
check_os (some e) k = done (error_response (os_error_status e))

abbrev pub on_ok : {A : Type 0} → Result A → (A → Io Reply) → Io Reply
on_ok (fails e) k = done (error_response (os_error_status e))
on_ok (ok a) k = k a

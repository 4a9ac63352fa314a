-- ===== src/Keyval/Parser.antt =====
-- `parseFile` of keyval/keyval.go: a state machine that reads one rune at a time.
use tasked.Base.{
  leb, ◌==◌, if◌then◌else◌, Runes, is_empty, ℕ, Bool, true, false, not, ◌&&◌, ◌||◌, Option, none,
  some, List, [], ◌∷◌, ◌++◌,
}

pub record Entry : Type 0 where
  pub key : Runes
  pub val : Runes

-- `escState` is a set of the bits `escOne`, `escSingle` and `escDouble`.
pub record EscState : Type 0 where
  pub one : Bool
  pub single : Bool
  pub double : Bool

abbrev pub no_esc : EscState
no_esc = record { one = false; single = false; double = false }

abbrev pub esc_single : EscState
esc_single = record { one = false; single = true; double = false }

abbrev pub esc_double : EscState
esc_double = record { one = false; single = false; double = true }

pub data TokenState : Type 0 where
  undefined key value comment : TokenState

-- The variables of `parseFile`. The pointer `e` is nil until `next` runs, and then points at the
-- last element of `es`: `earlier` holds the elements of `es` before it.
pub record Parser : Type 0 where
  pub ts : TokenState
  pub escn : EscState
  pub earlier : List Entry
  pub e : Option Entry
  pub token : Runes
  pub spaces : Runes

abbrev pub init : Parser
init = record { ts = undefined; escn = no_esc; earlier = []; e = none; token = []; spaces = [] }

-- A write through a nil pointer panics.
pub data Step : Type 0 where
  run_on : Parser → Step
  panic : Step

abbrev pub is_undefined : TokenState → Bool
is_undefined undefined = true
is_undefined _ = false

abbrev pub is_value : TokenState → Bool
is_value value = true
is_value _ = false

abbrev pub is_comment : TokenState → Bool
is_comment comment = true
is_comment _ = false

abbrev pub is_esc : EscState → Bool
is_esc s = s.one || s.single || s.double

abbrev pub to_list {ℓ} : {A : Type ℓ} → Option A → List A
to_list none = []
to_list (some a) = a ∷ []

-- `unicode.IsSpace`, which is White_Space of Unicode.
unfoldable pub is_space : ℕ → Bool
is_space c =
    (leb 9 c && leb c 13)
    || c == 0x20
    || c == 0x85
    || c == 0xa0
    || c == 0x1680
    || (leb 0x2000 c && leb c 0x200a)
    || c == 0x2028
    || c == 0x2029
    || c == 0x202f
    || c == 0x205f
    || c == 0x3000

unfoldable pub next : Parser → Parser
next p = record p {
  earlier = p.earlier ++ to_list p.e;
  e = some (record { key = []; val = [] });
  ts = key;
}

-- The `bytes.Buffer`s never fail, so neither does `write`.
unfoldable pub write : ℕ → Parser → Parser
write c p =
    let q = if is_undefined p.ts then next p else p in
    record q {
      token = (if is_empty q.token then [] else q.token ++ q.spaces) ++ c ∷ [];
      spaces = [];
    }

-- `e.Val = flush()`
unfoldable pub flush_val : Parser → Step
flush_val p = elim p.e [
  | none ↦ panic
  | some x ↦ run_on (record p { e = some (record x { val = p.token }); token = []; spaces = [] })
]

-- `e.Key = string(flush()); ts = value`
unfoldable pub flush_key : Parser → Step
flush_key p = elim p.e [
  | none ↦ panic
  | some x ↦
      run_on
        (record p { e = some (record x { key = p.token }); token = []; spaces = []; ts = value })
]

-- `if token.Len() > 0 { e.Val = flush() }`
unfoldable pub flush_token : Parser → Step
flush_token p = if is_empty p.token then run_on p else flush_val p

abbrev set_ts : TokenState → Step → Step
set_ts t (run_on p) = run_on (record p { ts = t })
set_ts t panic = panic

-- The loop body after `esc := escn; escn &^= escOne`, one function for each case of the switch on
-- the rune; `esc` is the old escape state, and `p` holds the new one.
unfoldable pub on_backslash : EscState → Parser → Step
on_backslash esc p =
    if esc.one
    then run_on (write b'\\' p)
    else run_on
        (record p { escn = record { one = true; single = p.escn.single; double = p.escn.double } })

unfoldable pub on_single : EscState → Parser → Step
on_single esc p =
    if is_comment p.ts
    then run_on p
    else if esc.one || esc.double
    then run_on (write b'\'' p)
    else run_on (record p { escn = if esc.single then no_esc else esc_single })

unfoldable pub on_double : EscState → Parser → Step
on_double esc p =
    if is_comment p.ts
    then run_on p
    else if esc.one || esc.single
    then run_on (write b'"' p)
    else run_on (record p { escn = if esc.double then no_esc else esc_double })

unfoldable pub on_equals : EscState → Parser → Step
on_equals esc p =
    if is_comment p.ts
    then run_on p
    else if is_esc esc || is_value p.ts
    then run_on (write b'=' p)
    else flush_key (if is_undefined p.ts then next p else p)

unfoldable pub on_newline : EscState → Parser → Step
on_newline esc p =
    if is_esc esc && is_comment p.ts
    then run_on p
    else if is_esc esc
    then run_on (write b'\n' p)
    else if is_undefined p.ts
    then run_on p
    else set_ts undefined (flush_token p)

unfoldable pub on_hash : EscState → Parser → Step
on_hash esc p =
    if is_comment p.ts
    then run_on p
    else if is_esc esc
    then run_on (write b'#' p)
    else run_on (record p { ts = comment })

unfoldable pub on_other : ℕ → EscState → Parser → Step
on_other c esc p =
    if is_comment p.ts
    then run_on p
    else if not (is_esc esc) && is_space c
    then run_on (record p { spaces = p.spaces ++ c ∷ [] })
    else run_on (write c p)

unfoldable pub on_rune : ℕ → EscState → Parser → Step
on_rune c esc p =
    if c == b'\\'
    then on_backslash esc p
    else if c == b'\''
    then on_single esc p
    else if c == b'"'
    then on_double esc p
    else if c == b'='
    then on_equals esc p
    else if c == b'\n'
    then on_newline esc p
    else if c == b'#'
    then on_hash esc p
    else on_other c esc p

unfoldable pub step : ℕ → Parser → Step
step c p =
    on_rune c p.escn
      (record p { escn = record { one = false; single = p.escn.single; double = p.escn.double } })

abbrev pub entries : Parser → List Entry
entries p = p.earlier ++ to_list p.e

-- What `parseFile` gives: the entries with the reader's error, or a panic.
pub data Parsed (E : Type 0) : Type 0 where
  returns : List Entry → Option E → Parsed E
  panics : Parsed E

abbrev pub finish : {E : Type 0} → Option E → Step → Parsed E
finish err (run_on p) = returns (entries p) err
finish err panic = panics

-- The loop over the runes of the reader; `err` is the error with which the reader ends, `none`
-- where that is `io.EOF`.
unfoldable pub run : {E : Type 0} → Option E → Runes → Step → Parsed E
run err cs panic = panics
run err [] (run_on p) = finish err (flush_token p)
run err (c ∷ cs) (run_on p) = run err cs (step c p)

unfoldable pub parse_file : {E : Type 0} → Runes → Option E → Parsed E
unfolding run step on_rune on_backslash on_single on_double on_equals on_newline on_hash on_other
    write next flush_key flush_token flush_val is_space
parse_file cs err = run err cs (run_on init)

-- ===== src/Keyval/Panic.antt =====
-- Where `parseFile` of keyval/keyval.go writes through its nil entry pointer, and where it does not.
use tasked.Base.{
  ◌==◌, Runes, ℕ, ◌≡◌, refl, ap, ◌⊎◌, inl, Bool, true, false, not, ◌&&◌, Option, none, List, [],
  ◌∷◌, arith,
}
use tasked.Keyval.Parser.{
  Entry, EscState, undefined, comment, Parser, init, Step, run_on, panic, is_comment, next, write,
  flush_val, flush_key, flush_token, on_backslash, on_single, on_double, on_equals, on_newline,
  on_hash, on_other, on_rune, step, Parsed, returns, panics, finish, run, parse_file,
}

-- No backslash stands behind a backslash. The flag says whether one stands before the text.
unfoldable pub lone_backslashes : Bool → Runes → Bool
lone_backslashes before [] = true
lone_backslashes before (c ∷ cs) = not (before && c == b'\\') && lone_backslashes (c == b'\\') cs

-- While `e` is nil, nothing was read that belongs to an entry.
record IsHeld (p : Parser) : Type 0 where
  no_token : p.e ≡ none → p.token ≡ []
  no_entry : p.e ≡ none → (p.ts ≡ undefined) ⊎ (p.ts ≡ comment)

abbrev Holds : Bool → Step → Type 0
Holds b (run_on q) = IsHeld q × (q.escn.one ≡ true → b ≡ true)
Holds b panic = ⊥

write-Holds :
    (b : Bool) (c : ℕ) (p : Parser)
    → IsHeld p
    → is_comment p.ts ≡ false
    → p.escn.one ≡ false
    → Holds b (run_on (write c p))
unfolding write next
write-Holds b c p h k l = ground arith

backslash-Holds :
    (esc : EscState) (p : Parser)
    → IsHeld p
    → p.escn.one ≡ false
    → (esc.one && is_comment p.ts) ≡ false
    → Holds true (on_backslash esc p)
unfolding on_backslash
backslash-Holds esc p h k l = ground (arith, write-Holds true b'\\' p h)

module _ (esc : EscState) (p : Parser) (h : IsHeld p) (k : p.escn.one ≡ false) where
  single-Holds : Holds false (on_single esc p)
  unfolding on_single
  single-Holds = ground (arith, write-Holds false b'\'' p h)

  double-Holds : Holds false (on_double esc p)
  unfolding on_double
  double-Holds = ground (arith, write-Holds false b'"' p h)

  equals-Holds : Holds false (on_equals esc p)
  unfolding on_equals flush_key next
  equals-Holds = ground (arith, write-Holds false b'=' p h)

  newline-Holds : Holds false (on_newline esc p)
  unfolding on_newline flush_token flush_val
  newline-Holds = ground (arith, write-Holds false b'\n' p h)

  hash-Holds : Holds false (on_hash esc p)
  unfolding on_hash
  hash-Holds = ground (arith, write-Holds false b'#' p h)

  other-Holds : (c : ℕ) → Holds false (on_other c esc p)
  unfolding on_other
  other-Holds c = ground (arith, write-Holds false c p h)

step-Holds :
    (c : ℕ) (p : Parser)
    → IsHeld p
    → (p.escn.one && c == b'\\') ≡ false
    → Holds (c == b'\\') (step c p)
unfolding step on_rune
step-Holds c p h k = ground (
  arith,
  backslash-Holds p.escn (settled p) settled_held refl,
  single-Holds p.escn (settled p) settled_held refl,
  double-Holds p.escn (settled p) settled_held refl,
  equals-Holds p.escn (settled p) settled_held refl,
  newline-Holds p.escn (settled p) settled_held refl,
  hash-Holds p.escn (settled p) settled_held refl,
  other-Holds p.escn (settled p) settled_held refl c,
)
  where
    settled : Parser → Parser
    settled p = record p {
      escn = record { one = false; single = p.escn.single; double = p.escn.double };
    }

    settled_held : IsHeld (settled p)
    settled_held = record { no_token = h.no_token; no_entry = h.no_entry }

-- `r` holds entries, and the error with which the reader ended.
abbrev Returns : {E : Type 0} → Option E → Parsed E → Type 0
Returns err (returns es e) = e ≡ err
Returns err panics = ⊥

finish-Returns :
    {E : Type 0} (err : Option E) (p : Parser) → IsHeld p → Returns err (finish err (flush_token p))
unfolding flush_token flush_val
finish-Returns err p h = ground arith

step_lone :
    (b : Bool) (c : ℕ) (cs : Runes) (p : Parser)
    → (p.escn.one ≡ true → b ≡ true)
    → lone_backslashes b (c ∷ cs) ≡ true
    → ((p.escn.one && c == b'\\') ≡ false) × (lone_backslashes (c == b'\\') cs ≡ true)
unfolding lone_backslashes
step_lone b c cs p h k = ground arith

run-Returns :
    {E : Type 0} (err : Option E) (b : Bool) (cs : Runes) (s : Step)
    → Holds b s
    → lone_backslashes b cs ≡ true
    → Returns err (run err cs s)
unfolding run
run-Returns err b cs panic h k = absurd h
run-Returns err b [] (run_on p) h k = finish-Returns err p h.0
run-Returns err b (c ∷ cs) (run_on p) h k =
    let l = step_lone b c cs p h.1 k in
    run-Returns err (c == b'\\') cs (step c p) (step-Holds c p h.0 l.0) l.1

returned :
    {E : Type 0} (err : Option E) (r : Parsed E)
    → Returns err r
    → (es : List Entry) × (r ≡ returns es err)
returned err (returns es e) h = (es, ap (returns es) h)
returned err panics h = absurd h

-- On a text in which no backslash stands right behind another, `parseFile` does not panic: it
-- returns entries, with the error with which the reader ends.
pub parse_file-Returns :
    {E : Type 0} (err : Option E) (cs : Runes)
    → lone_backslashes false cs ≡ true
    → (es : List Entry) × (parse_file cs err ≡ returns es err)
unfolding parse_file
parse_file-Returns err cs k = returned err (parse_file cs err) (
    run-Returns err false cs (run_on init)
      ((record { no_token = λ _. refl; no_entry = λ _. inl refl }, λ e. e)) k)

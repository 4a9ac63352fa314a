-- ===== src/Keyval/Quoting.antt =====
-- The parser of keyval/keyval.go read against a printer: how the escapes are meant to be written.
use tasked.Base.{
  ◌==◌, Bool-cases, Runes, ℕ, ◌≡◌, refl, sym, ap, ◌∙◌, inl, inr, true, false, ◌||◌, Option, [], ◌∷◌,
  ◌++◌, append-nil, append_assoc, arith,
}
use tasked.Keyval.Parser.{
  EscState, no_esc, esc_single, esc_double, Parser, run_on, is_undefined, is_comment, next, write,
  on_backslash, on_single, on_double, on_equals, on_newline, on_hash, on_other, on_rune, step, run,
}
use tasked.Keyval.Printer.{Style, bare, single, double, escaped, between, quote}

-- `write` for each rune of a text.
abbrev pub writes : Runes → Parser → Parser
writes [] p = p
writes (c ∷ cs) p = writes cs (write c p)

abbrev with_esc : EscState → Parser → Parser
with_esc s p = record p { escn = s }

write-with_esc :
    (s : EscState) (c : ℕ) (p : Parser) → write c (with_esc s p) ≡ with_esc s (write c p)
unfolding write next
write-with_esc s c p = ground arith

writes-with_esc :
    (s : EscState) (t : Runes) (p : Parser) → writes t (with_esc s p) ≡ with_esc s (writes t p)
writes-with_esc s [] p = refl
writes-with_esc s (c ∷ cs) p = rw (write-with_esc s c p) (writes-with_esc s cs (write c p))

write_comment : (c : ℕ) (p : Parser) → is_comment p.ts ≡ false → is_comment (write c p).ts ≡ false
unfolding write next
write_comment c p h = ground arith

write-escn : (c : ℕ) (p : Parser) → (write c p).escn ≡ p.escn
unfolding write next
write-escn c p = ground arith

-- The escape state behind a rune, where no backslash stood before it.
with_esc_self :
    (p : Parser)
    → p.escn.one ≡ false
    → with_esc (record { one = false; single = p.escn.single; double = p.escn.double }) p ≡ p
with_esc_self p h = ground arith

with_esc-same : (s : EscState) (p : Parser) → p.escn ≡ s → with_esc s p ≡ p
with_esc-same s p h = ap (λ x. with_esc x p) (sym h)

on_rune_escaped :
    (c : ℕ) (esc : EscState) (p : Parser)
    → esc.one ≡ true
    → is_comment p.ts ≡ false
    → on_rune c esc p ≡ run_on (write c p)
unfolding on_rune on_backslash on_single on_double on_equals on_newline on_hash on_other
on_rune_escaped c esc p h k = ground arith

step_backslash :
    (p : Parser)
    → p.escn.one ≡ false
    → step b'\\' p ≡ run_on (with_esc (record p.escn { one = true }) p)
unfolding step on_rune on_backslash
step_backslash p h = ground arith

-- A backslash takes the next rune as it is, whatever it is and whatever the quotes.
step_escaped :
    (c : ℕ) (p : Parser)
    → p.escn.one ≡ false
    → is_comment p.ts ≡ false
    → step c (with_esc (record p.escn { one = true }) p) ≡ run_on (write c p)
unfolding step
step_escaped c p h k =
    on_rune_escaped c _ _ refl k ∙ ap (λ q. run_on (write c q)) (with_esc_self p h)

step_single :
    (c : ℕ) (p : Parser)
    → p.escn ≡ esc_single
    → is_comment p.ts ≡ false
    → (c == b'\'' || c == b'\\') ≡ false
    → step c p ≡ run_on (write c p)
unfolding step on_rune on_backslash on_single on_double on_equals on_newline on_hash on_other
step_single c p h k l = ground (arith, with_esc_self p)

step_double :
    (c : ℕ) (p : Parser)
    → p.escn ≡ esc_double
    → is_comment p.ts ≡ false
    → (c == b'"' || c == b'\\') ≡ false
    → step c p ≡ run_on (write c p)
unfolding step on_rune on_backslash on_single on_double on_equals on_newline on_hash on_other
step_double c p h k l = ground (arith, with_esc_self p)

-- What `run` reads of a quoted text from outside quotes: the runes of the text, and no more.
pub writes_comment :
    (t : Runes) (p : Parser) → is_comment p.ts ≡ false → is_comment (writes t p).ts ≡ false
writes_comment [] p h = h
writes_comment (c ∷ cs) p h = writes_comment cs (write c p) (write_comment c p h)

pub writes-escn : (t : Runes) (p : Parser) → (writes t p).escn ≡ p.escn
writes-escn [] p = refl
writes-escn (c ∷ cs) p = writes-escn cs (write c p) ∙ write-escn c p

open_single :
    (p : Parser)
    → p.escn ≡ no_esc
    → is_comment p.ts ≡ false
    → step b'\'' p ≡ run_on (with_esc esc_single p)
unfolding step on_rune on_single
open_single p h k = ground arith

open_double :
    (p : Parser)
    → p.escn ≡ no_esc
    → is_comment p.ts ≡ false
    → step b'"' p ≡ run_on (with_esc esc_double p)
unfolding step on_rune on_double
open_double p h k = ground arith

close_single :
    (p : Parser)
    → p.escn ≡ esc_single
    → is_comment p.ts ≡ false
    → step b'\'' p ≡ run_on (with_esc no_esc p)
unfolding step on_rune on_single
close_single p h k = ground arith

close_double :
    (p : Parser)
    → p.escn ≡ esc_double
    → is_comment p.ts ≡ false
    → step b'"' p ≡ run_on (with_esc no_esc p)
unfolding step on_rune on_double
close_double p h k = ground arith

write_token :
    (c : ℕ) (p : Parser)
    → is_undefined p.ts ≡ false
    → p.spaces ≡ []
    → write c p ≡ record p { token = p.token ++ c ∷ [] }
unfolding write
write_token c p h k = ground (arith, append-nil p.token)

pub writes_token :
    (t : Runes) (p : Parser)
    → is_undefined p.ts ≡ false
    → p.spaces ≡ []
    → writes t p ≡ record p { token = p.token ++ t }
writes_token [] p h k = rw append-nil
writes_token (c ∷ cs) p h k =
    ap (writes cs) (write_token c p h k)
    ∙ writes_token cs (record p { token = p.token ++ c ∷ [] }) h k
    ∙ rw append_assoc

module _ {E : Type 0} (err : Option E) where
  pub run_cons :
      (c : ℕ) (rest : Runes) (p : Parser) → run err (c ∷ rest) (run_on p) ≡ run err rest (step c p)
  unfolding run
  run_cons c rest p = refl

  run_escaped :
      (c : ℕ) (rest : Runes) (p : Parser)
      → p.escn.one ≡ false
      → is_comment p.ts ≡ false
      → run err (b'\\' ∷ c ∷ rest) (run_on p) ≡ run err rest (run_on (write c p))
  unfolding run
  run_escaped c rest p h k =
      ap (run err (c ∷ rest)) (step_backslash p h) ∙ ap (run err rest) (step_escaped c p h k)

  run_bare :
      (t rest : Runes) (p : Parser)
      → p.escn.one ≡ false
      → is_comment p.ts ≡ false
      → run err (escaped t ++ rest) (run_on p) ≡ run err rest (run_on (writes t p))
  run_bare [] rest p h k = refl
  run_bare (c ∷ cs) rest p h k =
      run_escaped c (escaped cs ++ rest) p h k
      ∙ run_bare cs rest (write c p) (rw (write-escn c p) h) (write_comment c p k)

  -- `s` is the escape state between quotes `q`.
  run-between :
      (q : ℕ) (s : EscState)
      → s.one ≡ false
      → ((c : ℕ) (p : Parser)
          → p.escn ≡ s
          → is_comment p.ts ≡ false
          → (c == q || c == b'\\') ≡ false
          → step c p ≡ run_on (write c p))
      → (t rest : Runes) (p : Parser) → p.escn ≡ s
      → is_comment p.ts ≡ false
      → run err (between q t ++ rest) (run_on p) ≡ run err rest (run_on (writes t p))
  run-between q s o plain [] rest p h k = refl
  run-between q s o plain (c ∷ cs) rest p h k =
      let later =
        run-between q s o plain cs rest (write c p) (write-escn c p ∙ h) (write_comment c p k) in
      elim (Bool-cases (c == q || c == b'\\')) [
        | inl special ↦ rw special (run_escaped c _ p (rw h o) k ∙ later)
        | inr usual ↦
            rw usual
              (run_cons c _ p ∙ ap (run err (between q cs ++ rest)) (plain c p h k usual) ∙ later)
      ]

  run_quoted :
      (q : ℕ) (s : EscState)
      → s.one ≡ false
      → ((c : ℕ) (p : Parser)
          → p.escn ≡ s
          → is_comment p.ts ≡ false
          → (c == q || c == b'\\') ≡ false
          → step c p ≡ run_on (write c p))
      → ((p : Parser)
          → p.escn ≡ no_esc
          → is_comment p.ts ≡ false
          → step q p ≡ run_on (with_esc s p))
      → ((p : Parser)
          → p.escn ≡ s
          → is_comment p.ts ≡ false
          → step q p ≡ run_on (with_esc no_esc p))
      → (t rest : Runes) (p : Parser) → p.escn ≡ no_esc
      → is_comment p.ts ≡ false
      → run err (q ∷ (between q t ++ (q ∷ rest))) (run_on p) ≡ run err rest (run_on (writes t p))
  run_quoted q s o plain opens closes t rest p h k =
      run_cons q _ p
      ∙ ap (run err (between q t ++ (q ∷ rest))) (opens p h k)
      ∙ run-between q s o plain t (q ∷ rest) (with_esc s p) refl k
      ∙ run_cons q rest _
      ∙ ap (run err rest) (
          closes _ (writes-escn t (with_esc s p)) (writes_comment t (with_esc s p) k)
          ∙ ap run_on (
              sym (writes-with_esc no_esc t (with_esc s p))
              ∙ ap (writes t) (with_esc-same no_esc p h)))

  pub run-quote :
      (y : Style) (t rest : Runes) (p : Parser)
      → p.escn ≡ no_esc
      → is_comment p.ts ≡ false
      → run err (quote y t ++ rest) (run_on p) ≡ run err rest (run_on (writes t p))
  run-quote bare t rest p h k = run_bare t rest p (rw h refl) k
  run-quote single t rest p h k =
      rw append_assoc
        (run_quoted b'\'' esc_single refl step_single open_single close_single t rest p h k)
  run-quote double t rest p h k =
      rw append_assoc
        (run_quoted b'"' esc_double refl step_double open_double close_double t rest p h k)

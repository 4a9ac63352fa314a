-- ===== src/Keyval/Comments.antt =====
-- Two backslashes in a comment: `parseFile` of keyval/keyval.go writes the second to the entry
-- before the comment, which it has no case against, unlike all other writes.
use mathlib.Core.List.{concat-ne-nil}
use tasked.Base.{
  Option-cases, concat_inj, All, Runes, ◌≡◌, refl, ap, ◌∙◌, inl, inr, true, false, Option, none,
  some, List, [], ◌∷◌, ◌++◌, append_assoc, arith,
}
use tasked.Keyval.Parser.{
  Entry, no_esc, undefined, comment, Parser, init, run_on, panic, write, flush_val, flush_token,
  on_backslash, on_newline, on_rune, step, entries, returns, panics, run, parse_file,
}
use tasked.Keyval.Printer.{IsRemark, Line, print_onto, print, printed, IsLine}
use tasked.Keyval.Quoting.{run_cons}
use tasked.Keyval.Lines.{IsFresh, run_hash, with_ts}
use tasked.Keyval.RoundTrip.{init-IsFresh, take_lines, run_fresh}

-- The state in a comment behind two backslashes, in which the second was written to the token.
abbrev spoilt : Parser → Parser
spoilt p = record {
  ts = comment;
  escn = no_esc;
  earlier = p.earlier;
  e = p.e;
  token = b'\\' ∷ [];
  spaces = [];
}

spoil :
    (p : Parser)
    → IsFresh p
    → step b'\\' (
        with_ts comment (record p { escn = record { one = true; single = false; double = false } }))
      ≡ run_on (spoilt p)
unfolding step on_rune on_backslash write
spoil p f = ground arith

start_spoil :
    (p : Parser)
    → IsFresh p
    → step b'\\' (with_ts comment p)
      ≡ run_on (
          with_ts comment
            (record p { escn = record { one = true; single = false; double = false } }))
unfolding step on_rune on_backslash
start_spoil p f = ground arith

-- A comment that ends in two backslashes, with `rest` behind it.
abbrev pub double_remark : Runes → Runes → Runes
double_remark body rest = b'#' ∷ (body ++ (b'\\' ∷ b'\\' ∷ rest))

spoilt_newline_nil : (p : Parser) → p.e ≡ none → step b'\n' (spoilt p) ≡ panic
unfolding step on_rune on_newline flush_token flush_val
spoilt_newline_nil p h = ground arith

abbrev overwritten : Parser → Entry → Parser
overwritten p x = record {
  ts = undefined;
  escn = no_esc;
  earlier = p.earlier;
  e = some (record x { val = b'\\' ∷ [] });
  token = [];
  spaces = [];
}

overwritten-IsFresh : (p : Parser) (x : Entry) → IsFresh (overwritten p x)
overwritten-IsFresh p x = record {
  no_ts = refl;
  no_escape = refl;
  no_token = refl;
  first = λ h. absurd (cc);
}

spoilt_newline :
    (p : Parser) (x : Entry) → p.e ≡ some x → step b'\n' (spoilt p) ≡ run_on (overwritten p x)
unfolding step on_rune on_newline flush_token flush_val
spoilt_newline p x h = ground arith

entries-nil : (p : Parser) → entries p ≡ [] → p.e ≡ none
entries-nil p h = elim (Option-cases p.e) [
  | inl e ↦ e
  | inr (x, e) ↦ absurd (concat-ne-nil x p.earlier (rw e at h))
]

entries-concat :
    (p : Parser) (es : List Entry) (x : Entry)
    → IsFresh p
    → entries p ≡ es ++ x ∷ []
    → (p.earlier ≡ es) × (p.e ≡ some x)
entries-concat p es x f h = elim (Option-cases p.e) [
  | inl e ↦ absurd (concat-ne-nil x es (ground (arith, f.first e)))
  | inr (y, e) ↦ ground (arith, concat_inj p.earlier es {a = y} {b = x} (rw e at h))
]

module _ {E : Type 0} (err : Option E) where
  run-double_remark :
      (body rest : Runes) (p : Parser)
      → IsFresh p
      → IsRemark body
      → run err (double_remark body rest) (run_on p) ≡ run err rest (run_on (spoilt p))
  run-double_remark body rest p f w =
      run_hash err body (b'\\' ∷ b'\\' ∷ rest) p f.no_escape w
      ∙ run_cons err b'\\' (b'\\' ∷ rest) (with_ts comment p)
      ∙ ap (run err (b'\\' ∷ rest)) (start_spoil p f)
      ∙ run_cons err b'\\' rest _
      ∙ ap (run err rest) (spoil p f)

  run_panic : (cs : Runes) → run err cs panic ≡ panics
  unfolding run
  run_panic [] = refl
  run_panic (c ∷ cs) = refl

  eof_nil : (p : Parser) → p.e ≡ none → run err [] (run_on (spoilt p)) ≡ panics
  unfolding run flush_token flush_val
  eof_nil p h = ground arith

  newline_nil :
      (more : Runes) (p : Parser) → p.e ≡ none → run err (b'\n' ∷ more) (run_on (spoilt p)) ≡ panics
  newline_nil more p h =
      run_cons err b'\n' more (spoilt p)
      ∙ ap (run err more) (spoilt_newline_nil p h)
      ∙ run_panic more

  -- Where no entry stands before it, a comment that ends in two backslashes makes `parseFile` panic,
  -- at the end of the file or of the comment's line, whatever comes after.
  pub parse_file-panics :
      (xs : List Line) (body : Runes)
      → All IsLine xs
      → printed xs ≡ []
      → IsRemark body
      → (parse_file (print_onto xs (double_remark body [])) err ≡ panics)
        × ((more : Runes)
            → parse_file (print_onto xs (double_remark body (b'\n' ∷ more))) err ≡ panics)
  unfolding parse_file
  parse_file-panics xs body w e r = (
    (let t = take_lines err xs (double_remark body []) init init-IsFresh w in
        t.takes
        ∙ run-double_remark body [] t.to t.ends.fresh r
        ∙ eof_nil t.to (entries-nil t.to (t.ends.adds ∙ e))),
    λ more.
        let t = take_lines err xs (double_remark body (b'\n' ∷ more)) init init-IsFresh w in
        t.takes
        ∙ run-double_remark body (b'\n' ∷ more) t.to t.ends.fresh r
        ∙ newline_nil more t.to (entries-nil t.to (t.ends.adds ∙ e)),
  )

  -- Where an entry stands before it, a comment that ends in two backslashes at a line's end replaces
  -- the value of that entry by one backslash; all other entries are as they would be without it.
  pub parse_file-overwrites :
      (xs ys : List Line) (body : Runes) (es : List Entry) (x : Entry)
      → All IsLine xs
      → All IsLine ys
      → printed xs ≡ es ++ x ∷ []
      → IsRemark body
      → parse_file (print_onto xs (double_remark body (b'\n' ∷ print ys))) err
        ≡ returns (es ++ record x { val = b'\\' ∷ [] } ∷ printed ys) err
  unfolding parse_file
  parse_file-overwrites xs ys body es x w v e r =
      let t = take_lines err xs (double_remark body (b'\n' ∷ print ys)) init init-IsFresh w in
      let c = entries-concat t.to es x t.ends.fresh (t.ends.adds ∙ e) in
      let u = take_lines err ys [] (overwritten t.to x) (overwritten-IsFresh t.to x) v in
      t.takes
      ∙ run-double_remark body (b'\n' ∷ print ys) t.to t.ends.fresh r
      ∙ run_cons err b'\n' (print ys) (spoilt t.to)
      ∙ ap (run err (print ys)) (spoilt_newline t.to x c.1)
      ∙ u.takes
      ∙ run_fresh err u.to u.ends.fresh
      ∙ ap (λ fs. returns fs err) (u.ends.adds ∙ append_assoc t.to.earlier _ (printed ys) ∙ rw c.0)

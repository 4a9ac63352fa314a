-- ===== src/Keyval/RoundTrip.antt =====
-- `parseFile` of keyval/keyval.go reads back what the printer writes.
use tasked.Base.{
  All, Runes, ◌≡◌, refl, sym, ap, ◌∙◌, Option, none, some, List, [], ◌∷◌, ◌++◌, append-nil,
  append_assoc, arith,
}
use tasked.Keyval.Parser.{
  Entry, comment, Parser, init, run_on, flush_token, step, entries, returns, run, parse_file,
}
use tasked.Keyval.Printer.{
  quote, Layout, Line, skip, item, remark, print_line, print_onto, print, printed, IsRemarkOr,
  IsLayout, IsLine,
}
use tasked.Keyval.Quoting.{writes, writes_comment, writes-escn, run_cons, run-quote}
use tasked.Keyval.Lines.{
  IsFresh, run_blanks, run_hash, Ends, InValue, with_ts, step_end, keyed, add_spaces, step_key,
  value-InValue, add_spaces-IsFresh, comment-InValue, step_skip, step_skip_comment,
}

pub init-IsFresh : IsFresh init
init-IsFresh = record { no_ts = refl; no_escape = refl; no_token = refl; first = λ _. refl }

module _ {E : Type 0} (err : Option E) where
  -- The parser takes `cs` from state `p`, with `rest` behind it, and adds the entries `es`.
  pub record Takes (p : Parser) (cs rest : Runes) (es : List Entry) : Type 0 where
    pub to : Parser
    pub takes : run err cs (run_on p) ≡ run err rest (run_on to)
    pub ends : Ends p to es

  take_newline :
      {p : Parser} {es : List Entry} (q : Parser) (rest : Runes)
      → (r : Parser) × (step b'\n' q ≡ run_on r) × Ends p r es
      → (r : Parser) × (run err (b'\n' ∷ rest) (run_on q) ≡ run err rest (run_on r)) × Ends p r es
  take_newline q rest (r, e, h) = (r, run_cons err b'\n' rest q ∙ ap (run err rest) e, h)

  take_skip :
      (b : Runes) (m : Option Runes) (rest : Runes) (p : Parser)
      → IsFresh p
      → IsLine (skip b m)
      → Takes p (print_line (skip b m) rest) rest []
  take_skip b none rest p f l =
      let (r, e, h) =
        take_newline (add_spaces b p) rest (step_skip (add_spaces b p) (add_spaces-IsFresh b f)) in
      record {
        to = r;
        takes = run_blanks err b _ p f.no_escape (rw f.no_ts refl) l.0 ∙ e;
        ends = record { fresh = h.fresh; adds = h.adds };
      }
  take_skip b (some body) rest p f l =
      let (r, e, h) =
        take_newline (with_ts comment (add_spaces b p)) rest
          (step_skip_comment (add_spaces b p) (add_spaces-IsFresh b f)) in
      record {
        to = r;
        takes =
            run_blanks err b _ p f.no_escape (rw f.no_ts refl) l.0
            ∙ run_hash err body (b'\n' ∷ rest) (add_spaces b p) f.no_escape l.1
            ∙ e;
        ends = record { fresh = h.fresh; adds = h.adds };
      }

  take_key :
      (l : Layout) (k rest : Runes) (p : Parser)
      → IsFresh p
      → IsLayout l
      → run err (l.before_key ++ (quote l.key_style k ++ (l.after_key ++ (b'=' ∷ rest)))) (run_on p)
        ≡ run err rest (run_on (keyed k (add_spaces l.before_key p)))
  take_key l k rest p f w =
      run_blanks err l.before_key _ p f.no_escape (rw f.no_ts refl) w.before_key
      ∙ run-quote err l.key_style k _ q f.no_escape (rw f.no_ts refl)
      ∙ run_blanks err l.after_key _ (writes k q) (writes-escn k q ∙ f.no_escape)
          (writes_comment k q (rw f.no_ts refl)) w.after_key
      ∙ run_cons err b'=' rest (add_spaces l.after_key (writes k q))
      ∙ ap (run err rest) (step_key k l.after_key q (add_spaces-IsFresh l.before_key f))
    where
      q : Parser
      q = add_spaces l.before_key p

  take_val :
      (l : Layout) (k v rest : Runes) (p : Parser)
      → IsLayout l
      → run err
          (l.before_val ++ (quote l.val_style v ++ (l.after_val ++ rest)))
          (run_on (keyed k p))
        ≡ run err rest
            (run_on (add_spaces l.after_val (writes v (add_spaces l.before_val (keyed k p)))))
  unfolding keyed
  take_val l k v rest p w =
      run_blanks err l.before_val _ (keyed k p) refl refl w.before_val
      ∙ run-quote err l.val_style v _ q refl refl
      ∙ run_blanks err l.after_val _ (writes v q) (writes-escn v q) (writes_comment v q refl)
          w.after_val
    where
      q : Parser
      q = add_spaces l.before_val (keyed k p)

  take_end :
      (p q : Parser) (k v : Runes) (m : Option Runes) (rest : Runes)
      → InValue p q k v
      → IsRemarkOr m
      → (r : Parser) × (run err (remark m (b'\n' ∷ rest)) (run_on q) ≡ run err rest (run_on r))
        × Ends p r (record { key = k; val = v } ∷ [])
  take_end p q k v none rest h w = take_newline q rest (step_end p q k v h)
  take_end p q k v (some body) rest h w =
      let (r, e, z) =
        take_newline (with_ts comment q) rest
          (step_end p (with_ts comment q) k v (comment-InValue h)) in
      (r, run_hash err body (b'\n' ∷ rest) q h.no_escape w ∙ e, z)

  take_item :
      (l : Layout) (x : Entry) (m : Option Runes) (rest : Runes) (p : Parser)
      → IsFresh p
      → IsLine (item l x m)
      → Takes p (print_line (item l x m) rest) rest (x ∷ [])
  take_item l x m rest p f w =
      let q = add_spaces l.before_key p in
      let h = value-InValue x.key x.val l.before_val l.after_val q in
      let (r, e, z) = take_end q _ x.key x.val m rest h w.1 in
      record {
        to = r;
        takes = take_key l x.key _ p f w.0 ∙ take_val l x.key x.val _ q w.0 ∙ e;
        ends = record { fresh = z.fresh; adds = z.adds };
      }

  take :
      (x : Line) (rest : Runes) (p : Parser)
      → IsFresh p
      → IsLine x
      → Takes p (print_line x rest) rest (printed (x ∷ []))
  take (skip b m) rest p f w = take_skip b m rest p f w
  take (item l x m) rest p f w = take_item l x m rest p f w

  printed-cons : (x : Line) (xs : List Line) → printed (x ∷ []) ++ printed xs ≡ printed (x ∷ xs)
  printed-cons (skip b m) xs = refl
  printed-cons (item l x m) xs = refl

  -- The parser takes whole lines, whatever stands behind them.
  pub take_lines :
      (xs : List Line) (rest : Runes) (p : Parser)
      → IsFresh p
      → All IsLine xs
      → Takes p (print_onto xs rest) rest (printed xs)
  take_lines [] rest p f w = record {
    to = p;
    takes = refl;
    ends = record { fresh = f; adds = sym (append-nil (entries p)) };
  }
  take_lines (x ∷ xs) rest p f w =
      let t = take x (print_onto xs rest) p f w.0 in
      let u = take_lines xs rest t.to t.ends.fresh w.1 in
      record {
        to = u.to;
        takes = t.takes ∙ u.takes;
        ends = record {
          fresh = u.ends.fresh;
          adds =
              u.ends.adds
              ∙ ap (λ es. es ++ printed xs) t.ends.adds
              ∙ append_assoc (entries p) (printed (x ∷ [])) (printed xs)
              ∙ ap (◌++◌ (entries p)) (printed-cons x xs);
        };
      }

  pub run_fresh : (p : Parser) → IsFresh p → run err [] (run_on p) ≡ returns (entries p) err
  unfolding run flush_token
  run_fresh p f = ground arith

  -- Whatever runes the keys and the values hold, whichever of the three ways of escaping each is
  -- written in, and whatever blanks, blank lines and comments without a backslash stand round them,
  -- `parseFile` gives the entries of the lines, in order, with the error that the reader ends in.
  pub parse_file-print :
      (xs : List Line) → All IsLine xs → parse_file (print xs) err ≡ returns (printed xs) err
  unfolding parse_file
  parse_file-print xs w =
      let t = take_lines xs [] init init-IsFresh w in
      t.takes ∙ run_fresh t.to t.ends.fresh ∙ ap (λ es. returns es err) t.ends.adds

-- ===== src/Keyval/Lines.antt =====
-- Whole files, read by `parseFile` of keyval/keyval.go line by line.
use tasked.Base.{
  ◌==◌, Runes, ℕ, ◌≡◌, refl, sym, ap, ◌∙◌, true, false, not, ◌&&◌, ◌||◌, Option, none, some, List,
  [], ◌∷◌, ◌++◌, append-nil, append_assoc, arith,
}
use mathlib.Core.Path.{subst}
use tasked.Keyval.Parser.{
  Entry, no_esc, TokenState, undefined, key, value, comment, Parser, run_on, is_undefined,
  is_comment, is_space, next, write, flush_val, flush_key, flush_token, on_single, on_double,
  on_equals, on_newline, on_hash, on_other, on_rune, step, entries, run,
}
use tasked.Keyval.Printer.{IsBlank, IsRemark}
use tasked.Keyval.Quoting.{writes, writes_token, run_cons}

-- Between two lines. Blanks may be left over: the next `write` drops them.
pub record IsFresh (p : Parser) : Type 0 where
  pub no_ts : p.ts ≡ undefined
  pub no_escape : p.escn ≡ no_esc
  pub no_token : p.token ≡ []
  pub first : p.e ≡ none → p.earlier ≡ []

-- A blank outside quotes and comments is set aside.
step_blank :
    (c : ℕ) (p : Parser)
    → p.escn ≡ no_esc
    → is_comment p.ts ≡ false
    → (is_space c && not (c == b'\n')) ≡ true
    → step c p ≡ run_on (record p { spaces = p.spaces ++ c ∷ [] })
unfolding step on_rune on_other is_space
step_blank c p h k l = ground arith

step_remark :
    (c : ℕ) (p : Parser)
    → p.escn ≡ no_esc
    → p.ts ≡ comment
    → (c == b'\n' || c == b'\\') ≡ false
    → step c p ≡ run_on p
unfolding step on_rune on_single on_double on_equals on_newline on_hash on_other
step_remark c p h k l = ground arith

step_hash : (p : Parser) → p.escn ≡ no_esc → step b'#' p ≡ run_on (record p { ts = comment })
unfolding step on_rune on_hash
step_hash p h = ground arith

module _ {E : Type 0} (err : Option E) where
  pub run_blanks :
      (b rest : Runes) (p : Parser)
      → p.escn ≡ no_esc
      → is_comment p.ts ≡ false
      → IsBlank b
      → run err (b ++ rest) (run_on p) ≡ run err rest (run_on (record p { spaces = p.spaces ++ b }))
  run_blanks [] rest p h k l = rw append-nil
  run_blanks (c ∷ b) rest p h k l =
      run_cons err c (b ++ rest) p
      ∙ ap (run err (b ++ rest)) (step_blank c p h k l.0)
      ∙ run_blanks b rest (record p { spaces = p.spaces ++ c ∷ [] }) h k l.1
      ∙ rw append_assoc

  run_remark :
      (body rest : Runes) (p : Parser)
      → p.escn ≡ no_esc
      → p.ts ≡ comment
      → IsRemark body
      → run err (body ++ rest) (run_on p) ≡ run err rest (run_on p)
  run_remark [] rest p h k l = refl
  run_remark (c ∷ body) rest p h k l =
      run_cons err c (body ++ rest) p
      ∙ ap (run err (body ++ rest)) (step_remark c p h k l.0)
      ∙ run_remark body rest p h k l.1

  -- A comment leaves the parser as it is, but for the token state.
  pub run_hash :
      (body rest : Runes) (p : Parser)
      → p.escn ≡ no_esc
      → IsRemark body
      → run err (b'#' ∷ (body ++ rest)) (run_on p)
        ≡ run err rest (run_on (record p { ts = comment }))
  run_hash body rest p h l =
      run_cons err b'#' (body ++ rest) p
      ∙ ap (run err (body ++ rest)) (step_hash p h)
      ∙ run_remark body rest (record p { ts = comment }) h refl l

-- The state behind the end of a line that began in state `p`, and holds the entries `es`.
pub record Ends (p q : Parser) (es : List Entry) : Type 0 where
  pub fresh : IsFresh q
  pub adds : entries q ≡ entries p ++ es

-- In the value of entry `x`, whose key was read.
pub record InValue (p q : Parser) (k v : Runes) : Type 0 where
  pub no_escape : q.escn ≡ no_esc
  pub in_line : is_undefined q.ts ≡ false
  pub before : q.earlier ≡ entries p
  pub last : q.e ≡ some (record { key = k; val = [] })
  pub reads : q.token ≡ v

abbrev pub with_ts : TokenState → Parser → Parser
with_ts t p = record p { ts = t }

-- The newline that ends an entry.
pub step_end :
    (p q : Parser) (k v : Runes)
    → InValue p q k v
    → (r : Parser) × (step b'\n' q ≡ run_on r) × Ends p r (record { key = k; val = v } ∷ [])
unfolding step on_rune on_newline flush_token flush_val
step_end p q k [] h = (
  record q { ts = undefined; escn = no_esc },
  ground arith,
  record { fresh = ground arith; adds = ground arith },
)
step_end p q k (c ∷ cs) h = (
  record q {
    ts = undefined;
    escn = no_esc;
    e = some (record { key = k; val = c ∷ cs });
    token = [];
    spaces = [];
  },
  ground arith,
  record { fresh = ground arith; adds = ground arith },
)

-- The state behind the `=` of an entry with key `k`.
unfoldable pub keyed : Runes → Parser → Parser
keyed k p = record {
  ts = value;
  escn = no_esc;
  earlier = entries p;
  e = some (record { key = k; val = [] });
  token = [];
  spaces = [];
}

-- An entry of which the runes `t` of the key were read.
opened : Runes → Parser → Parser
opened t p = record {
  ts = key;
  escn = no_esc;
  earlier = entries p;
  e = some (record { key = []; val = [] });
  token = t;
  spaces = [];
}

write-opened : (c : ℕ) (p : Parser) → IsFresh p → write c p ≡ opened (c ∷ []) p
unfolding write next opened
write-opened c p f = ground arith

writes-opened :
    (c : ℕ) (cs : Runes) (p : Parser) → IsFresh p → writes (c ∷ cs) p ≡ opened (c ∷ cs) p
unfolding opened
writes-opened c cs p f =
    ap (writes cs) (write-opened c p f) ∙ writes_token cs (opened (c ∷ []) p) refl refl

abbrev pub add_spaces : Runes → Parser → Parser
add_spaces b p = record p { spaces = p.spaces ++ b }

step-opened :
    (t b : Runes) (p : Parser) → step b'=' (add_spaces b (opened t p)) ≡ run_on (keyed t p)
unfolding step on_rune on_equals flush_key opened keyed
step-opened t b p = refl

pub step_key :
    (k b : Runes) (p : Parser)
    → IsFresh p
    → step b'=' (add_spaces b (writes k p)) ≡ run_on (keyed k p)
unfolding step on_rune on_equals flush_key next keyed
step_key [] b p f = ground arith
step_key (c ∷ cs) b p f =
    ap (λ q. step b'=' (add_spaces b q)) (writes-opened c cs p f) ∙ step-opened (c ∷ cs) b p

write_value :
    (c : ℕ) (k b : Runes) (p : Parser)
    → write c (add_spaces b (keyed k p)) ≡ record (keyed k p) { token = c ∷ []; spaces = [] }
unfolding write keyed
write_value c k b p = refl

writes_value :
    (c : ℕ) (cs k b : Runes) (p : Parser)
    → writes (c ∷ cs) (add_spaces b (keyed k p))
      ≡ record (keyed k p) { token = c ∷ cs; spaces = [] }
unfolding keyed
writes_value c cs k b p =
    ap (writes cs) (write_value c k b p)
    ∙ writes_token cs (record (keyed k p) { token = c ∷ []; spaces = [] }) refl refl

pub value-InValue :
    (k v b a : Runes) (p : Parser)
    → InValue p (add_spaces a (writes v (add_spaces b (keyed k p)))) k v
unfolding keyed
value-InValue k [] b a p = record {
  no_escape = refl;
  in_line = refl;
  before = refl;
  last = refl;
  reads = refl;
}
value-InValue k (c ∷ cs) b a p =
    subst (λ q. InValue p (add_spaces a q) k (c ∷ cs)) (sym (writes_value c cs k b p))
      (record { no_escape = refl; in_line = refl; before = refl; last = refl; reads = refl })

pub add_spaces-IsFresh : (b : Runes) {p : Parser} → IsFresh p → IsFresh (add_spaces b p)
add_spaces-IsFresh b f = record {
  no_ts = f.no_ts;
  no_escape = f.no_escape;
  no_token = f.no_token;
  first = f.first;
}

pub comment-InValue :
    {p q : Parser} {k v : Runes} → InValue p q k v → InValue p (with_ts comment q) k v
comment-InValue h = record {
  no_escape = h.no_escape;
  in_line = refl;
  before = h.before;
  last = h.last;
  reads = h.reads;
}

pub step_skip : (p : Parser) → IsFresh p → (r : Parser) × (step b'\n' p ≡ run_on r) × Ends p r []
unfolding step on_rune on_newline
step_skip p f = (p, ground arith, record { fresh = f; adds = sym (append-nil (entries p)) })

pub step_skip_comment :
    (p : Parser)
    → IsFresh p
    → (r : Parser) × (step b'\n' (with_ts comment p) ≡ run_on r) × Ends p r []
unfolding step on_rune on_newline flush_token
step_skip_comment p f = (p, ground arith, record { fresh = f; adds = sym (append-nil (entries p)) })

-- ===== src/Keyval/Include.antt =====
-- `readFile`, `expandIncludes`, `ParseFile` and `Parse` of keyval/keyval.go. The file system is a
-- function from names; closing a file and the log of its errors are left out.
use tasked.Base.{if◌then◌else◌, Runes, contains, ℕ, zero, suc, not, none, some, List, [], ◌∷◌, ◌++◌}
use tasked.Keyval.Parser.{Entry, Parsed, returns, panics, parse_file}

-- What `os.Open` and the copy of the file into a buffer give.
pub data Opened (E : Type 0) : Type 0 where
  content : Runes → Opened E
  not_exist : Opened E
  open_fails : E → Opened E
  read_fails : E → Opened E

-- `stopped` is a recursion that was cut off by its fuel.
pub data Outcome (E A : Type 0) : Type 0 where
  ok : A → Outcome E A
  err : E → Outcome E A
  panicked : Outcome E A
  stopped : Outcome E A

infixl 5 ◌>>=◌
abbrev pub ◌>>=◌ : {E A B : Type 0} → Outcome E A → (A → Outcome E B) → Outcome E B
ok a >>= f = f a
err e >>= f = err e
panicked >>= f = panicked
stopped >>= f = stopped

-- A function's results `entries, error`, of which the callers drop the entries on an error.
abbrev pub of_parsed : {E : Type 0} → Parsed E → Outcome E (List Entry)
of_parsed (returns es none) = ok es
of_parsed (returns es (some e)) = err e
of_parsed panics = panicked

abbrev pub of_opened : {E : Type 0} → Opened E → Outcome E (List Entry)
of_opened (content cs) = of_parsed (parse_file cs none)
of_opened not_exist = ok []
of_opened (open_fails e) = err e
of_opened (read_fails e) = err e

module _ {E : Type 0} (open_file : Runes → Opened E) where
  unfoldable pub read_file : Runes → Outcome E (List Entry)
  read_file fn = of_opened (open_file fn)

  -- One round of the loop, for entry `x` with the expanded entries `later` behind it; `is_read` holds
  -- the names in the map, and `recur` is the recursive call.
  unfoldable pub expand_entry :
      (recur : List Entry → List Runes → Outcome E (List Entry × List Runes))
      → List Runes
      → Entry
      → List Entry × List Runes
      → Outcome E (List Entry × List Runes)
  expand_entry recur keys x (later, is_read) =
      if not (contains x.key keys)
      then ok (x ∷ later, is_read)
      else if contains x.val is_read
      then ok (later, is_read)
      else do
        include ← read_file x.val
        (expanded, is_read') ← recur include (x.val ∷ is_read)
        ok (expanded ++ later, is_read')

  -- The loop runs from the last entry to the first.
  unfoldable pub expand_loop :
      (recur : List Entry → List Runes → Outcome E (List Entry × List Runes))
      → List Runes
      → List Entry
      → List Runes
      → Outcome E (List Entry × List Runes)
  expand_loop recur keys [] is_read = ok ([], is_read)
  expand_loop recur keys (x ∷ xs) is_read = do
    later ← expand_loop recur keys xs is_read
    expand_entry recur keys x later

  -- The fuel bounds the depth of the recursion.
  unfoldable pub expand_includes :
      ℕ → List Runes → List Entry → List Runes → Outcome E (List Entry × List Runes)
  unfolding expand_loop
  expand_includes zero keys es is_read = stopped
  expand_includes (suc fuel) [] es is_read = ok (es, is_read)
  expand_includes (suc fuel) (k ∷ keys) es is_read =
      expand_loop (expand_includes fuel (k ∷ keys)) (k ∷ keys) es is_read

  -- The loop over `files` in `Parse`.
  unfoldable pub read_files : List Runes → List Entry → Outcome E (List Entry)
  read_files [] es = ok es
  read_files (f ∷ fs) es = do ei ← read_file f; read_files fs (es ++ ei)

  unfoldable pub parse : ℕ → List Runes → List Runes → Outcome E (List Entry)
  unfolding read_files expand_includes
  parse fuel files keys = do
    es ← read_files files []
    (expanded, _) ← expand_includes fuel keys es []
    ok expanded

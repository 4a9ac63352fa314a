-- ===== src/Htproc/Output/Filtering.antt =====
-- What `filterLines` of htproc/proc.go lets through, and what `waitOutput` then sees.
use tasked.Base.{
  if◌then◌else◌, All, Runes, same_text, is_empty, ℕ, ◌≡◌, refl, ◌⊎◌, inl, inr, Bool, true, false,
  Option, none, some, List, [], ◌∷◌, ◌++◌, arith,
}
use tasked.Htproc.Status.{Error}
use tasked.Htproc.Output.{
  eof, read_fails, drop_last, LineRead, Slice, of_error, startup_message, ends_in_newline,
  find_line, filter_slice, filter_lines, wait_output,
}

-- The reads go on until the end of the output, and no read fails.
abbrev pub IsSound : List Slice → Type 0
IsSound = All λ s. (s.err ≡ none) ⊎ (s.err ≡ some eof)

module _ (write : Runes → Option Error) (writes : (bytes : Runes) → write bytes ≡ none)
    (l : List Runes) where
  slice_sound :
      (s : Slice) (ss : List Slice)
      → (s.err ≡ none) ⊎ (s.err ≡ some eof)
      → wait_output (filter_lines write l ss).sent ≡ none
      → wait_output (filter_slice write l s (filter_lines write l ss)).sent ≡ none
  unfolding filter_slice wait_output
  slice_sound s ss (inl e) h = ground (arith, writes s.bytes)
  slice_sound s ss (inr e) h = ground (arith, writes s.bytes)

  filter_lines_step :
      (s : Slice) (ss : List Slice)
      → (s.err ≡ none) ⊎ (s.err ≡ some eof)
      → filter_lines write l (s ∷ ss) ≡ filter_slice write l s (filter_lines write l ss)
  unfolding filter_lines
  filter_lines_step s ss (inl e) = ground arith
  filter_lines_step s ss (inr e) = ground arith

  pub wait_output-filter_lines :
      (ss : List Slice) → IsSound ss → wait_output (filter_lines write l ss).sent ≡ none
  wait_output-filter_lines [] h = unfold filter_lines wait_output in refl
  wait_output-filter_lines (s ∷ ss) (e, h) =
      rw (filter_lines_step s ss e) (slice_sound s ss e (wait_output-filter_lines ss h))

-- A line, as `ReadSlice` gives it.
abbrev pub slice_of : Runes → Slice
slice_of line = record { bytes = line ++ b'\n' ∷ []; err = none }

-- How an output ends behind its last line: with some text, or with an error of a read, such as a line that
-- is longer than the buffer.
pub data Ending : Type 0 where
  ends : (text : Runes) → Ending
  breaks : (text : Runes) → Error → Ending

-- The output of a process.
abbrev pub output : List Runes → Ending → List Slice
output [] (ends text) = record { bytes = text; err = some eof } ∷ []
output [] (breaks text e) = record { bytes = text; err = some (read_fails e) } ∷ []
output (line ∷ lines) end = slice_of line ∷ output lines end

-- The lines that are the startup message, and the others.
abbrev pub is_message : Runes → Bool
is_message line = same_text startup_message line

abbrev pub messages : List Runes → Ending → List LineRead
messages [] (ends text) =
    (if is_message text then record { line = startup_message; err = some eof } ∷ [] else [])
    ++ of_error eof ∷ []
messages [] (breaks text e) = of_error (read_fails e) ∷ []
messages (line ∷ lines) end =
    (if is_message line then record { line = startup_message; err = none } ∷ [] else [])
    ++ messages lines end

abbrev pub others : List Runes → Ending → List Runes
others [] (ends text) = if is_message text then [] else text ∷ []
others [] (breaks text e) = []
others (line ∷ lines) end =
    (if is_message line then [] else (line ++ b'\n' ∷ []) ∷ []) ++ others lines end

-- The text behind the last line is no line.
abbrev pub IsUnended : Ending → Type 0
IsUnended (ends text) = ends_in_newline text ≡ false
IsUnended (breaks text e) = Unit

ends_in_newline-append : (line : Runes) → ends_in_newline (line ++ b'\n' ∷ []) ≡ true
unfolding ends_in_newline
ends_in_newline-append [] = refl
ends_in_newline-append (c ∷ []) = refl
ends_in_newline-append (c ∷ d ∷ cs) = ends_in_newline-append (d ∷ cs)

is_empty-append : (line : Runes) (c : ℕ) → is_empty (line ++ c ∷ []) ≡ false
is_empty-append [] c = refl
is_empty-append (d ∷ line) c = refl

same_text-concat : (s t : Runes) (c : ℕ) → same_text (s ++ c ∷ []) (t ++ c ∷ []) ≡ same_text s t
unfolding same_text
same_text-concat [] [] c = ground arith
same_text-concat [] (y ∷ []) c = ground arith
same_text-concat [] (y ∷ z ∷ t) c = ground arith
same_text-concat (x ∷ []) [] c = ground arith
same_text-concat (x ∷ y ∷ s) [] c = ground arith
same_text-concat (x ∷ s) (y ∷ t) c = ground (arith, same_text-concat s t c)

find_line-line :
    (line : Runes)
    → find_line (startup_message ∷ []) (line ++ b'\n' ∷ [])
      ≡ (if is_message line then some startup_message else none)
unfolding find_line ends_in_newline
find_line-line line = ground (
  arith,
  ends_in_newline-append line,
  is_empty-append line b'\n',
  same_text-concat startup_message line b'\n',
)

find_line-end :
    (text : Runes)
    → ends_in_newline text ≡ false
    → find_line (startup_message ∷ []) text
      ≡ (if is_message text then some startup_message else none)
unfolding find_line ends_in_newline drop_last
find_line-end [] h = unfold same_text in refl
find_line-end (c ∷ text) h = rw h refl

module _ (write : Runes → Option Error) (writes : (bytes : Runes) → write bytes ≡ none) where
  -- Where no write fails, `filterLines` writes each line of the output but the startup messages, whole
  -- and in order, and the text behind the last line, and sends one message for each startup message, and the
  -- end of the output behind them. Where a read fails, also since a line is longer than the buffer, what it
  -- has read is lost: nothing of it is written, and the error is sent in place of the end.
  pub filter_lines-output :
      (lines : List Runes) (end : Ending)
      → IsUnended end
      → filter_lines write (startup_message ∷ []) (output lines end)
        ≡ record { sent = messages lines end; written = others lines end }
  unfolding filter_lines filter_slice
  filter_lines-output [] (ends text) h = ground (arith, find_line-end text h, writes text)
  filter_lines-output [] (breaks text e) h = refl
  filter_lines-output (line ∷ lines) end h =
      ground
        (arith, find_line-line line, filter_lines-output lines end h, writes (line ++ b'\n' ∷ []))

-- ===== src/Htproc/Output.antt =====
-- What htproc/proc.go does with the output of a process: `filterLines` and `waitOutput`. The bytes of
-- an output are numbers. A message has at least one byte.
pub mod Filtering
use Prim.Native.String.{String}
use tasked.Base.{
  ◌==◌, if◌then◌else◌, Runes, codes, same_text, is_empty, ◌+◌, Bool, false, ◌||◌, Option, none,
  some, List, [], ◌∷◌, ◌++◌,
}
use tasked.Htproc.Status.{Error}

-- `io.EOF`, or another error: also `bufio.ErrBufferFull`, for a line that is longer than the buffer.
pub data ReadError : Type 0 where
  eof : ReadError
  read_fails : Error → ReadError

pub record LineRead : Type 0 where
  pub line : Runes
  pub err : Option ReadError

-- What one call of `ReadSlice` gives.
pub record Slice : Type 0 where
  pub bytes : Runes
  pub err : Option ReadError

abbrev pub of_error : ReadError → LineRead
of_error e = record { line = []; err = some e }

abbrev pub startup_message : Runes
startup_message = codes "ready"

unfoldable pub ends_in_newline : Runes → Bool
ends_in_newline [] = false
ends_in_newline (c ∷ []) = c == b'\n'
ends_in_newline (c ∷ d ∷ cs) = ends_in_newline (d ∷ cs)

abbrev pub with_newline : Runes → Runes
with_newline li = if ends_in_newline li then li else li ++ b'\n' ∷ []

unfoldable pub drop_last : Runes → Runes
drop_last [] = []
drop_last (c ∷ []) = []
drop_last (c ∷ d ∷ cs) = c ∷ drop_last (d ∷ cs)

-- The loop over the messages: the message that the line `lr` holds.
unfoldable pub find_line : List Runes → Runes → Option Runes
find_line [] lr = none
find_line (li ∷ l) lr =
    let full = with_newline li in
    if same_text (if is_empty lr || ends_in_newline lr then full else drop_last full) lr
    then some li
    else find_line l lr

-- What was sent to the channel, and what `w.Write` was called with.
pub record Filtered : Type 0 where
  pub sent : List LineRead
  pub written : List Runes

-- `written` in front of what happens later.
abbrev then_write : Runes → Filtered → Filtered
then_write lr f = record f { written = lr ∷ f.written }

abbrev then_send : LineRead → Filtered → Filtered
then_send l f = record f { sent = l ∷ f.sent }

abbrev stop : ReadError → Filtered
stop e = record { sent = of_error e ∷ []; written = [] }

-- The end of a round, with the rounds to come behind it.
abbrev continue : Option ReadError → Filtered → Filtered
continue none later = later
continue (some e) later = stop e

-- `write` is the error of a call of `w.Write`.
unfoldable pub filter_slice :
    (write : Runes → Option Error) → List Runes → Slice → Filtered → Filtered
filter_slice write l s later = elim (find_line l s.bytes) [
  | some li ↦ then_send (record { line = li; err = s.err }) (continue s.err later)
  | none ↦
      then_write s.bytes
        (elim (write s.bytes) [ none ↦ continue s.err later | some werr ↦ stop (read_fails werr) ])
]

unfoldable pub filter_lines : (write : Runes → Option Error) → List Runes → List Slice → Filtered
filter_lines write l [] = record { sent = []; written = [] }
filter_lines write l (s ∷ ss) =
    let later = filter_lines write l ss in
    elim s.err [
      | none ↦ filter_slice write l s later
      | some e ↦ elim e [ eof ↦ filter_slice write l s later | read_fails x ↦ stop (read_fails x) ]
    ]

-- The channel ends with what is in the list, and is closed then.
unfoldable pub wait_output : List LineRead → Option Error
wait_output [] = none
wait_output (l ∷ ls) =
    let rest = wait_output ls in
    elim l.err [ none ↦ rest | some e ↦ elim e [ eof ↦ none | read_fails x ↦ some x ] ]

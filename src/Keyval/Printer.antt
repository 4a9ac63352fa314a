-- ===== src/Keyval/Printer.antt =====
-- A printer for the files that keyval/keyval.go parses: an independent description of the format.
use tasked.Base.{
  ◌==◌, if◌then◌else◌, All, Runes, ℕ, ◌≡◌, true, false, not, ◌&&◌, ◌||◌, Option, none, some, List,
  [], ◌∷◌, ◌++◌,
}
use tasked.Keyval.Parser.{Entry, is_space}

pub data Style : Type 0 where
  bare single double : Style

-- A rune with a backslash before it.
abbrev pub escaped : Runes → Runes
escaped [] = []
escaped (c ∷ cs) = b'\\' ∷ c ∷ escaped cs

-- The text between quotes `q`, where only `q` and the backslash need a backslash.
abbrev pub between : ℕ → Runes → Runes
between q [] = []
between q (c ∷ cs) = (if c == q || c == b'\\' then b'\\' ∷ c ∷ [] else c ∷ []) ++ between q cs

abbrev pub quote : Style → Runes → Runes
quote bare s = escaped s
quote single s = b'\'' ∷ (between b'\'' s ++ b'\'' ∷ [])
quote double s = b'"' ∷ (between b'"' s ++ b'"' ∷ [])

-- Spaces other than the newline, which need no escape outside a word.
abbrev pub IsBlank : Runes → Type 0
IsBlank = All λ c. (is_space c && not (c == b'\n')) ≡ true

-- What may stand in a comment: all but the newline, which ends it, and the backslash.
abbrev pub IsRemark : Runes → Type 0
IsRemark = All λ c. (c == b'\n' || c == b'\\') ≡ false

-- The blanks round the two texts of an entry.
pub record Layout : Type 0 where
  pub before_key : Runes
  pub after_key : Runes
  pub before_val : Runes
  pub after_val : Runes
  pub key_style : Style
  pub val_style : Style

-- A line of a file: no entry, or one, and at its end perhaps a comment.
pub data Line : Type 0 where
  skip : Runes → Option Runes → Line
  item : Layout → Entry → Option Runes → Line

abbrev pub remark : Option Runes → Runes → Runes
remark none rest = rest
remark (some body) rest = b'#' ∷ (body ++ rest)

abbrev pub print_line : Line → Runes → Runes
print_line (skip blanks r) rest = blanks ++ remark r (b'\n' ∷ rest)
print_line (item l x r) rest =
    l.before_key
    ++ (quote l.key_style x.key
        ++ (l.after_key
            ++ (b'='
                ∷ (l.before_val
                    ++ (quote l.val_style x.val ++ (l.after_val ++ remark r (b'\n' ∷ rest)))))))

-- The lines, with `rest` behind them.
abbrev pub print_onto : List Line → Runes → Runes
print_onto [] rest = rest
print_onto (x ∷ xs) rest = print_line x (print_onto xs rest)

abbrev pub print : List Line → Runes
print xs = print_onto xs []

abbrev pub printed : List Line → List Entry
printed [] = []
printed (skip _ _ ∷ xs) = printed xs
printed (item _ x _ ∷ xs) = x ∷ printed xs

abbrev pub IsRemarkOr : Option Runes → Type 0
IsRemarkOr none = Unit
IsRemarkOr (some body) = IsRemark body

pub record IsLayout (l : Layout) : Type 0 where
  pub before_key : IsBlank l.before_key
  pub after_key : IsBlank l.after_key
  pub before_val : IsBlank l.before_val
  pub after_val : IsBlank l.after_val

abbrev pub IsLine : Line → Type 0
IsLine (skip blanks r) = IsBlank blanks × IsRemarkOr r
IsLine (item l x r) = IsLayout l × IsRemarkOr r

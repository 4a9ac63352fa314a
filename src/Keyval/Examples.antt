-- ===== src/Keyval/Examples.antt =====
-- Runs of the parser on the inputs of keyval/keyval_test.go, and the theorems at concrete inputs.
use Prim.Native.String.{String}
use mathlib.Core.Path.{subst}
use tasked.Base.{
  IsDistinct, if◌then◌else◌, Bool-cases, All, Runes, codes, same_text, contains, ℕ, ◌≡◌, refl, sym,
  ap, ◌∙◌, ◌≢◌, inl, inr, true, false, none, some, List, [], ◌∷◌, arith,
}
use tasked.Keyval.Parser.{Entry, is_space, Parsed, returns, panics, parse_file}
use tasked.Keyval.Printer.{
  bare, double, Layout, Line, skip, item, print_onto, print, IsLayout, IsLine,
}
use tasked.Keyval.RoundTrip.{parse_file-print}
use tasked.Keyval.Comments.{double_remark, parse_file-panics, parse_file-overwrites}
use tasked.Keyval.Include.{
  Opened, content, not_exist, Outcome, ok, stopped, of_opened, read_file, expand_entry, read_files,
  parse,
}
use tasked.Keyval.Expansion.{ok_injective, IsExpansion, parse-IsExpansion}
use tasked.Keyval.Fuel.{IsNamed, IsClosed, parse-ne-stopped}

abbrev entry : String → String → Entry
entry k v = record { key = codes k; val = codes v }

abbrev parse_text : String → Parsed ℕ
parse_text s = parse_file (codes s) none

abbrev gives : List Entry → Parsed ℕ
gives es = returns es none

-- Stands for a panic.
abbrev nil_write : Parsed ℕ
nil_write = panics

parse_keys :
    (parse_text "some = 1\n  some other=2\t "
      ≡ gives (entry "some" "1" ∷ entry "some other" "2" ∷ []))
    × (parse_text "entry format = key = value" ≡ gives (entry "entry format" "key = value" ∷ []))
    × (parse_text "= value only" ≡ gives (entry "" "value only" ∷ []))
    × (parse_text "\n \n" ≡ gives [])
unfolding parse_file
parse_keys = (refl, refl, refl, refl)

parse_escapes :
    (parse_text "\\\n \\\n" ≡ gives (entry "" "\n \n" ∷ []))
    × (parse_text "'\n' '\n'" ≡ gives (entry "" "\n \n" ∷ []))
    × (parse_text "\"\\\"" ≡ gives (entry "" "\"" ∷ []))
    × (parse_text "\\\\=\\\\" ≡ gives (entry "\\" "\\" ∷ []))
unfolding parse_file
parse_escapes = (refl, refl, refl, refl)

parse_comments :
    (parse_text "# title\nan entry = a value # and comment\n# footer"
      ≡ gives (entry "an entry" "a value" ∷ []))
    × (parse_text "#\\\\" ≡ panics)
    × (parse_text "a = b\n#\\\\" ≡ gives (entry "a" "\\" ∷ []))
unfolding parse_file
parse_comments = (refl, refl, refl)

abbrev layout : Layout
layout = record {
  before_key = codes "  ";
  after_key = [];
  before_val = codes " ";
  after_val = codes "\t";
  key_style = bare;
  val_style = double;
}

layout-IsLayout : IsLayout layout
unfolding is_space
layout-IsLayout = record {
  before_key = (refl, (refl, tt));
  after_key = tt;
  before_val = (refl, tt);
  after_val = (refl, tt);
}

-- A comment, and an entry whose value holds the runes that need an escape.
abbrev file : List Line
file = skip [] (some (codes "top")) ∷ item layout (entry "a=b" "#\"\\ ") (some (codes " no")) ∷ []

file-IsLine : All IsLine file
file-IsLine =
    ((tt, (refl, (refl, (refl, tt)))), ((layout-IsLayout, (refl, (refl, (refl, tt)))), tt))

parse_file-print_example : parse_file (print file) none ≡ gives (entry "a=b" "#\"\\ " ∷ [])
parse_file-print_example = parse_file-print {E = ℕ} none file file-IsLine

parse_file-panics_example :
    parse_file (print_onto (skip [] none ∷ []) (double_remark (codes " c:") [])) none ≡ nil_write
parse_file-panics_example =
    (parse_file-panics {E = ℕ} none (skip [] none ∷ []) (codes " c:") ((tt, tt), tt) refl
      (refl, (refl, (refl, tt)))).0

parse_file-overwrites_example :
    parse_file
      (print_onto file
        (double_remark (codes "c:") (b'\n' ∷ print (item layout (entry "k" "v") none ∷ []))))
      none
    ≡ gives (entry "a=b" "\\" ∷ entry "k" "v" ∷ [])
parse_file-overwrites_example =
    parse_file-overwrites {E = ℕ} none file (item layout (entry "k" "v") none ∷ []) (codes "c:") []
      (entry "a=b" "#\"\\ ") file-IsLine ((layout-IsLayout, tt), tt) refl (refl, (refl, tt))

-- Two files that include each other.
abbrev include_key : List Runes
include_key = codes "include" ∷ []

abbrev names : List Runes
names = codes "x" ∷ codes "y" ∷ []

abbrev disk : Runes → Opened ℕ
disk fn =
    if same_text fn (codes "x")
    then content (codes "a=1\ninclude=y")
    else if same_text fn (codes "y")
    then content (codes "b=2\ninclude=x")
    else not_exist

parse-disk :
    parse disk 3 (codes "x" ∷ []) include_key
    ≡ ok (entry "a" "1" ∷ entry "b" "2" ∷ entry "a" "1" ∷ [])
unfolding parse read_file same_text contains expand_entry parse_file
parse-disk = refl

parse-IsExpansion_example :
    (es : List Entry) × (read : List Runes) × (read_files disk (codes "x" ∷ []) [] ≡ ok es)
    × IsExpansion disk include_key [] read es (entry "a" "1" ∷ entry "b" "2" ∷ entry "a" "1" ∷ [])
    × IsDistinct read
    × All
        (λ y. contains y.key include_key ≡ false)
        (entry "a" "1" ∷ entry "b" "2" ∷ entry "a" "1" ∷ [])
parse-IsExpansion_example = parse-IsExpansion disk include_key 3 (codes "x" ∷ []) parse-disk

names_all :
    (es fs : List Entry)
    → IsNamed disk include_key names es
    → ◌≡◌ {A = Outcome ℕ (List Entry)} (ok es) (ok fs)
    → IsNamed disk include_key names fs
names_all es fs h e = subst (IsNamed disk include_key names) (ok_injective es fs e) h

abbrev file_x : List Entry
file_x = entry "a" "1" ∷ entry "include" "y" ∷ []

abbrev file_y : List Entry
file_y = entry "b" "2" ∷ entry "include" "x" ∷ []

read_opened :
    (open_file : Runes → Opened ℕ) (fn : Runes) {o : Opened ℕ}
    → open_file fn ≡ o
    → read_file open_file fn ≡ of_opened o
unfolding read_file
read_opened open_file fn e = ap of_opened e

module _ (fn : Runes) where
  read_x : same_text fn (codes "x") ≡ true → read_file disk fn ≡ ok file_x
  unfolding parse_file
  read_x e = read_opened disk fn {o = content (codes "a=1\ninclude=y")} (rw e refl)

  read_y :
      same_text fn (codes "x") ≡ false
      → same_text fn (codes "y") ≡ true
      → read_file disk fn ≡ ok file_y
  unfolding parse_file
  read_y e e' = read_opened disk fn {o = content (codes "b=2\ninclude=x")} (rw (e, e') refl)

  read_other :
      same_text fn (codes "x") ≡ false
      → same_text fn (codes "y") ≡ false
      → read_file disk fn ≡ ok []
  read_other e e' = read_opened disk fn {o = not_exist} (rw (e, e') refl)

disk-IsClosed : IsClosed disk include_key names
unfolding contains same_text
disk-IsClosed fn es h = elim (Bool-cases (same_text fn (codes "x"))) [
  | inl x ↦ names_all file_x es (λ k. absurd (cc), (λ _. refl, tt)) (sym (read_x fn x) ∙ h)
  | inr not_x ↦ elim (Bool-cases (same_text fn (codes "y"))) [
    | inl y ↦ names_all file_y es (λ k. absurd (cc), (λ _. refl, tt)) (sym (read_y fn not_x y) ∙ h)
    | inr not_y ↦ names_all [] es tt (sym (read_other fn not_x not_y) ∙ h)
  ]
]

parse-ne-stopped_example : parse disk 3 (codes "x" ∷ []) include_key ≢ stopped
parse-ne-stopped_example =
    parse-ne-stopped disk include_key names disk-IsClosed 3 (codes "x" ∷ []) (omega arith)

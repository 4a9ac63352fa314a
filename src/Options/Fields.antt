-- ===== src/Options/Fields.antt =====
-- `fieldOrFile` of options.go.
use tasked.Base.{if◌then◌else◌, Runes, is_empty, not, Option, some, []}

-- A setting, or what the file that another setting names holds; none is an error of that file.
unfoldable pub field_or_file : (read_file : Runes → Option Runes) → Runes → Runes → Option Runes
field_or_file read_file field fn =
    if not (is_empty field) then some field else if not (is_empty fn) then read_file fn else some []

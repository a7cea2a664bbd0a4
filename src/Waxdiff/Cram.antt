-- ===== src/Waxdiff/Cram.antt =====
-- `classify-cram`: which of the reference's cram tests the port can run. `_cram_commands`,
-- `_cram_reason`, `_cram_wax_reason` and the selection of `cmd_classify_cram`.
pub mod Scope
pub mod Report
pub mod Grammar
pub mod Laws
pub mod Selected
mod Wordings
pub mod Excluded
pub mod Commands
mod Examples
use wax_mb.Base.{
  ℕ, Text, codes, Bool, true, false, not, ◌&&◌, ◌||◌, Option, none, some, List, [], ◌∷◌, ◌++◌, map,
  ◌==◌, list_eq, nat_eq, if◌then◌else◌, starts_with, ends_with, strip, split, splitlines, has_char,
  has_substring, contains, drop,
}

-- Why a command, or a test, is out of scope.
pub data Reason : Type 0 where
  script flag writes reads reads_file subcommand : Text → Reason
  outside : Reason

-- `out[-1] += x`
abbrev pub append_last : List Text → Text → List Text
append_last [] x = []
append_last (c ∷ []) x = (c ++ x) ∷ []
append_last (c ∷ d ∷ out) x = c ∷ append_last (d ∷ out) x

-- One line of a cram file; a continuation before any command is passed over.
abbrev pub read_line : List Text → Text → List Text
read_line out st =
    if starts_with st (codes "$ ")
    then out ++ drop 2 st ∷ []
    else if starts_with st (codes "> ")
    then append_last out (codes "\n" ++ drop 2 st)
    else if st == codes ">"
    then append_last out (codes "\n")
    else out

unfoldable pub read_lines : List Text → List Text → List Text
read_lines out [] = out
read_lines out (raw ∷ lines) = read_lines (read_line out (strip raw)) lines

unfoldable pub cram_commands : Text → List Text
unfolding read_lines
cram_commands text = read_lines [] (splitlines text)

abbrev pub cram_opaque : List Text
cram_opaque =
    codes "python3"
    ∷ codes "python"
    ∷ codes "node"
    ∷ codes "perl"
    ∷ codes "ruby"
    ∷ codes "sh"
    ∷ codes "bash"
    ∷ []

abbrev pub out_format_flags : List Text
out_format_flags = codes "-f" ∷ codes "--output-format" ∷ codes "--format" ∷ []

abbrev pub in_format_flags : List Text
in_format_flags = codes "-i" ∷ codes "--input-format" ∷ []

abbrev pub cram_ok_flags : List Text
cram_ok_flags =
    codes "-f"
    ∷ codes "--output-format"
    ∷ codes "--format"
    ∷ codes "-i"
    ∷ codes "--input-format"
    ∷ codes "-o"
    ∷ codes "--output"
    ∷ codes "--error-format"
    ∷ codes "--color"
    ∷ codes "-W"
    ∷ codes "--warn"
    ∷ codes "-c"
    ∷ codes "--check"
    ∷ codes "--all-errors"
    ∷ codes "-v"
    ∷ codes "--validate"
    ∷ codes "--try-table"
    ∷ codes "-X"
    ∷ codes "--feature"
    ∷ codes "-D"
    ∷ codes "--define"
    ∷ []

-- `valued`, the flags that take a value
abbrev pub valued_flags : List Text
valued_flags =
    codes "-f"
    ∷ codes "--output-format"
    ∷ codes "--format"
    ∷ codes "-i"
    ∷ codes "--input-format"
    ∷ codes "-o"
    ∷ codes "--output"
    ∷ codes "--error-format"
    ∷ codes "--color"
    ∷ codes "-W"
    ∷ codes "--warn"
    ∷ codes "-D"
    ∷ codes "--define"
    ∷ codes "-X"
    ∷ codes "--feature"
    ∷ codes "--debug"
    ∷ []

abbrev pub cram_ok_out_formats : List Text
cram_ok_out_formats = codes "wax" ∷ codes "wat" ∷ codes "wasm" ∷ []

abbrev pub cram_ok_in_formats : List Text
cram_ok_in_formats = codes "wax" ∷ []

abbrev pub cram_ok_commands : List Text
cram_ok_commands = codes "convert" ∷ codes "format" ∷ codes "check" ∷ []

-- `while words and "=" in words[0] and not words[0].startswith("-"): words.pop(0)`
unfoldable pub drop_assignments : List Text → List Text
drop_assignments [] = []
drop_assignments (w ∷ words) =
    let rest = drop_assignments words in
    if has_char b'=' w && not (starts_with w (codes "-")) then rest else w ∷ words

-- `w.partition("=")`: the name, and what follows the sign if there is one.
unfoldable pub partition_eq : Text → Text × Option Text
partition_eq [] = ([], none)
partition_eq (c ∷ w) =
    let (name, inline) = partition_eq w in if c == b'=' then ([], some w) else (c ∷ name, inline)

-- What the loop over the words has come to.
pub data Scan : Type 0 where
  refused : Reason → Scan
  scanned : List Text → Scan

abbrev pub is_positional : Text → Bool
is_positional w = not (starts_with w (codes "-")) || w == codes "-"

-- The two tests of a format; the first that fails gives the reason.
abbrev pub bad_format : Text → Text → Option Reason
bad_format name val =
    if contains name out_format_flags && not (contains val cram_ok_out_formats)
    then some (writes val)
    else if contains name in_format_flags && not (contains val cram_ok_in_formats)
    then some (reads val)
    else none

abbrev pub or_refuse : Option Reason → Scan → Scan
or_refuse none rest = rest
or_refuse (some r) rest = refused r

abbrev pub keep_word : Text → Scan → Scan
keep_word w (refused r) = refused r
keep_word w (scanned ws) = scanned (w ∷ ws)

-- A flag: the next word is its value if it takes one and has none inline. `after` is the scan of
-- the words behind the flag and `after_next` that of the words behind the next one.
abbrev pub scan_flag : Text × Option Text → Text → Scan → Scan → Scan
scan_flag (name, inline) next after after_next =
    if not (contains name cram_ok_flags)
    then refused (flag name)
    else if contains name valued_flags
    then elim inline [
      | some val ↦ or_refuse (bad_format name val) after
      | none ↦ or_refuse (bad_format name next) after_next
    ]
    else after

-- The loop from `i`, which gives the positionals.
unfoldable pub scan : List Text → Scan
unfolding partition_eq
scan [] = scanned []
scan (w ∷ []) =
    if is_positional w
    then scanned (w ∷ [])
    else scan_flag (partition_eq w) [] (scanned []) (scanned [])
scan (w ∷ v ∷ words) =
    let after_next = scan words in
    let after = scan (v ∷ words) in
    if is_positional w then keep_word w after else scan_flag (partition_eq w) v after after_next

-- `w.rsplit(".", 1)[1]`, of a word with a point
abbrev pub extension : Text → Text
extension [] = []
extension (c ∷ w) =
    let rest = extension w in if has_char b'.' w then rest else if c == b'.' then w else rest

-- The loop over the positionals that are files.
unfoldable pub file_reason : List Text → Option Reason
file_reason [] = none
file_reason (w ∷ ws) =
    let rest = file_reason ws in
    if has_char b'.' w && not (ends_with w (codes ".wax"))
    then some (reads_file (extension w))
    else rest

-- Whether the first positional names a subcommand.
abbrev pub names_command : Text → Bool
names_command w = not (has_char b'.' w) && not (has_char b'/' w) && not (w == codes "-")

unfoldable pub positionals_reason : List Text → Option Reason
unfolding file_reason
positionals_reason [] = none
positionals_reason (w ∷ ws) =
    if names_command w
    then if contains w cram_ok_commands then file_reason ws else some (subcommand w)
    else file_reason (w ∷ ws)

abbrev pub scan_reason : Scan → Option Reason
scan_reason (refused r) = some r
scan_reason (scanned ws) = positionals_reason ws

-- `_cram_wax_reason`, of the words behind the assignments
unfoldable pub words_reason : List Text → Option Reason
unfolding scan positionals_reason
words_reason [] = none
words_reason (w ∷ args) = if w == codes "wax" then scan_reason (scan args) else none

unfoldable pub cram_wax_reason : Text → Option Reason
unfolding words_reason drop_assignments
cram_wax_reason seg = words_reason (drop_assignments (split seg))

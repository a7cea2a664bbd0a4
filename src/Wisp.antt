-- ===== src/Wisp.antt =====
-- tools/gen-wisp-runtime.py: the runtime of wisp, embedded in a MoonBit source.
pub mod Laws
pub mod Kept
mod Examples
use wax_mb.Base.{
  ℕ, zero, suc, ◌+◌, ◌-◌, Text, codes, Bool, true, false, not, ◌&&◌, ◌||◌, Option, none, some, List,
  [], ◌∷◌, ◌++◌, map, ◌==◌, list_eq, nat_eq, if◌then◌else◌, starts_with, length, drop, splitlines,
  join, split_char, leb, all,
}
use mathlib.Core.List.{reverse}
use wax_mb.Waxdiff.Fuzz.Tokens.{span, is_digit}
use wax_mb.Grammar.Parse.{is_word}
use wax_mb.Stdlib.{literal_line}

pub const_tail : Text × Text → Option (Text × Text)
const_tail ([], rest) = none
const_tail (c ∷ w, rest) =
    let value = drop 3 rest in
    if starts_with rest (codes " = ") && (not (value == []) && all is_digit value)
    then some (c ∷ w, value)
    else none

-- `^const (\w+) = (\d+)$`, for one line
unfoldable pub const_of : Text → Option (Text × Text)
unfolding const_tail span
const_of line =
    if starts_with line (codes "const ") then const_tail (span is_word (drop 6 line)) else none

-- `re.findall`, over the lines
unfoldable pub consts_of : List Text → List (Text × Text)
consts_of [] = []
consts_of (line ∷ lines) = elim (const_of line) [
  | none ↦ consts_of lines
  | some found ↦ found ∷ consts_of lines
]

abbrev pub defines : Text → Option (Text × Text) → Bool
defines name none = false
defines name (some (found, value)) = found == name

-- `re.sub(r"^const NAME = \d+\n", "", text)`: a last line has no newline, and stays.
unfoldable pub drop_const : Text → List Text → List Text
drop_const name [] = []
drop_const name (line ∷ []) = line ∷ []
drop_const name (line ∷ next ∷ lines) =
    let rest = drop_const name (next ∷ lines) in
    if defines name (const_of line) then rest else line ∷ rest

-- `re.sub(r"\bNAME\b", VALUE, text)`: `word` is the word that is being read, reversed.
abbrev pub close_word : Text → Text → Text → Text
close_word name value word = if reverse word == name then value else reverse word

unfoldable pub replace_word : Text → Text → Text → Text → Text
replace_word name value word [] = close_word name value word
replace_word name value word (c ∷ s) =
    let inside = replace_word name value (c ∷ word) s in
    let outside = replace_word name value [] s in
    if is_word c then inside else close_word name value word ++ (c ∷ outside)

-- One round of the loop over the constants, and the loop
unfoldable pub inline_const : Text × Text → Text → Text
unfolding drop_const
inline_const (name, value) text =
    replace_word name value [] (join (codes "\n") (drop_const name (split_char b'\n' text)))

unfoldable pub inline_consts : List (Text × Text) → Text → Text
inline_consts [] text = text
inline_consts (c ∷ cs) text = inline_consts cs (inline_const c text)

-- `export "[^"]+" `: how many characters it takes at the start of a text
quoted_tail : Text × Text → Option ℕ
quoted_tail ([], rest) = none
quoted_tail (c ∷ name, rest) =
    if starts_with rest (codes "\" ") then some (length name + 11) else none

unfoldable pub export_length : Text → Option ℕ
unfolding span quoted_tail
export_length s =
    if starts_with s (codes "export \"")
    then quoted_tail (span (λ c. not (c == b'"')) (drop 8 s))
    else none

-- `re.sub(r'export "[^"]+" ', '', text)`: `skip` characters still belong to a match.
unfoldable pub strip_exports : ℕ → Text → Text
unfolding export_length
strip_exports skip [] = []
strip_exports (suc skip) (c ∷ s) = strip_exports skip s
strip_exports zero (c ∷ s) = elim (export_length (c ∷ s)) [
  | none ↦ c ∷ strip_exports zero s
  | some n ↦ strip_exports (n - 1) s
]

-- `text.split(marker)[0]`
unfoldable pub before_marker : Text → Text → Text
before_marker marker [] = []
before_marker marker (c ∷ s) =
    let rest = before_marker marker s in if starts_with (c ∷ s) marker then [] else c ∷ rest

abbrev pub transient : Text
transient = codes "pub type transient ="

-- The persistent half of a module, with its constants inlined or not, and without its exports
unfoldable pub vector_source : Text → Text
unfolding consts_of inline_consts strip_exports before_marker
vector_source text =
    let half = before_marker transient text in
    strip_exports 0 (inline_consts (consts_of (split_char b'\n' half)) half)

unfoldable pub map_source : Text → Text
unfolding strip_exports before_marker
map_source text = strip_exports 0 (before_marker transient text)

-- One declaration of the generated file
unfoldable pub embedded : Text → Text → Text
embedded name text =
    codes "///|\nlet "
    ++ name
    ++ codes " : String =\n"
    ++ join (codes "\n") (map literal_line (splitlines text))
    ++ codes "\n"

-- The generated file, from the runtime, the vector and the map
unfoldable pub runtime_file : Text → Text → Text → Text
unfolding embedded vector_source map_source
runtime_file runtime vector hamt =
    codes "// Generated by tools/gen-wisp-runtime.py; edit runtime.wap.\n"
    ++ embedded (codes "runtime_source") runtime
    ++ codes "\n"
    ++ embedded (codes "vector_source") (vector_source vector)
    ++ codes "\n"
    ++ embedded (codes "map_source") (map_source hamt)

-- How the script ends: with `--check` it writes nothing.
pub data Embedding : Type 0 where
  stale : Embedding
  up_to_date : Embedding
  embedding_written : Text → Embedding

abbrev pub is_current : Option Text → Text → Bool
is_current none text = false
is_current (some found) text = found == text

unfoldable pub embed_runtime : Bool → Option Text → Text → Text → Text → Embedding
embed_runtime check target runtime vector hamt =
    let text = runtime_file runtime vector hamt in
    if check then if is_current target text then up_to_date else stale else embedding_written text

-- ===== src/Audit.antt =====
-- `tools/api_audit.py`: the public names of a package that no importer of it mentions. A regular
-- expression of the source is a scanner: none of them has two ways to match from one place.
pub mod Laws
mod Scans
mod Uses
pub mod Examples
use wax_mb.Base.{
  ℕ, zero, suc, ◌+◌, ◌≡◌, refl, Text, codes, Bool, true, false, not, ◌&&◌, ◌||◌, Option, none, some,
  List, [], ◌∷◌, ◌++◌, map, ◌==◌, list_eq, nat_eq, if◌then◌else◌, length, drop, contains, select,
  starts_with, lstrip, splitlines, ltb, any, join,
}
use wax_mb.Base.{text_before}
use wax_mb.Waxdiff.Fuzz.Tokens.{span}
use wax_mb.Grammar.Parse.{is_word, skip_group}

-- The text behind the first of the prefixes that the text starts with
abbrev pub behind_prefix : Text → Text → Option Text
behind_prefix p s = if starts_with s p then some (drop (length p) s) else none

abbrev pub behind_any : List Text → Text → Option Text
behind_any [] s = none
behind_any (p ∷ ps) s =
    let later = behind_any ps s in if starts_with s p then some (drop (length p) s) else later

-- `pub(?:\((?:all|open|readonly)\))? `: what follows it
abbrev pub behind_pub : Text → Option Text
behind_pub s =
    behind_any (map codes ("pub " ∷ "pub(all) " ∷ "pub(open) " ∷ "pub(readonly) " ∷ [])) s

-- `([A-Za-z0-9_]+)`: the name, if it is not empty
abbrev pub name_of : Text × Text → Option Text
name_of ([], rest) = none
name_of (c ∷ name, rest) = some (c ∷ name)

-- `(?:::([A-Za-z0-9_]+))?\(` behind a name, and the name that counts
abbrev pub opens_call : Text × Text → Option Text
opens_call ([], rest) = none
opens_call (c ∷ name, []) = none
opens_call (c ∷ name, p ∷ rest) = if p == b'(' then some (c ∷ name) else none

abbrev pub function_name : Text × Text → Option Text
function_name ([], rest) = none
function_name (c ∷ name, rest) =
    if starts_with rest (codes "::")
    then opens_call (span is_word (drop 2 rest))
    else opens_call (c ∷ name, rest)

-- MBTI_FN
abbrev pub behind_fn : Text → Option Text
behind_fn s = behind_prefix (codes " ") (skip_group b'[' b']' s)

unfoldable pub public_function : Text → Option Text
unfolding span skip_group
public_function line = elim (behind_pub line) [
  | none ↦ none
  | some s ↦ elim (behind_prefix (codes "fn") s) [
    | none ↦ none
    | some t ↦ elim (behind_fn t) [ none ↦ none | some u ↦ function_name (span is_word u) ]
  ]
]

-- MBTI_LET and MBTI_TYPE
abbrev pub let_words : List Text
let_words = codes "let " ∷ codes "const " ∷ []

abbrev pub type_words : List Text
type_words = map codes ("struct " ∷ "enum " ∷ "type " ∷ "trait " ∷ "suberror " ∷ "typealias " ∷ [])

unfoldable pub public_item : List Text → Text → Option Text
unfolding span
public_item keywords line = elim (behind_pub line) [
  | none ↦ none
  | some s ↦ elim (behind_any keywords s) [ none ↦ none | some t ↦ name_of (span is_word t) ]
]

abbrev pub first_some : Option Text → Option Text → Option Text
first_some none other = other
first_some (some x) other = some x

unfoldable pub public_name : Text → Option Text
unfolding public_function public_item
public_name line =
    first_some (public_function line)
      (first_some (public_item let_words line) (public_item type_words line))

-- `out.add(x)`
abbrev pub add : Text → List Text → List Text
add x xs = if contains x xs then xs else x ∷ xs

abbrev pub add_some : Option Text → List Text → List Text
add_some none xs = xs
add_some (some x) xs = add x xs

unfoldable pub names_in : List Text → List Text
unfolding public_name
names_in [] = []
names_in (line ∷ lines) = add_some (public_name line) (names_in lines)

-- `public_names`, of the text of pkg.generated.mbti if it is there
unfoldable pub public_names : Option Text → List Text
unfolding names_in
public_names none = []
public_names (some mbti) = names_in (splitlines mbti)

-- IMPORT_LINE at one place: the path, the alias or an empty text, and what follows
abbrev pub is_path : ℕ → Bool
is_path c = is_word c || c == b'/' || c == b'-'

abbrev pub import_alias : Text → Text → Text × Text × Text
import_alias path [] = (path, [], [])
import_alias path (c ∷ s) =
    let (alias, rest) = span is_word s in
    if c == b'@' && not (alias == []) then (path, alias, rest) else (path, [], c ∷ s)

abbrev pub import_path : Text × Text → Option (Text × Text × Text)
import_path ([], rest) = none
import_path (c ∷ path, []) = none
import_path (c ∷ path, q ∷ s) =
    if q == b'"' then some (import_alias (c ∷ path) (lstrip s)) else none

unfoldable pub import_line : Text → Option (Text × Text × Text)
unfolding span
import_line [] = none
import_line (q ∷ s) = if q == b'"' then import_path (span is_path s) else none

-- `IMPORT_LINE.findall`; `fuel` bounds the characters that are left.
unfoldable pub imports_from : ℕ → Text → List (Text × Text)
unfolding import_line
imports_from zero s = []
imports_from (suc fuel) [] = []
imports_from (suc fuel) (c ∷ s) = elim (import_line (c ∷ s)) [
  | none ↦ imports_from fuel s
  | some (path, alias, rest) ↦ (path, alias) ∷ imports_from fuel rest
]

-- `path.rsplit("/", 1)[-1]`
pub last_part : Text → Text
last_part [] = []
last_part (c ∷ s) =
    let rest = last_part s in
    if any (λ x. x == b'/') s then rest else if c == b'/' then s else c ∷ s

abbrev pub called : Text → Text → Text
called path [] = last_part path
called path (c ∷ alias) = c ∷ alias

unfoldable pub aliases_in : Text → List (Text × Text) → List Text
unfolding last_part
aliases_in pkg [] = []
aliases_in pkg ((path, alias) ∷ imports) =
    let rest = aliases_in pkg imports in if path == pkg then add (called path alias) rest else rest

-- `aliases_for`, of the text of the importer's moon.pkg if it is there
unfoldable pub aliases_for : Text → Option Text → List Text
unfolding imports_from aliases_in
aliases_for pkg none = []
aliases_for pkg (some cfg) = aliases_in pkg (imports_from (length cfg) cfg)

-- `re.findall(rf"@{a}\.([A-Za-z0-9_]+)", text)`
unfoldable pub alias_hits : Text → Text → List Text
unfolding span
alias_hits mark [] = []
alias_hits mark (c ∷ s) =
    let rest = alias_hits mark s in
    if starts_with (c ∷ s) mark
    then add_some (name_of (span is_word (drop (length mark) (c ∷ s)))) rest
    else rest

-- `re.findall(r"\.([A-Za-z0-9_]+)\(", text)`
unfoldable pub call_hits : Text → List Text
unfolding span
call_hits [] = []
call_hits (c ∷ s) =
    let rest = call_hits s in
    if c == b'.' then add_some (opens_call (span is_word s)) rest else rest

-- A package of the workspace: its directory, its moon.pkg, its interface and its sources, joined
pub record Package : Type 0 where
  pub dir : Text
  pub config : Option Text
  pub interface : Option Text
  pub text : Text

abbrev pub hits_of : List Text → Text → List Text
hits_of [] text = call_hits text
hits_of (a ∷ aliases) text = alias_hits (codes "@" ++ a ++ codes ".") text ++ hits_of aliases text

abbrev pub used_under : List Text → Text → List Text
used_under [] text = []
used_under (a ∷ aliases) text = hits_of (a ∷ aliases) text

-- What an importer uses of the package; a package does not import itself.
unfoldable pub used_by : Text → Package → Package → List Text
unfolding aliases_for alias_hits call_hits
used_by pkg d imp =
    if imp.dir == d.dir then [] else used_under (aliases_for pkg imp.config) imp.text

unfoldable pub used : Text → Package → List Package → List Text
unfolding used_by
used pkg d [] = []
used pkg d (imp ∷ importers) = used_by pkg d imp ++ used pkg d importers

-- `pkg_import_path`, of the path from lib/
unfoldable pub pkg_import_path : Text → Text
pkg_import_path rel =
    if rel == codes "." then codes "marianoguerra/wax" else codes "marianoguerra/wax/" ++ rel

-- A row of the report: the package, how many names it has, and those that are not used
pub record Row : Type 0 where
  pub short : Text
  pub promised : ℕ
  pub unused : List Text

unfoldable pub unused_names : Text → Package → List Package → List Text
unfolding used pkg_import_path public_names
unused_names short d importers =
    select (λ x. not (contains x (used (pkg_import_path short) d importers)))
      (public_names d.interface)

-- The loop over the packages; `only` is `--pkg`, or empty.
unfoldable pub rows : Text → List Package → List (Text × Package) → List Row
unfolding unused_names
rows only importers [] = []
rows only importers ((short, d) ∷ packages) =
    let rest = rows only importers packages in
    if (not (only == []) && not (short == only)) || length (public_names d.interface) == 0
    then rest
    else record {
      short = short;
      promised = length (public_names d.interface);
      unused = unused_names short d importers;
    }
      ∷ rest

-- `rows.sort(key=lambda r: -r[2])`, which keeps the order of equal rows
unfoldable pub insert_row : Row → List Row → List Row
insert_row r [] = r ∷ []
insert_row r (s ∷ rs) =
    let rest = insert_row r rs in
    if ltb (length r.unused) (length s.unused) then s ∷ rest else r ∷ s ∷ rs

unfoldable pub sorted_rows : List Row → List Row
unfolding insert_row
sorted_rows [] = []
sorted_rows (r ∷ rs) = insert_row r (sorted_rows rs)

abbrev pub total_promised : List Row → ℕ
total_promised [] = 0
total_promised (r ∷ rs) = r.promised + total_promised rs

abbrev pub total_unused : List Row → ℕ
total_unused [] = 0
total_unused (r ∷ rs) = length r.unused + total_unused rs

-- The rows that are printed, and the totals
unfoldable pub audit : Text → List Package → List (Text × Package) → List Row × ℕ × ℕ
unfolding rows sorted_rows
audit only importers packages =
    let all_rows = sorted_rows (rows only importers packages) in
    (
      select (λ (r : Row). not (length r.unused == 0) || not (only == [])) all_rows,
      total_promised all_rows,
      total_unused all_rows,
    )

-- ===== src/Grammar/Parse.antt =====
-- `parse_grammar`: the rules of a grammar and the symbols of their productions. A regular expression
-- of the source is a scanner here: none of them has two ways to match from one place.
pub mod Alternatives
use wax_mb.Base.{
  split_char, ℕ, zero, suc, ◌+◌, ◌≡◌, refl, Text, codes, Bool, true, false, not, ◌&&◌, ◌||◌, Option,
  none, some, List, [], ◌∷◌, ◌++◌, map, ◌==◌, list_eq, nat_eq, if◌then◌else◌, ◌>>=◌, length, drop,
  contains, is_space, starts_with, lstrip, strip, split,
}
use wax_mb.Waxdiff.Fuzz.Tokens.{span, is_digit, is_letter}
use wax_mb.Grammar.Strip.{strip_ocaml_comments, strip_slashes, strip_actions, action_mark}

-- `\w`
abbrev pub is_word : ℕ → Bool
is_word c = is_letter c || is_digit c

-- The symbols of one alternative
abbrev pub Production : Type 0
Production = List Text

-- `text[text.index(x):]`, where `none` is the `ValueError`
pub from_index : Text → Text → Option Text
from_index x [] = if starts_with [] x then some [] else none
from_index x (c ∷ s) =
    let later = from_index x s in if starts_with (c ∷ s) x then some (c ∷ s) else later

-- What stands behind the first `c`
unfoldable pub behind : ℕ → Text → Option Text
behind c [] = none
behind c (x ∷ s) = let later = behind c s in if x == c then some s else later

-- `(?:\[[^\]]*\])?`, and the same with parentheses
unfoldable pub skip_group : ℕ → ℕ → Text → Text
unfolding behind
skip_group opening closing [] = []
skip_group opening closing (c ∷ s) =
    if c == opening then elim (behind closing s) [ some rest ↦ rest | none ↦ c ∷ s ] else c ∷ s

-- `(?:->[^:\n]*)?:`
abbrev pub colon : Text → Option Text
colon [] = none
colon (c ∷ s) = if c == b':' then some s else none

unfoldable pub skip_type : Text → Option Text
unfolding span
skip_type s =
    if starts_with s (codes "->")
    then colon (span (λ c. not (c == b':' || c == b'\n')) (drop 2 s)).1
    else colon s

-- `([a-z_][A-Za-z_0-9]*)` and the rest of `HEADER`: the name, and what follows the colon
abbrev pub is_lower : ℕ → Bool
is_lower c = c == b'_' || contains c (codes "abcdefghijklmnopqrstuvwxyz")

unfoldable pub named : Text → Option (Text × Text)
unfolding span skip_group skip_type
named [] = none
named (c ∷ s) =
    let (more, rest) = span is_word s in
    let grouped = skip_group b'[' b']' (lstrip rest) in
    let applied = skip_group b'(' b')' (lstrip grouped) in
    elim (skip_type (lstrip applied)) [
      | none ↦ none
      | some body ↦ if is_lower c then some (c ∷ more, body) else none
    ]

abbrev pub blank_first : Text → Bool
blank_first [] = false
blank_first (c ∷ s) = is_space c

-- `HEADER` at the start of a line, with `(?:%inline\s+)?`
unfoldable pub header : Text → Option (Text × Text)
unfolding named
header s =
    if starts_with s (codes "%inline") && blank_first (drop 7 s)
    then named (lstrip (drop 7 s))
    else named s

-- The text before the first header, and each name with the text up to the next header. `fuel` bounds
-- the characters that are left; `start` is true at the start of a line.
unfoldable pub sections : ℕ → Bool → Text → Text × List (Text × Text)
sections zero start s = ([], [])
sections (suc fuel) start [] = ([], [])
sections (suc fuel) start (c ∷ s) = elim (if start then header (c ∷ s) else none) [
  | some (name, rest) ↦ let (body, later) = sections fuel false rest in ([], (name, body) ∷ later)
  | none ↦ let (body, later) = sections fuel (c == b'\n') s in (c ∷ body, later)
]

-- `body.split("|")`
abbrev pub split_bars : Text → List Text
split_bars s = split_char b'|' s

-- `if alts and not alts[0].strip(): alts = alts[1:]`
pub without_empty : List Text → List Text
without_empty [] = []
without_empty (a ∷ alts) = if strip a == [] then alts else a ∷ alts

-- `alt.replace(";", " ").replace(ACTION_MARK.strip(), " ")`
abbrev pub mark_word : Text
mark_word = strip action_mark

pub replace_marks : ℕ → Text → Text
replace_marks zero s = []
replace_marks (suc fuel) [] = []
replace_marks (suc fuel) (c ∷ s) =
    if starts_with (c ∷ s) mark_word
    then b' ' ∷ replace_marks fuel (drop (length mark_word) (c ∷ s))
    else (if c == b';' then b' ' else c) ∷ replace_marks fuel s

-- `%prec\s+\w+`: what follows it
unfoldable pub prec : Text → Option Text
unfolding span
prec s =
    let (w, rest) = span is_word (lstrip (drop 5 s)) in
    if starts_with s (codes "%prec") && blank_first (drop 5 s) && not (w == [])
    then some rest
    else none

pub drop_precs : ℕ → Text → Text
unfolding prec
drop_precs zero s = []
drop_precs (suc fuel) [] = []
drop_precs (suc fuel) (c ∷ s) = elim (prec (c ∷ s)) [
  | some rest ↦ drop_precs fuel rest
  | none ↦ c ∷ drop_precs fuel s
]

-- `[a-zA-Z_][a-zA-Z_0-9]*\s*=\s*`: what follows it
abbrev pub equals : Text → Option Text
equals [] = none
equals (c ∷ s) = if c == b'=' then some (lstrip s) else none

unfoldable pub binder : Text → Option Text
unfolding span
binder [] = none
binder (c ∷ s) = let rest = equals (lstrip (span is_word s).1) in if is_letter c then rest else none

-- `after_word` is true behind a character of a word, where `\b` does not match a letter.
pub drop_binders : ℕ → Bool → Text → Text
unfolding binder
drop_binders zero after_word s = []
drop_binders (suc fuel) after_word [] = []
drop_binders (suc fuel) after_word (c ∷ s) = elim (if after_word then none else binder (c ∷ s)) [
  | some rest ↦ drop_binders fuel false rest
  | none ↦ c ∷ drop_binders fuel (is_word c) s
]

-- The body of the loop over the alternatives
unfoldable pub production : Text → Production
unfolding replace_marks drop_precs drop_binders
production alt =
    let spaced = replace_marks (length alt) alt in
    let plain = drop_precs (length spaced) spaced in split (drop_binders (length plain) false plain)

unfoldable pub productions : Text → List Production
unfolding without_empty production
productions body = map production (without_empty (split_bars body))

-- `rules[name] = prods`: a second rule of a name takes the place of the first.
unfoldable pub put :
    Text → List Production → List (Text × List Production) → List (Text × List Production)
put name prods [] = (name, prods) ∷ []
put name prods ((n, ps) ∷ rules) =
    let rest = put name prods rules in if n == name then (n, prods) ∷ rules else (n, ps) ∷ rest

pub read_rules : List (Text × List Production) → List (Text × Text) → List (Text × List Production)
unfolding put productions
read_rules rules [] = rules
read_rules rules ((name, body) ∷ rest) = read_rules (put name (productions body) rules) rest

unfoldable pub stripped : Bool → Text → Text
unfolding strip_ocaml_comments strip_slashes strip_actions
stripped true text = strip_actions (strip_ocaml_comments text)
stripped false text = strip_actions (strip_slashes text)

unfoldable pub parse_grammar : Text → Bool → Option (List (Text × List Production))
unfolding from_index stripped sections read_rules
parse_grammar text ocaml = do
  rest ← from_index (codes "\n%%") text
  grammar ← some (stripped ocaml (drop 3 rest))
  some (read_rules [] (sections (length grammar) true grammar).1)

two_rules :
    parse_grammar
      (codes "x\n%%\n%inline a(b): | { [] } | c = d; e* %prec low { (* } *) 1 }\nf: a")
      true
    ≡ some (
        (codes "a", [] ∷ (codes "d" ∷ codes "e*" ∷ []) ∷ [])
        ∷ (codes "f", (codes "a" ∷ []) ∷ [])
        ∷ [])
unfolding parse_grammar header productions
two_rules = refl

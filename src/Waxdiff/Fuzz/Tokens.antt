-- ===== src/Waxdiff/Fuzz/Tokens.antt =====
-- `tokenize`: `_TOKEN_RE.findall`. Each alternative of the pattern is a function that gives the
-- token and what follows it. None of them has two ways to match from one place, so that there is
-- nothing to backtrack to.
pub mod Cut
pub mod Spans
use wax_mb.Base.{
  ℕ, zero, suc, Text, codes, Bool, true, false, not, ◌&&◌, ◌||◌, Option, none, some, List, [], ◌∷◌,
  ◌++◌, map, ◌≡◌, refl, ◌==◌, list_eq, nat_eq, if◌then◌else◌, leb, length, contains, is_space,
}

-- A token and the text behind it
abbrev pub Match : Type 0
Match = Option (Text × Text)

abbrev pub push : ℕ → Match → Match
push c none = none
push c (some (t, rest)) = some (c ∷ t, rest)

-- A character class under `*`, which takes all that it can
unfoldable pub span : (ℕ → Bool) → Text → Text × Text
span p [] = ([], [])
span p (c ∷ s) = let (t, rest) = span p s in if p c then (c ∷ t, rest) else ([], c ∷ s)

abbrev pub is_digit : ℕ → Bool
is_digit c = leb b'0' c && leb c b'9'

abbrev pub is_letter : ℕ → Bool
is_letter c = (leb b'A' c && leb c b'Z') || (leb b'a' c && leb c b'z') || c == b'_'

abbrev pub is_hex : ℕ → Bool
is_hex c = is_digit c || (leb b'a' c && leb c b'f') || (leb b'A' c && leb c b'F') || c == b'_'

-- `//[^\n]*`
unfoldable pub line_comment : Text → Match
unfolding span
line_comment [] = none
line_comment (c ∷ []) = none
line_comment (c ∷ d ∷ s) =
    let (t, rest) = span (λ x. not (x == b'\n')) s in
    if c == b'/' && d == b'/' then some (c ∷ d ∷ t, rest) else none

-- `(?:[^*]|\*(?!/))*\*/`: up to the first `*/`
unfoldable pub block_end : Text → Match
block_end [] = none
block_end (c ∷ []) = none
block_end (c ∷ d ∷ s) =
    let later = block_end (d ∷ s) in
    if c == b'*' && d == b'/' then some (c ∷ d ∷ [], s) else push c later

unfoldable pub block_comment : Text → Match
unfolding block_end
block_comment [] = none
block_comment (c ∷ []) = none
block_comment (c ∷ d ∷ s) = if c == b'/' && d == b'*' then push c (push d (block_end s)) else none

-- `(?:[^"\\]|\\.)*"`, and the same of the other quote
unfoldable pub quote_end : ℕ → Text → Match
quote_end q [] = none
quote_end q (c ∷ []) = if c == q then some (c ∷ [], []) else none
quote_end q (c ∷ d ∷ s) =
    let after_two = quote_end q s in
    let after_one = quote_end q (d ∷ s) in
    if c == q
    then some (c ∷ [], d ∷ s)
    else if c == b'\\'
    then if d == b'\n' then none else push c (push d after_two)
    else push c after_one

unfoldable pub quoted : ℕ → Text → Match
unfolding quote_end
quoted q [] = none
quoted q (c ∷ s) = if c == q then push c (quote_end q s) else none

-- One character of a class, and all that follow of a second class
abbrev pub word : (ℕ → Bool) → (ℕ → Bool) → Text → Match
word first more [] = none
word first more (c ∷ s) =
    let (t, rest) = span more s in if first c then some (c ∷ t, rest) else none

-- `[A-Za-z_][A-Za-z0-9_.]*`
unfoldable pub identifier : Text → Match
unfolding span
identifier s = word is_letter (λ c. is_letter c || is_digit c || c == b'.') s

-- `0[xXbBoO][0-9a-fA-F_]+`
unfoldable pub radix : Text → Match
unfolding span
radix [] = none
radix (c ∷ []) = none
radix (c ∷ d ∷ s) =
    if c == b'0' && contains d (b'x' ∷ b'X' ∷ b'b' ∷ b'B' ∷ b'o' ∷ b'O' ∷ [])
    then push c (push d (word is_hex is_hex s))
    else none

-- `(?:\.[0-9_]*)?` behind the digits
abbrev pub fraction : Text → Text × Text
fraction [] = ([], [])
fraction (c ∷ s) =
    let (t, rest) = span (λ x. is_digit x || x == b'_') s in
    if c == b'.' then (c ∷ t, rest) else ([], c ∷ s)

abbrev pub with_fraction : Match → Match
with_fraction none = none
with_fraction (some (t, rest)) = let (f, rest') = fraction rest in some (t ++ f, rest')

-- `[0-9][0-9_]*(?:\.[0-9_]*)?`
unfoldable pub number : Text → Match
unfolding span
number s = with_fraction (word is_digit (λ c. is_digit c || c == b'_') s)

abbrev pub operators3 : List Text
operators3 =
    codes ">>="
    ∷ codes "<<="
    ∷ codes ">=s"
    ∷ codes ">=u"
    ∷ codes "<=s"
    ∷ codes "<=u"
    ∷ codes ">>s"
    ∷ codes ">>u"
    ∷ []

abbrev pub operators2 : List Text
operators2 =
    codes "->"
    ∷ codes "=>"
    ∷ codes "::"
    ∷ codes "=="
    ∷ codes "!="
    ∷ codes "<="
    ∷ codes ">="
    ∷ codes "<<"
    ∷ codes "++"
    ∷ codes "+="
    ∷ codes "-="
    ∷ codes "*="
    ∷ codes "/="
    ∷ codes "%="
    ∷ codes "&="
    ∷ codes "|="
    ∷ codes "^="
    ∷ codes ":="
    ∷ codes "/s"
    ∷ codes "/u"
    ∷ codes "%s"
    ∷ codes "%u"
    ∷ codes "<s"
    ∷ codes "<u"
    ∷ codes ">s"
    ∷ codes ">u"
    ∷ []

unfoldable pub operator3 : List Text → Text → Match
operator3 ops (c ∷ d ∷ e ∷ s) =
    if contains (c ∷ d ∷ e ∷ []) ops then some (c ∷ d ∷ e ∷ [], s) else none
operator3 ops _ = none

unfoldable pub operator2 : List Text → Text → Match
operator2 ops (c ∷ d ∷ s) = if contains (c ∷ d ∷ []) ops then some (c ∷ d ∷ [], s) else none
operator2 ops _ = none

-- `\S`
unfoldable pub visible : Text → Match
visible [] = none
visible (c ∷ s) = if is_space c then none else some (c ∷ [], s)

-- The first alternative that matches
abbrev pub first_match : List Match → Match
first_match [] = none
first_match (none ∷ ms) = first_match ms
first_match (some r ∷ ms) = some r

abbrev pub alternatives : Text → List Match
alternatives s =
    line_comment s
    ∷ block_comment s
    ∷ quoted b'"' s
    ∷ quoted b'\'' s
    ∷ identifier s
    ∷ radix s
    ∷ number s
    ∷ operator3 operators3 s
    ∷ operator2 operators2 s
    ∷ visible s
    ∷ []

-- `_TOKEN_RE.match`, from the start of `s`
unfoldable pub match_token : Text → Match
match_token s = first_match (alternatives s)

-- `findall`: the tokens from left to right; `fuel` bounds the characters that are left.
unfoldable pub tokenize_from : ℕ → Text → List Text
tokenize_from zero s = []
tokenize_from (suc fuel) [] = []
tokenize_from (suc fuel) (c ∷ s) = elim (match_token (c ∷ s)) [
  | some (t, rest) ↦ t ∷ tokenize_from fuel rest
  | none ↦ tokenize_from fuel s
]

unfoldable pub tokenize : Text → List Text
unfolding tokenize_from
tokenize src = tokenize_from (length src) src

source_tokens :
    tokenize (codes "let a.b = 0x1F + 2.5 >>= \"a\\\"b\" // c\n'x'<s/*y*/ 0xg")
    ≡ map codes (
        "let" ∷ "a.b" ∷ "=" ∷ "0x1F" ∷ "+" ∷ "2.5" ∷ ">>=" ∷ "\"a\\\"b\"" ∷ "// c" ∷ "'x'" ∷ "<s"
        ∷ "/*y*/" ∷ "0" ∷ "xg" ∷ [])
unfolding tokenize match_token line_comment block_comment quoted identifier radix number operator3
    operator2 visible
source_tokens = refl

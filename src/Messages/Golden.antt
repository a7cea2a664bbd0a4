-- ===== src/Messages/Golden.antt =====
-- What the generator reads: the declared spellings (`aliases`), the golden (`entries`,
-- `labels_of`), and the rows that errstate prints (`states_of`).
use wax_mb.Base.{
  split_char, onto_first, ℕ, ◌+◌, ◌*◌, ◌-◌, ◌≡◌, refl, Text, codes, Bool, true, false, not, ◌&&◌,
  Option, none, some, List, [], ◌∷◌, ◌==◌, list_eq, nat_eq, if◌then◌else◌, ◌>>=◌, length, leb, drop,
  split, splitlines, strip, lstrip, starts_with,
}
use wax_mb.Messages.Render.{Spellings}
use wax_mb.Waxdiff.Fuzz.Tokens.{span}
use wax_mb.Grammar.Parse.{skip_group, blank_first, is_word}

-- `text.split("\n\n")`
unfoldable pub split_blocks : Text → List Text
split_blocks [] = [] ∷ []
split_blocks (c ∷ []) = (c ∷ []) ∷ []
split_blocks (c ∷ d ∷ s) =
    let after_two = split_blocks s in
    let after_one = split_blocks (d ∷ s) in
    if c == b'\n' && d == b'\n' then [] ∷ after_two else onto_first c after_one

-- A message of the golden, with the sentence that it answers.
pub record Entry : Type 0 where
  pub entry : Text
  pub sentence : List Text
  pub message : Text
  pub markers : List Text

-- `head.split(":", 1)`, where `none` is a head without a colon
unfoldable pub split_colon : Text → Option (Text × Text)
split_colon [] = none
split_colon (c ∷ s) =
    let later = split_colon s in
    if c == b':' then some ([], s) else elim later [ none ↦ none | some (a, b) ↦ some (c ∷ a, b) ]

abbrev pub first_or_empty : List Text → Text
first_or_empty [] = []
first_or_empty (l ∷ ls) = l

unfoldable pub entry_of : Text → Text → Option Entry
unfolding split_colon
entry_of head body = elim (split_colon (strip head)) [
  | none ↦ none
  | some (entry, sentence) ↦ some (record {
    entry = strip entry;
    sentence = split sentence;
    message = first_or_empty (splitlines (strip body));
    markers = drop 1 (splitlines (strip body));
  })
]

-- `for i in range(0, len(blocks) - 1, 2)`: a block that is left over at the end is not read.
unfoldable pub entries_of : List Text → List Entry
unfolding entry_of
entries_of [] = []
entries_of (head ∷ []) = []
entries_of (head ∷ body ∷ blocks) = elim (entry_of head body) [
  | none ↦ entries_of blocks
  | some e ↦ e ∷ entries_of blocks
]

unfoldable pub entries : Text → List Entry
unfolding split_blocks entries_of
entries text = entries_of (split_blocks text)

abbrev pub is_decimal : ℕ → Bool
is_decimal c = leb b'0' c && leb c b'9'

-- The digits at the front, and what follows them
unfoldable pub decimals : Text → Text × Text
decimals [] = ([], [])
decimals (c ∷ s) = let (d, rest) = decimals s in if is_decimal c then (c ∷ d, rest) else ([], c ∷ s)

-- `<(\^?)(\d+)>(.*)$`: whether the caret is there, and the label
abbrev pub numbered : Bool → Text × Text → Option (Bool × Text)
numbered caret (digits, []) = none
numbered caret ([], c ∷ label) = none
numbered caret (d ∷ digits, c ∷ label) = if c == b'>' then some (caret, label) else none

unfoldable pub marker : Text → Option (Bool × Text)
unfolding decimals
marker [] = none
marker (c ∷ []) = none
marker (c ∷ d ∷ s) =
    if not (c == b'<')
    then none
    else if d == b'^'
    then numbered true (decimals s)
    else numbered false (decimals (d ∷ s))

-- The two labels so far, and one more line
abbrev pub relabel : Text × Text → Option (Bool × Text) → Text × Text
relabel labels none = labels
relabel (subject, opener) (some (true, label)) = (strip label, opener)
relabel (subject, opener) (some (false, label)) = (subject, strip label)

unfoldable pub labels_from : Text × Text → List Text → Text × Text
unfolding marker
labels_from labels [] = labels
labels_from labels (line ∷ markers) = labels_from (relabel labels (marker line)) markers

unfoldable pub labels_of : List Text → Text × Text
unfolding labels_from
labels_of markers = labels_from ([], []) markers

-- `int(s)`, of the decimal digits that errstate prints; `none` is the `ValueError`.
pub value_of : ℕ → Text → Option ℕ
value_of n [] = some n
value_of n (c ∷ s) = if is_decimal c then value_of (10 * n + (c - b'0')) s else none

unfoldable pub read_int : Text → Option ℕ
unfolding value_of
read_int [] = none
read_int (c ∷ s) = value_of 0 (c ∷ s)

pub read_ints : List Text → Option (List ℕ)
unfolding read_int
read_ints [] = some []
read_ints (w ∷ ws) = do n ← read_int w; ns ← read_ints ws; some (n ∷ ns)

abbrev pub split_tabs : Text → List Text
split_tabs s = split_char b'\t' s

-- A sentence that fails: the stack, the index of the token it fails on, how many tokens there are,
-- the signature, and the stack that the failure reduces to.
pub record Row : Type 0 where
  pub state : ℕ
  pub stack : List ℕ
  pub index : ℕ
  pub count : ℕ
  pub signature : Text
  pub reduced : Option (List ℕ)

abbrev pub read_reduced : Text → Option (Option (List ℕ))
read_reduced text =
    if text == codes "-" then some none else (do ns ← read_ints (split text); some (some ns))

-- `cols[:5]` and `cols[8]`; a missing column raises.
unfoldable pub read_columns : List Text → Option Row
unfolding read_ints
read_columns (state ∷ stack ∷ index ∷ count ∷ signature ∷ c5 ∷ c6 ∷ c7 ∷ reduced ∷ more) = do
  r ← read_reduced reduced
  n ← read_int state
  ns ← read_ints (split stack)
  i ← read_int index
  k ← read_int count
  some (record { state = n; stack = ns; index = i; count = k; signature = signature; reduced = r })
read_columns _ = none

-- A row `-` is a sentence that parses.
unfoldable pub read_row : Text → Option (Option Row)
unfolding read_columns
read_row r =
    if r == codes "-" then some none else (do row ← read_columns (split_tabs r); some (some row))

unfoldable pub read_rows : List Text → Option (List (Option Row))
unfolding read_row
read_rows [] = some []
read_rows (r ∷ rows) = do row ← read_row r; rest ← read_rows rows; some (row ∷ rest)

-- How `states_of` ends, of the text that errstate prints for `sources`.
pub data States : Type 0 where
  wrong_count : ℕ → ℕ → States
  raised : States
  states : List (Option Row) → States

abbrev pub all_read : Option (List (Option Row)) → States
all_read none = raised
all_read (some rows) = states rows

unfoldable pub states_of : List Text → Text → States
unfolding read_rows
states_of sources out =
    if length (splitlines out) == length sources
    then all_read (read_rows (splitlines out))
    else wrong_count (length (splitlines out)) (length sources)

-- `(.*)"$`: a text that ends in a quote, without it
abbrev pub before_quote : Text → Option Text
before_quote [] = none
before_quote (c ∷ []) = if c == b'"' then some [] else none
before_quote (c ∷ d ∷ s) = elim (before_quote (d ∷ s)) [ none ↦ none | some t ↦ some (c ∷ t) ]

abbrev pub quoted_alias : Text × Text → Option (Text × Text)
quoted_alias ([], rest) = none
quoted_alias (c ∷ name, rest) = elim (lstrip rest) [
  | [] ↦ none
  | q ∷ s ↦
      if blank_first rest && q == b'"'
      then elim (before_quote s) [ none ↦ none | some t ↦ some (c ∷ name, t) ]
      else none
]

-- `%token(?:<[^>]*>)?\s+(.*)$`, and `(\w+)\s+"(.*)"$` of the rest
unfoldable pub alias_of : Text → Option (Text × Text)
unfolding skip_group span
alias_of line =
    let rest = skip_group b'<' b'>' (drop 6 line) in
    if starts_with line (codes "%token") && blank_first rest
    then quoted_alias (span is_word (lstrip rest))
    else none

-- A later declaration of a name stands before an earlier one, and is the one that is found.
unfoldable pub aliases_from : Spellings → List Text → Spellings
unfolding alias_of
aliases_from out [] = out
aliases_from out (line ∷ lines) =
    aliases_from (elim (alias_of (strip line)) [ none ↦ out | some a ↦ a ∷ out ]) lines

unfoldable pub aliases : Text → Spellings
unfolding aliases_from
aliases grammar = aliases_from [] (splitlines grammar)

two_aliases :
    aliases
      (codes "%token<String> IDENT\n  %token PLUS \"+\"\n%token<Int> QUOTE \"'\"\n%tokens X \"x\"")
    ≡ (codes "QUOTE", codes "'") ∷ (codes "PLUS", codes "+") ∷ []
unfolding aliases
two_aliases = refl

one_entry :
    entries
      (codes "stmt: LET IDENT EOF\n\nUnexpected end.\n<^1>this statement\n<2>opened here\n\nrest")
    ≡ record {
      entry = codes "stmt";
      sentence = codes "LET" ∷ codes "IDENT" ∷ codes "EOF" ∷ [];
      message = codes "Unexpected end.";
      markers = codes "<^1>this statement" ∷ codes "<2>opened here" ∷ [];
    }
      ∷ []
unfolding entries
one_entry = refl

two_labels :
    labels_of (codes "<^1>this statement" ∷ codes "<2>opened here" ∷ codes "note" ∷ [])
    ≡ (codes "this statement", codes "opened here")
unfolding labels_of
two_labels = refl

two_rows :
    states_of (codes "a" ∷ codes "b" ∷ []) (codes "-\n5\t0 3 5\t2\t3\tsig\tx\ty\tz\t0 7\n")
    ≡ states (
        none
        ∷ some (record {
          state = 5;
          stack = 0 ∷ 3 ∷ 5 ∷ [];
          index = 2;
          count = 3;
          signature = codes "sig";
          reduced = some (0 ∷ 7 ∷ []);
        })
        ∷ [])
unfolding states_of
two_rows = refl

-- ===== src/Messages/Reductions/Tables.antt =====
-- What `on_error_reduce_ids` reads from the generated parser: `parser_tables`, the bounds of the
-- coding, the lines of the actions, and the declaration of the reference. Each regular expression is
-- tried at every place of the text in turn. A quoted line is taken not to name a file itself, and an
-- offset out of a table, an exception in the source, reads as 0.
use wax_mb.Base.{
  ℕ, zero, suc, ◌+◌, ◌-◌, ◌*◌, ◌/◌, Text, codes, true, false, not, ◌&&◌, Option, none, some, List,
  [], ◌∷◌, ◌++◌, map, ◌==◌, list_eq, nat_eq, if◌then◌else◌, ◌>>=◌, drop, length, get_or,
  starts_with, split_char, splitlines, strip, all, is_space,
}
use wax_mb.Waxdiff.Fuzz.Tokens.{span, is_digit}
use wax_mb.Grammar.Parse.{is_word}
use wax_mb.Messages.Reductions.{Automaton, on_error_reduce_ids}

-- `int(s)`, of decimal digits
unfoldable pub int_from : ℕ → Text → Option ℕ
int_from n [] = some n
int_from n (c ∷ s) =
    let rest = int_from (10 * n + (c - b'0')) s in if is_digit c then rest else none

abbrev pub int_of : Text → Option ℕ
int_of [] = none
int_of (c ∷ s) = int_from 0 (c ∷ s)

-- What stands behind a fixed start
abbrev pub after : Text → Text → Option Text
after prefix s = if starts_with s prefix then some (drop (length prefix) s) else none

-- `(\d+)` at the start: the number, and what follows
abbrev pub number_of : Text × Text → Option (ℕ × Text)
number_of (digits, rest) = do n ← int_of digits; some (n, rest)

unfoldable pub number_at : Text → Option (ℕ × Text)
unfolding span int_from
number_at s = number_of (span is_digit s)

-- `re.search`, for what is tried at each place
unfoldable pub search_first {ℓ} : {A : Type ℓ} → (Text → Option A) → Text → Option A
search_first try [] = try []
search_first try (c ∷ s) =
    let later = search_first try s in elim (try (c ∷ s)) [ some a ↦ some a | none ↦ later ]

-- `(.*?)\]`: up to the first bracket
unfoldable pub up_to : ℕ → Text → Option Text
up_to c [] = none
up_to c (x ∷ s) = elim (up_to c s) [
  | none ↦ if x == c then some [] else none
  | some t ↦ if x == c then some [] else some (x ∷ t)
]

abbrev pub nonempty_word : Text × Text → Option Text
nonempty_word ([], rest) = none
nonempty_word (c ∷ w, rest) = some rest

-- `let NAME : FixedArray\[\w+\] = \[(.*?)\]`
unfoldable pub table_at : Text → Text → Option Text
unfolding span up_to
table_at name s = do
  rest ← after (codes "let " ++ name ++ codes " : FixedArray[") s
  rest ← nonempty_word (span is_word rest)
  rest ← after (codes "] = [") rest
  up_to b']' rest

-- `x.replace("yy_action_", "")`: `skip` characters still belong to a match.
unfoldable pub drop_prefixes : ℕ → Text → Text
drop_prefixes skip [] = []
drop_prefixes (suc skip) (c ∷ s) = drop_prefixes skip s
drop_prefixes zero (c ∷ s) = elim (starts_with (c ∷ s) (codes "yy_action_")) [
  | true ↦ drop_prefixes 9 s
  | false ↦ c ∷ drop_prefixes zero s
]

abbrev pub spaces : Text → Text
spaces s = map (λ c. if c == b'\n' then b' ' else c) s

-- The items between the commas that are not blank, each a number
unfoldable pub items_of : List Text → Option (List ℕ)
unfolding drop_prefixes int_from
items_of [] = some []
items_of (x ∷ xs) = elim (strip x) [
  | [] ↦ items_of xs
  | c ∷ s ↦ elim (int_of (drop_prefixes 0 (c ∷ s))) [
    | none ↦ none
    | some n ↦ elim (items_of xs) [ none ↦ none | some ns ↦ some (n ∷ ns) ]
  ]
]

-- `none` is the AttributeError where there is no such table, or a ValueError.
unfoldable pub parser_tables : Text → Text → Option (List ℕ)
unfolding table_at items_of search_first
parser_tables src name = do
  body ← search_first (table_at name) src
  items_of (split_char b',' (spaces body))

-- `fn yy_state\(.*?\[state \* (\d+) \+ symbol\]`
unfoldable pub cols_here : Text → Option ℕ
unfolding number_at
cols_here s = do
  rest ← after (codes "[state * ") s
  (n, rest) ← number_at rest
  rest ← after (codes " + symbol]") rest
  some n

abbrev pub cols_at : Text → Option ℕ
cols_at s = do rest ← after (codes "fn yy_state(") s; search_first cols_here rest

-- `2\.\.=(\d+) => Shift.*?(\d+)\.\.=(\d+) =>`
unfoldable pub reduce_range : Text → Option (ℕ × ℕ)
unfolding number_at
reduce_range s = do
  (first, rest) ← number_at s
  rest ← after (codes "..=") rest
  (last, rest) ← number_at rest
  rest ← after (codes " =>") rest
  some (first, last)

unfoldable pub bounds_at : Text → Option (ℕ × ℕ × ℕ)
unfolding number_at reduce_range search_first
bounds_at s = do
  rest ← after (codes "2..=") s
  (last_shift, rest) ← number_at rest
  rest ← after (codes " => Shift") rest
  (first, last) ← search_first reduce_range rest
  some (last_shift, first, last)

-- `// file:///(\S+)` up to the end of a line
unfoldable pub file_at : Text → Option Text
file_at s = do
  rest ← after (codes "// file:///") s
  if not (rest == []) && all (λ c. not (is_space c)) rest then some rest else none

-- `// (\d+)\|` at the start of a line
unfoldable pub quoted_line : Text → Option ℕ
unfolding number_at
quoted_line s = do
  rest ← after (codes "// ") s
  (n, rest) ← number_at rest
  rest ← after (codes "|") rest
  some n

-- `fn yy_action_(\d+)\(` at the start of a line
unfoldable pub action_line : Text → Option ℕ
unfolding number_at
action_line s = do
  rest ← after (codes "fn yy_action_") s
  (n, rest) ← number_at rest
  rest ← after (codes "(") rest
  some n

-- Where the reading of the lines stands: the file of the line before, or the file and the first
-- quoted line of an action.
pub data Reading : Type 0 where
  idle : Reading
  in_file : Text → Reading
  in_quote : Text → ℕ → Reading

abbrev pub file_state : Text → Reading
file_state line = elim (search_first file_at line) [ none ↦ idle | some file ↦ in_file file ]

-- One line: an action that ends here, if there is one, and the state behind the line.
abbrev pub read_action_line : Reading → Text → Option (Text × ℕ × ℕ) × Reading
read_action_line idle line = (none, file_state line)
read_action_line (in_file file) line = elim (quoted_line line) [
  | none ↦ (none, file_state line)
  | some n ↦ (none, in_quote file n)
]
read_action_line (in_quote file n) line = elim (action_line line) [
  | some a ↦ (some (file, n, a), idle)
  | none ↦ elim (quoted_line line) [
    | some m ↦ (none, in_quote file n)
    | none ↦ (none, file_state line)
  ]
]

abbrev pub with_action : Option (Text × ℕ × ℕ) → List (Text × ℕ × ℕ) → List (Text × ℕ × ℕ)
with_action none rest = rest
with_action (some a) rest = a ∷ rest

-- The triples of `re.findall`, from the lines of the generated parser.
unfoldable pub actions_of : Reading → List Text → List (Text × ℕ × ℕ)
unfolding file_at quoted_line action_line search_first
actions_of state [] = []
actions_of state (line ∷ lines) =
    let (found, state') = read_action_line state line in with_action found (actions_of state' lines)

abbrev pub count_at : Text → Option (ℕ × Text)
count_at s = do rest ← after (codes "let terminal_symbol_count = ") s; number_at rest

-- `%on_error_reduce (.*)`
unfoldable pub line_rest : Text → Text
line_rest [] = []
line_rest (c ∷ s) = let rest = line_rest s in if c == b'\n' then [] else c ∷ rest

abbrev pub declaration_at : Text → Option Text
declaration_at s = do rest ← after (codes "%on_error_reduce ") s; some (line_rest rest)

-- A division by 0 is an exception.
abbrev pub nonzero : Option ℕ → Option ℕ
nonzero none = none
nonzero (some zero) = none
nonzero (some (suc n)) = some (suc n)

-- The automaton, from the generated parser and the text of state.mbt
unfoldable pub automaton_of : Text → Text → Option Automaton
unfolding parser_tables search_first cols_here bounds_at number_at
automaton_of src state_source = do
  lhs ← parser_tables src (codes "yy_prod_lhs_table")
  act ← parser_tables src (codes "yy_prod_act_table")
  len ← parser_tables src (codes "yy_prod_len_table")
  table ← parser_tables src (codes "yy_state_table")
  cols ← nonzero (search_first cols_at src)
  (last_shift, first_reduce, last_reduce) ← search_first bounds_at src
  (terminals, rest) ← search_first count_at state_source
  some (record {
    cell = λ i. get_or table i 0;
    lhs = λ p. get_or lhs p 0;
    len = λ p. get_or len p 0;
    act = λ p. get_or act p 0;
    productions = length lhs;
    states = length table / cols;
    terminals = terminals;
    cols = cols;
    last_shift = last_shift;
    first_reduce = first_reduce;
    last_reduce = last_reduce;
  })

-- `on_error_reduce_ids`, from the texts that it reads: what moonyacc wrote, the grammar, state.mbt
-- and the grammar of the reference.
unfoldable pub error_reductions : Text → Text → Text → Text → Option (List (ℕ × Text))
unfolding automaton_of actions_of search_first line_rest
error_reductions src grammar state_source mly = do
  a ← automaton_of src state_source
  declaration ← search_first declaration_at mly
  on_error_reduce_ids a (splitlines grammar) (actions_of idle (split_char b'\n' src)) declaration

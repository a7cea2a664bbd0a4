-- ===== src/Messages/Reductions/Examples.antt =====
-- The theorems of the error reductions, at a small automaton.
use mathlib.Core.List.{Memᴰ}
use wax_mb.Messages.Reductions.Denoted.{IsNonterminal}
use wax_mb.Base.{
  split_char, ℕ, ◌≡◌, ◌↔◌, refl, Text, codes, true, none, some, List, [], ◌∷◌, ◌==◌, nat_eq,
  if◌then◌else◌, split,
}
use wax_mb.Grammar.Parse.{behind}
use wax_mb.Messages.Reductions.Tables.{
  parser_tables, search_first, table_at, items_of, int_from, drop_prefixes, up_to, actions_of, idle,
  file_at, quoted_line, action_line, number_at, bounds_at, reduce_range,
}
use wax_mb.Waxdiff.Fuzz.Tokens.{span}
use wax_mb.Messages.Reductions.{
  Automaton, Ids, ids_of, decide, applied, is_instance, reduces_to, rule_name, on_error_reduce_ids,
  on_error_reduce,
}
use wax_mb.Messages.Reductions.Laws.{
  IsDeclared, on_error_reduce_ids-answers, on_error_reduce_ids-stops,
}

-- `expr` is nonterminal 10. The rule `list_of` has the nonterminals 11 and 12, and it is 11 that a
-- goto on 10 leads into.
abbrev small : Automaton
small = record {
  cell = λ n. if n == 10 then 3 else if n == 31 then 4 else 0;
  lhs = λ p. if p == 0 then 10 else if p == 1 then 11 else 12;
  len = λ p. 2;
  act = λ p. p;
  productions = 3;
  states = 2;
  terminals = 2;
  cols = 20;
  last_shift = 9;
  first_reduce = 10;
  last_reduce = 15;
}

abbrev small_rules : List Text
small_rules = codes "expr : x" ∷ codes "list_of(x):" ∷ codes "  | x" ∷ []

abbrev small_actions : List (Text × ℕ × ℕ)
small_actions =
    (codes "g/parser.mbty", 1, 0)
    ∷ (codes "g/parser.mbty", 2, 1)
    ∷ (codes "g/parser.mbty", 3, 2)
    ∷ (codes "lib/list.mbty", 3, 1)
    ∷ []

abbrev small_ids : Ids
small_ids = (codes "expr", 10 ∷ []) ∷ (codes "list_of", 12 ∷ 11 ∷ []) ∷ []

small_ids_of : ids_of small small_rules small_actions ≡ some small_ids
unfolding ids_of rule_name
small_ids_of = refl

abbrev small_declaration : Text
small_declaration = codes "expr list(\",\",expr)"

small_reductions :
    on_error_reduce_ids small small_rules small_actions small_declaration
    ≡ some ((10, codes "expr") ∷ (11, codes "list(\",\",expr)") ∷ [])
unfolding on_error_reduce_ids ids_of rule_name applied behind is_instance reduces_to decide
small_reductions = refl

on_error_reduce_ids-answers_example :
    (ids : Ids) × (ids_of small small_rules small_actions ≡ some ids)
    × ((symbol : ℕ)
        → (on_error_reduce ((10, codes "expr") ∷ (11, codes "list(\",\",expr)") ∷ []) symbol ≡ true)
          ↔ IsDeclared small ids (split small_declaration) symbol)
on_error_reduce_ids-answers_example =
    on_error_reduce_ids-answers small small_rules small_actions small_declaration
      ((10, codes "expr") ∷ (11, codes "list(\",\",expr)") ∷ []) small_reductions

-- The rule list_of has two nonterminals.
on_error_reduce_ids-stops_example :
    (on_error_reduce_ids small small_rules small_actions (codes "expr list_of") ≡ none) ↔ (
      (d : Text) × Memᴰ d (codes "expr" ∷ codes "list_of" ∷ [])
      × ((id : ℕ) → ¬ IsNonterminal small small_ids d id))
on_error_reduce_ids-stops_example =
    on_error_reduce_ids-stops small small_rules small_actions (codes "expr list_of") small_ids
      small_ids_of

abbrev parser_text : Text
parser_text =
    codes
      "let t : FixedArray[Int] = [1,\n yy_action_2, 30]\n// file:///g/parser.mbty\n// 7|  a\n// 8|  b\nfn yy_action_5(x) {\nfn yy_state(s) { table[state * 12 + symbol] }\n 2..=40 => Shift(x)\n 41..=50 =>"

tables_read : parser_tables parser_text (codes "t") ≡ some (1 ∷ 2 ∷ 30 ∷ [])
unfolding parser_tables search_first table_at items_of int_from drop_prefixes up_to span
tables_read = refl

actions_read : actions_of idle (split_char b'\n' parser_text) ≡ (codes "g/parser.mbty", 7, 5) ∷ []
unfolding actions_of search_first file_at quoted_line action_line number_at int_from span
actions_read = refl

bounds_read : search_first bounds_at parser_text ≡ some (40, 41, 50)
unfolding search_first bounds_at reduce_range number_at int_from span
bounds_read = refl

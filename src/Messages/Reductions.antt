-- ===== src/Messages/Reductions.antt =====
-- `on_error_reduce_ids`: which of our nonterminals are the symbols that the reference declares
-- `%on_error_reduce`, and the function that `write_error_reduce` writes. The tables and the actions
-- that the source reads from the generated parser are arguments here; Tables reads them.
pub mod Laws
pub mod Denoted
pub mod Tables
pub mod Examples
use mathlib.Core.List.{reverse}
use wax_mb.Base.{
  ℕ, zero, suc, ◌+◌, ◌-◌, ◌*◌, Text, codes, Bool, true, false, not, ◌&&◌, ◌||◌, Option, none, some,
  List, [], ◌∷◌, ◌++◌, ◌≡◌, refl, map, ◌==◌, list_eq, nat_eq, if◌then◌else◌, ◌>>=◌, leb, ltb, any,
  select, take, split, contains, ends_with,
}
use wax_mb.Waxdiff.Fuzz.Tokens.{span, is_digit}
use wax_mb.Grammar.Parse.{is_lower, is_word, behind}

-- What the generated parser says: `yy_state_table` at an offset, the left side and the length of a
-- production and its action, and the bounds of the coding of the table.
pub record Automaton : Type 0 where
  pub cell : ℕ → ℕ
  pub lhs : ℕ → ℕ
  pub len : ℕ → ℕ
  pub act : ℕ → ℕ
  pub productions : ℕ
  pub states : ℕ
  pub terminals : ℕ
  pub cols : ℕ
  pub last_shift : ℕ
  pub first_reduce : ℕ
  pub last_reduce : ℕ

pub data Action : Type 0 where
  shift reduce : ℕ → Action

-- `range(n)`
abbrev pub range : ℕ → List ℕ
range zero = []
range (suc n) = range n ++ n ∷ []

module _ (a : Automaton) where
  open a use {
    cell, lhs, len, act, productions, states, terminals, cols, last_shift, first_reduce,
    last_reduce,
  }

  unfoldable pub decide : ℕ → ℕ → Option Action
  decide s sym =
      let e = cell (s * cols + sym) in
      if leb 2 e && leb e last_shift
      then some (shift (e - 2))
      else if leb first_reduce e
      then some (reduce (if leb e last_reduce then e - first_reduce else e - (last_reduce + 1)))
      else none

  -- `(r := decide(t, a)) and r[0] == "reduce" and lhs[r[1]] == L and length[r[1]] == 1`
  abbrev pub is_reduction : ℕ → Option Action → Bool
  is_reduction l none = false
  is_reduction l (some (shift t)) = false
  is_reduction l (some (reduce p)) = lhs p == l && len p == 1

  abbrev pub is_shift : Option Action → Bool
  is_shift none = false
  is_shift (some (shift t)) = true
  is_shift (some (reduce p)) = false

  -- `for a in range(1, terminals + 1)`
  unfoldable pub reduces_to : ℕ → ℕ → Bool
  unfolding decide
  reduces_to t l = any (λ n. is_reduction l (decide t (n + 1))) (range terminals)

  -- One state of the search for an instance of a list over `x`
  abbrev pub leads_in : ℕ → Option Action → Bool
  leads_in l none = false
  leads_in l (some (reduce p)) = false
  leads_in l (some (shift t)) = reduces_to t l || is_shift (decide t l)

  unfoldable pub is_instance : ℕ → ℕ → Bool
  unfolding decide reduces_to
  is_instance x l = any (λ s. leads_in l (decide s x)) (range states)

-- `^([a-z_][a-z0-9_]*)\b`
abbrev pub is_lower_word : ℕ → Bool
is_lower_word c = is_lower c || is_digit c

abbrev pub bounded : Text × Text → Option Text
bounded (name, []) = some name
bounded (name, c ∷ s) = if is_word c then none else some name

unfoldable pub rule_name : Text → Option Text
unfolding span
rule_name [] = none
rule_name (c ∷ s) = if is_lower c then bounded (span is_lower_word (c ∷ s)) else none

unfoldable pub first_name : List Text → Option Text
unfolding rule_name
first_name [] = none
first_name (l ∷ ls) = elim (rule_name l) [ none ↦ first_name ls | some name ↦ some name ]

-- `rule_at`: the rule above a line of the grammar, which has that line; `none` is the exit.
unfoldable pub rule_at : List Text → ℕ → Option Text
unfolding first_name
rule_at rules line = first_name (reverse (take line rules))

-- A dict of sets of ids
abbrev pub Ids : Type 0
Ids = List (Text × List ℕ)

abbrev pub ids_get : Ids → Text → List ℕ
ids_get [] k = []
ids_get ((j, ids) ∷ rest) k = let later = ids_get rest k in if j == k then ids else later

-- `ids_of[name].add(id)`
unfoldable pub ids_add : Text → ℕ → Ids → Ids
ids_add name id [] = (name, id ∷ []) ∷ []
ids_add name id ((j, ids) ∷ rest) =
    let later = ids_add name id rest in
    if j == name then (j, if contains id ids then ids else id ∷ ids) ∷ rest else (j, ids) ∷ later

-- `line_of`: the lines of the actions that stand in the grammar, by their numbers; a later one of a
-- number replaces an earlier one.
abbrev pub line_of : List (Text × ℕ × ℕ) → ℕ → Option ℕ
line_of [] action = none
line_of ((file, line, n) ∷ actions) action =
    let later = line_of actions action in
    elim later [
      | some l ↦ some l
      | none ↦ if ends_with file (codes "parser.mbty") && n == action then some line else none
    ]

module _ (a : Automaton) (rules : List Text) (actions : List (Text × ℕ × ℕ)) where
  abbrev pub add_named : ℕ → Option ℕ → Ids → Option Ids
  add_named id none ids = some ids
  add_named id (some line) ids = do name ← rule_at rules line; some (ids_add name id ids)

  -- `for p in range(len(lhs))`
  unfoldable pub ids_from : List ℕ → Ids → Option Ids
  unfolding rule_at ids_add
  ids_from [] ids = some ids
  ids_from (p ∷ ps) ids = do
    ids' ← add_named (a.lhs p) (line_of actions (a.act p)) ids
    ids_from ps ids'

  unfoldable pub ids_of : Option Ids
  unfolding ids_from
  ids_of = ids_from (range a.productions) []

-- `(\w+)\((?:"[^"]*",)?(\w+)\)$`: a rule and the element that it is applied to
abbrev pub comma : Option Text → Option Text
comma none = none
comma (some []) = none
comma (some (c ∷ s)) = if c == b',' then some s else none

abbrev pub skip_quoted : Text → Option Text
skip_quoted [] = some []
skip_quoted (c ∷ s) = if c == b'"' then comma (behind b'"' s) else some (c ∷ s)

abbrev pub element : Text × Text → Option Text
element ([], rest) = none
element (c ∷ name, rest) = if rest == codes ")" then some (c ∷ name) else none

abbrev pub applied_to : Text → Text → Option (Text × Text)
applied_to name [] = none
applied_to name (p ∷ s) =
    if p == b'(' && not (name == [])
    then (do t ← skip_quoted s; x ← element (span is_word t); some (name, x))
    else none

unfoldable pub applied : Text → Option (Text × Text)
unfolding span
applied d = let (name, rest) = span is_word d in applied_to name rest

-- GENERIC
abbrev pub generic : List (Text × Text)
generic =
    (codes "separated_nonempty_list_trailing", codes "non_empty_sep_trailing")
    ∷ (codes "list", codes "list_of")
    ∷ (codes "semi_list", codes "semi_list")
    ∷ []

abbrev pub generic_of : Text → List (Text × Text) → Option Text
generic_of k [] = none
generic_of k ((n, v) ∷ rest) = let later = generic_of k rest in if n == k then some v else later

abbrev pub the_one : List ℕ → Option ℕ
the_one [] = none
the_one (x ∷ []) = some x
the_one (x ∷ y ∷ xs) = none

-- `out[found.pop()] = d`
unfoldable pub out_set : ℕ → Text → List (ℕ × Text) → List (ℕ × Text)
out_set id d [] = (id, d) ∷ []
out_set id d ((j, e) ∷ out) =
    let later = out_set id d out in if j == id then (j, d) ∷ out else (j, e) ∷ later

module _ (a : Automaton) (ids : Ids) where
  -- `found`, of a declared symbol; `none` is an element without a single rule, or a rule that is not
  -- in GENERIC.
  abbrev pub found_of : Text → Option (Text × Text) → Option (List ℕ)
  found_of d none = some (ids_get ids d)
  found_of d (some (rule, x)) = do
    id ← the_one (ids_get ids x)
    ours ← generic_of rule generic
    some (select (λ l. is_instance a id l) (ids_get ids ours))

  -- The nonterminal that is the declared symbol, if there is one and only one.
  unfoldable pub nonterminal : Text → Option ℕ
  unfolding applied is_instance
  nonterminal d = do found ← found_of d (applied d); the_one found

  -- The loop over the declared symbols; `none` is the exit.
  unfoldable pub declared_from : List (ℕ × Text) → List Text → Option (List (ℕ × Text))
  unfolding nonterminal out_set
  declared_from out [] = some out
  declared_from out (d ∷ ds) = do id ← nonterminal d; declared_from (out_set id d out) ds

-- `on_error_reduce_ids`; `declaration` is what follows `%on_error_reduce` in a line.
unfoldable pub on_error_reduce_ids :
    Automaton → List Text → List (Text × ℕ × ℕ) → Text → Option (List (ℕ × Text))
unfolding ids_of declared_from
on_error_reduce_ids a rules actions declaration = do
  ids ← ids_of a rules actions
  declared_from a ids [] (split declaration)

-- `on_error_reduce` of the generated file
unfoldable pub on_error_reduce : List (ℕ × Text) → ℕ → Bool
on_error_reduce [] symbol = false
on_error_reduce ((i, d) ∷ ids) symbol = i == symbol || on_error_reduce ids symbol

applied_list :
    applied (codes "separated_list(\",\",expression)")
    ≡ some (codes "separated_list", codes "expression")
unfolding applied behind
applied_list = refl

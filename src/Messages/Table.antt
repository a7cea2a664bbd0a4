-- ===== src/Messages/Table.antt =====
-- `build`: the table from keys to messages, deepened where two messages claim a key, and the
-- `lookup` that the generated file walks it with.
pub mod Entries
pub mod Groups
pub mod Visit
pub mod Lookup
pub mod Build
pub mod Agreement
pub mod Recorded
pub mod Depth
pub mod Laws
use wax_mb.Base.{
  ℕ, zero, suc, ◌+◌, Text, Bool, true, false, Option, none, some, List, [], ◌∷◌, ◌++◌, Eq, ◌==◌,
  list_eq, nat_eq, length, all, any, ltb, min, max, split, if◌then◌else◌,
}
use wax_mb.Messages.Key.{key_of}

-- `out`, a dict from keys to a value or to None, "look one frame deeper".
abbrev pub Table : Type 0 → Type 0
Table V = List (Text × Option V)

module _ {V : Type 0} where
  unfoldable pub table_get : Table V → Text → Option (Option V)
  table_get [] k = none
  table_get ((j, v) ∷ t) k = if j == k then some v else table_get t k

  -- `out[key] = v`
  unfoldable pub table_set : Table V → Text → Option V → Table V
  table_set [] k v = (k, v) ∷ []
  table_set ((j, w) ∷ t) k v = if j == k then (k, v) ∷ t else (j, w) ∷ table_set t k v

abbrev pub Items : Type 0 → Type 0
Items V = List (List ℕ × V)

module _ {V : Type 0} ⦃e : Eq V⦄ where
  -- `groups[key].append((stack, value))`, of a defaultdict
  unfoldable pub add_to_group : Text → List ℕ × V → List (Text × Items V) → List (Text × Items V)
  add_to_group k item [] = (k, item ∷ []) ∷ []
  add_to_group k item ((j, group) ∷ groups) =
      if j == k then (j, group ++ item ∷ []) ∷ groups else (j, group) ∷ add_to_group k item groups

  unfoldable pub group_from : ℕ → Items V → List (Text × Items V) → List (Text × Items V)
  group_from depth [] groups = groups
  group_from depth ((stack, v) ∷ items) groups =
      group_from depth items (add_to_group (key_of stack depth) (stack, v) groups)

  -- The one value of a group, if `len({v for _, v in group}) == 1`.
  unfoldable pub unanimous : Items V → Option V
  unanimous [] = none
  unanimous ((stack, v) ∷ group) =
      if all (λ (item : List ℕ × V). item.1 == v) group then some v else none

  unfoldable pub has_deeper : ℕ → Items V → Bool
  has_deeper depth group = any (λ (item : List ℕ × V). ltb depth (length item.0)) group

  -- The body of the loop over the groups: the table, and the items that were dropped. `deeper` is
  -- the recursive call, one frame down; the last two are `unanimous` and `has_deeper`.
  abbrev pub place :
      (Items V → Table V → Table V × ℕ) → Text → Items V → Table V → Option V → Bool → Table V × ℕ
  place deeper key group out (some v) more = (table_set out key (some v), 0)
  place deeper key group out none false = (out, length group)
  place deeper key group out none true = deeper group (table_set out key none)

  unfoldable pub visit :
      (Items V → Table V → Table V × ℕ) → ℕ → List (Text × Items V) → Table V → ℕ → Table V × ℕ
  visit deeper depth [] out dropped = (out, dropped)
  visit deeper depth ((key, group) ∷ groups) out dropped =
      let placed = place deeper key group out (unanimous group) (has_deeper depth group) in
      visit deeper depth groups placed.0 (dropped + placed.1)

  -- `fuel` bounds the frames below `depth`; with none left the recursive call is not reached.
  unfoldable pub build : ℕ → Items V → ℕ → Table V → Table V × ℕ
  build zero items depth out =
      visit (λ group out'. (out', 0)) depth (group_from depth items []) out 0
  build (suc fuel) items depth out =
      visit (λ group out'. build fuel group (depth + 1) out') depth (group_from depth items []) out
        0

module _ {V : Type 0} where
  -- What `lookup` makes of an entry; `deeper` is what the next depth gives.
  abbrev pub follow : Option (Option V) → Option V → Option V
  follow none deeper = none
  follow (some (some v)) deeper = some v
  follow (some none) deeper = deeper

  -- `lookup` of the generated file: `n` is the number of depths that are left to try.
  unfoldable pub walk : Table V → List ℕ → ℕ → ℕ → Option V
  walk t stack depth zero = none
  walk t stack depth (suc n) =
      let deeper = walk t stack (depth + 1) n in follow (table_get t (key_of stack depth)) deeper

module _ {V : Type 0} where
  -- `max(len(k.split()) for k in table)`, 0 for an empty table
  abbrev pub deepest : Table V → ℕ
  deepest [] = 0
  deepest ((k, v) ∷ t) = max (length (split k)) (deepest t)

  -- The greatest depth of the two tables that main writes, which bounds the lookup in both.
  abbrev pub max_depth : Table V → Table V → ℕ
  max_depth [] reduced = 0
  max_depth (entry ∷ table) reduced = max (deepest (entry ∷ table)) (deepest reduced)

  -- `if m.signature == signature || message_fits(m.text, signature)`, an argument here: the
  -- signature and `message_fits` belong to the parser that the generated file is a part of.
  abbrev pub guarded : (V → Bool) → Option V → Option V
  guarded accepts none = none
  guarded accepts (some v) = if accepts v then some v else none

  -- `depth = 1; depth <= stack.length() && depth <= {max_depth}`
  abbrev pub lookup : (V → Bool) → ℕ → Table V → List ℕ → Option V
  lookup accepts bound t stack = guarded accepts (walk t stack 1 (min (length stack) bound))

abbrev pub longest : {V : Type 0} → Items V → ℕ
longest [] = 0
longest ((stack, v) ∷ items) = max (length stack) (longest items)

-- `table` of main, after `build(items, 1, table)`; also `reduced_table`, of `reduced_items`
abbrev pub table_of : {V : Type 0} ⦃e : Eq V⦄ → Items V → Table V
table_of items = (build (longest items) items 1 []).0

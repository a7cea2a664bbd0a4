-- ===== src/Messages/Examples.antt =====
-- The theorems of the message table at small tables, and tests of its definitions.
use mathlib.Core.List.{Memᴰ}
use mathlib.Core.List.Memᴰ.{head, tail}
use wax_mb.Base.{
  leb, true, ℕ, ◌+◌, ◌≤◌, ◌<◌, ◌↔◌, codes, ◌≡◌, refl, none, some, [], ◌∷◌, nat_eq, arith,
}
use wax_mb.Messages.Key.{key_of, last_frames}
use wax_mb.Messages.Key.Injective.{key_of-injective}
use wax_mb.Messages.Table.Recorded.{IsShared}
use wax_mb.Messages.Table.Laws.{table_answers_recorded, table_answers-IsShared}
use wax_mb.Messages.Table.{
  lookup, max_depth, table_of, Items, walk, table_get, build, visit, group_from, add_to_group,
  unanimous, has_deeper, table_set,
}

-- Two stacks that end alike are told apart by a second frame.
build-contested :
    build {V = ℕ} 2 ((0 ∷ 3 ∷ 55 ∷ [], 1) ∷ (0 ∷ 4 ∷ 55 ∷ [], 2) ∷ (0 ∷ 7 ∷ [], 3) ∷ []) 1 [] ≡ (
      (codes "55", none)
          ∷ (codes "3 55", some 1)
          ∷ (codes "4 55", some 2)
          ∷ (codes "7", some 3)
          ∷ [],
      0,
    )
unfolding build visit group_from add_to_group unanimous has_deeper table_set key_of
build-contested = refl

abbrev recorded_items : Items ℕ
recorded_items =
    (0 ∷ 3 ∷ 55 ∷ [], 1) ∷ (0 ∷ 4 ∷ 55 ∷ [], 2) ∷ (0 ∷ 7 ∷ [], 3) ∷ (0 ∷ 7 ∷ [], 4) ∷ []

-- A stack that needs its second frame: its one message is found, and is accepted.
table_answers_recorded_example :
    (lookup
        (leb 2)
        (max_depth (table_of recorded_items) [])
        (table_of recorded_items)
        (0 ∷ 4 ∷ 55 ∷ [])
      ≡ some 2)
    ↔ (((w : ℕ) → Memᴰ (0 ∷ 4 ∷ 55 ∷ [], w) recorded_items → w ≡ 2) × (leb 2 2 ≡ true))
unfolding last_frames
table_answers_recorded_example =
    table_answers_recorded (leb 2) recorded_items [] (0 ∷ 4 ∷ 55 ∷ []) 2 2 refl (tail (head refl))

-- A stack that no one recorded borrows the message of one that shares its last two frames.
table_answers-IsShared_example :
    (leb 2 2 ≡ true)
    × ((c : ℕ) × (1 ≤ c) × (c < 1 + 2) × IsShared recorded_items (9 ∷ 4 ∷ 55 ∷ []) 2 c)
unfolding build visit group_from add_to_group unanimous has_deeper table_set table_get walk key_of
    last_frames
table_answers-IsShared_example =
    table_answers-IsShared (leb 2) recorded_items (9 ∷ 4 ∷ 55 ∷ []) 2 2 refl refl

-- The second frame of one stack is the first of the other.
key_of-injective_example : last_frames 2 (0 ∷ 3 ∷ 55 ∷ []) ≡ last_frames 5 (3 ∷ 55 ∷ [])
unfolding key_of
key_of-injective_example =
    key_of-injective (0 ∷ 3 ∷ 55 ∷ []) (3 ∷ 55 ∷ []) 2 5 (omega arith) (omega arith) (omega arith)
      (omega arith) refl

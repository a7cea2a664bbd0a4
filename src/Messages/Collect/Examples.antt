-- ===== src/Messages/Collect/Examples.antt =====
-- The theorems of the generator's main loop, at a small golden.
use mathlib.Core.List.{Memᴰ}
use wax_mb.Messages.Render.{lexeme}
use wax_mb.Messages.Key.{last_frames}
use mathlib.Core.List.Memᴰ.{head, tail, cases_cons}
use wax_mb.Base.{
  ◌↔◌, select, ℕ, ◌+◌, ◌≤◌, ◌≡◌, refl, ap, sym, ◌∙◌, Text, codes, true, ◌||◌, Option, none, some,
  none-ne-some, some_inj, List, [], ◌∷◌, ◌++◌, ◌==◌, list_eq, nat_eq, length, inl, inr, leb,
}
use wax_mb.Messages.Golden.{Entry, Row}
use wax_mb.Messages.Table.{lookup, max_depth, table_of, Items}
use wax_mb.Messages.Arms.{Message, message_eq, mbt_string, sorted_arms}
use wax_mb.Messages.Arms.Laws.{literal, mbt_string-read, lookup-sorted_arms}
use wax_mb.Messages.Collect.{collect, message_of, written_tokens}
use wax_mb.Messages.Collect.Counted.{parses, FailsLast, collect_categories}
use wax_mb.Messages.Collect.Laws.{recorded_message, is_recordable, is_placed, zipped}

abbrev first_stack : List ℕ
first_stack = 0 ∷ 3 ∷ 5 ∷ []

abbrev second_stack : List ℕ
second_stack = 0 ∷ 4 ∷ 5 ∷ []

abbrev sentence_of : Text → Text → Entry
sentence_of last why = record {
  entry = codes "stmt";
  sentence = codes "LET" ∷ last ∷ codes "EOF" ∷ [];
  message = why;
  markers = [];
}

abbrev golden_entries : List Entry
golden_entries =
    sentence_of (codes "IDENT") (codes "No name.")
    ∷ sentence_of (codes "INT") (codes "No value.")
    ∷ sentence_of (codes "FLOAT") (codes "Parsed.")
    ∷ []

abbrev row_at : List ℕ → Row
row_at stack = record {
  state = 5;
  stack = stack;
  index = 1;
  count = 2;
  signature = codes "s";
  reduced = none;
}

abbrev golden_rows : List (Option Row)
golden_rows = some (row_at (0 ∷ 3 ∷ 5 ∷ [])) ∷ some (row_at (0 ∷ 4 ∷ 5 ∷ [])) ∷ none ∷ []

collect_categories_example :
    let c = collect [] golden_entries golden_rows in
    (c.parsed_fine ≡ length (select parses golden_rows))
    × ((stack : List ℕ) (v : Message)
        → Memᴰ (stack, v) c.items ↔ (
            (e : Entry) × (r : Row) × Memᴰ (e, some r) (zipped golden_entries golden_rows)
            × FailsLast [] e r
            × (r.stack ≡ stack)
            × (message_of e r ≡ v)))
    × (c.parsed_fine + c.misplaced + length c.items ≡ 3)
    × (length c.reduced_items ≤ length c.items)
collect_categories_example = collect_categories [] golden_entries golden_rows refl

apart : is_recordable (collect [] golden_entries golden_rows) ≡ true
unfolding collect lexeme last_frames
apart = refl

placed :
    is_placed [] (sentence_of (codes "INT") (codes "No value.")) (row_at (0 ∷ 4 ∷ 5 ∷ [])) ≡ true
unfolding written_tokens lexeme
placed = refl

-- No other sentence fails with the same stack.
agree :
    (e : Entry) (r : Row)
    → Memᴰ (e, some r) (zipped golden_entries golden_rows)
    → r.stack ≡ 0 ∷ 4 ∷ 5 ∷ []
    → message_of e r
      ≡ message_of (sentence_of (codes "INT") (codes "No value.")) (row_at (0 ∷ 4 ∷ 5 ∷ []))
agree e r m h = elim (cases_cons m) [
  | inl q ↦
      let other : r ≡ row_at (0 ∷ 3 ∷ 5 ∷ []) = some_inj (ap (λ (p : Entry × Option Row). p.1) q) in
      let stacks : first_stack ≡ second_stack = sym (ap (λ (y : Row). y.stack) other) ∙ h in cc
  | inr m' ↦ elim (cases_cons m') [
    | inl q ↦
        ap (λ (x : Entry). message_of x r) (ap (λ (p : Entry × Option Row). p.0) q)
        ∙ ap (λ (y : Row). message_of (sentence_of (codes "INT") (codes "No value.")) y)
            (some_inj (ap (λ (p : Entry × Option Row). p.1) q))
    | inr m'' ↦ elim (cases_cons m'') [
      | inl q ↦ absurd (none-ne-some (sym (ap (λ (p : Entry × Option Row). p.1) q)))
      | inr k ↦ elim k [ ]
    ]
  ]
]

recorded_message_example :
    let c = collect [] golden_entries golden_rows in
    lookup
      (λ (m : Message). m.signature == codes "s" || leb (length m.text) 0)
      (max_depth (table_of c.items) (table_of c.reduced_items))
      (sorted_arms (table_of c.items))
      (0 ∷ 4 ∷ 5 ∷ [])
    ≡ some (message_of (sentence_of (codes "INT") (codes "No value.")) (row_at (0 ∷ 4 ∷ 5 ∷ [])))
recorded_message_example =
    recorded_message (λ text signature. leb (length text) 0) [] golden_entries golden_rows
      (sentence_of (codes "INT") (codes "No value.")) (row_at (0 ∷ 4 ∷ 5 ∷ [])) apart
      (tail (head refl)) placed (λ e r m p h. agree e r m h)

mbt_string-read_example :
    literal (mbt_string (codes "a \"b\\\"") ++ codes " => Some")
    ≡ some (codes "a \"b\\\"", codes " => Some")
mbt_string-read_example = mbt_string-read (codes "a \"b\\\"") (codes " => Some")

abbrev number_items : Items ℕ
number_items = (0 ∷ 3 ∷ 55 ∷ [], 1) ∷ (0 ∷ 4 ∷ 55 ∷ [], 2) ∷ (0 ∷ 7 ∷ [], 3) ∷ []

lookup-sorted_arms_example :
    lookup (leb 2) 3 (sorted_arms (table_of number_items)) (0 ∷ 4 ∷ 55 ∷ [])
    ≡ lookup (leb 2) 3 (table_of number_items) (0 ∷ 4 ∷ 55 ∷ [])
lookup-sorted_arms_example = lookup-sorted_arms (leb 2) 3 number_items (0 ∷ 4 ∷ 55 ∷ [])

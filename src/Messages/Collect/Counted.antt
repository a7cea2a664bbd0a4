-- ===== src/Messages/Collect/Counted.antt =====
-- What the main loop counts and what it records.
use mathlib.Core.List.{Memᴰ}
use wax_mb.Base.{
  ℕ, ◌+◌, ◌≤◌, ◌≡◌, ◌↔◌, refl, ap, sym, ◌∙◌, arith, Text, Bool, true, false, not, Option, none,
  some, List, [], ◌∷◌, ◌++◌, ◌==◌, eq_iff, list_eq, nat_eq, length, length-append, select,
  Bool-cases, inl, inr, subst,
}
use wax_mb.Messages.Render.{Spellings, lexeme}
use wax_mb.Messages.Golden.{Entry, Row}
use wax_mb.Messages.Table.{Items}
use wax_mb.Messages.Arms.{Message}
use wax_mb.Messages.Collect.{written_tokens, message_of, add_reduced, collect_one, collect}
use wax_mb.Messages.Collect.Laws.{zipped, is_placed, collect-recorded, collect-source}

-- The tokens of the sentence that are written
abbrev pub written : Spellings → List Text → List Text
written alias sentence = select (λ t. not (lexeme alias t == [])) sentence

-- The parser refuses the last of the written tokens: there are as many before it as its index says.
abbrev pub FailsLast : Spellings → Entry → Row → Type 0
FailsLast alias e r =
    (before : List Text) × (last : Text) × (written alias e.sentence ≡ before ++ last ∷ [])
    × (length before ≡ r.index)

before_last :
    (ts : List Text) (n : ℕ)
    → n + 1 ≡ length ts
    → (before : List Text) × (last : Text) × (ts ≡ before ++ last ∷ []) × (length before ≡ n)
before_last [] n h = absurd (omega (arith, h))
before_last (t ∷ []) n h = ([], t, refl, omega (arith, h))
before_last (t ∷ u ∷ ts) n h =
    let (before, last, e, k) = before_last (u ∷ ts) (length ts) (omega arith) in
    (t ∷ before, last, ap (λ (l : List Text). t ∷ l) e, omega (arith, h, k))

is_placed-FailsLast :
    (alias : Spellings) (e : Entry) (r : Row) → (is_placed alias e r ≡ true) ↔ FailsLast alias e r
unfolding written_tokens
is_placed-FailsLast alias e r = (
  λ h. before_last (written alias e.sentence) r.index ((eq_iff (r.index + 1) _).0 h),
  λ k.
      let (before, last, split_at, n) = k in
      (eq_iff (r.index + 1) _).1
        (omega (arith, n, length-append before (last ∷ [])) ∙ sym (ap length split_at)),
)

-- The sentence of the row parses.
abbrev pub parses : Option Row → Bool
parses none = true
parses (some r) = false

length-add_reduced :
    (s : Option (List ℕ)) (v : Message) (items : Items Message)
    → length (add_reduced s v items) ≤ 1 + length items
length-add_reduced none v items = omega arith
length-add_reduced (some s) v items = omega arith

counted :
    (alias : Spellings) (es : List Entry) (rs : List (Option Row))
    → length rs ≡ length es
    → let c = collect alias es rs in
      (c.parsed_fine ≡ length (select parses rs))
      × (c.parsed_fine + c.misplaced + length c.items ≡ length es)
      × (length c.reduced_items ≤ length c.items)
unfolding collect collect_one
counted alias [] [] h = (refl, refl, omega arith)
counted alias [] (r ∷ rs) h = absurd (omega (arith, h))
counted alias (e ∷ es) [] h = absurd (omega (arith, h))
counted alias (e ∷ es) (none ∷ rs) h =
    let (fine, all_of, fewer) = counted alias es rs (omega (arith, h)) in
    (omega (arith, fine), omega (arith, all_of), fewer)
counted alias (e ∷ es) (some r ∷ rs) h =
    let (fine, all_of, fewer) = counted alias es rs (omega (arith, h)) in
    elim (Bool-cases (is_placed alias e r)) [
      | inl placed ↦ rw placed (
        fine,
        omega (arith, all_of),
        omega (
          arith,
          fewer,
          length-add_reduced r.reduced (message_of e r) (collect alias es rs).reduced_items,
        ),
      )
      | inr wrong ↦ rw wrong (fine, omega (arith, all_of), fewer)
    ]

-- Where there is a row for each sentence: as many sentences parse as there are rows without an
-- error; a stack is recorded with a message exactly if it is the stack of a sentence that fails on
-- the last of its written tokens and the message is that sentence's; with the misplaced ones, every
-- sentence is counted exactly once; and no more messages are recorded for the reduced stacks.
pub collect_categories :
    (alias : Spellings) (es : List Entry) (rs : List (Option Row))
    → length rs ≡ length es
    → let c = collect alias es rs in
      (c.parsed_fine ≡ length (select parses rs))
      × ((stack : List ℕ) (v : Message)
          → Memᴰ (stack, v) c.items ↔ (
              (e : Entry) × (r : Row) × Memᴰ (e, some r) (zipped es rs)
              × FailsLast alias e r
              × (r.stack ≡ stack)
              × (message_of e r ≡ v)))
      × (c.parsed_fine + c.misplaced + length c.items ≡ length es)
      × (length c.reduced_items ≤ length c.items)
collect_categories alias es rs h =
    let (fine, all_of, fewer) = counted alias es rs h in
    (
      fine,
      λ stack v. (
        λ m.
            let (e, r, k, placed, s, w) = collect-source alias es rs stack v m in
            (e, r, k, (is_placed-FailsLast alias e r).0 placed, s, w),
        λ q.
            let (e, r, k, fails, s, w) = q in
            let recorded =
              collect-recorded alias es rs e r k ((is_placed-FailsLast alias e r).1 fails) in
            subst (λ (i : List ℕ × Message). Memᴰ i (collect alias es rs).items)
              (ap (λ (x : List ℕ). (x, message_of e r)) s ∙ ap (λ (x : Message). (stack, x)) w)
              recorded,
      ),
      all_of,
      fewer,
    )

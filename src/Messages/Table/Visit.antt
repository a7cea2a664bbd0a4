-- ===== src/Messages/Table/Visit.antt =====
-- The loop of `build` over its groups: which entries it writes, and what `walk` finds after it.
use mathlib.Core.List.{Memᴰ}
use mathlib.Core.List.Memᴰ.{head, tail}
use wax_mb.Base.{
  ℕ, zero, suc, ◌+◌, ◌≤◌, ◌<◌, ◌≡◌, ◌≢◌, refl, arith, Text, Bool, Option, none, some, List, [], ◌∷◌,
  length, Eq, Bool-cases, Option-cases, true, false, inl, inr, list_eq, nat_eq, sym, ◌∙◌, ltb,
}
use wax_mb.Messages.Key.{key_of}
use wax_mb.Messages.Key.Frames.{key_of-depths}
use wax_mb.Messages.Table.{Table, Items, table_get, table_set, unanimous, has_deeper, place, walk}
use wax_mb.Messages.Table.Entries.{table_get-set, table_get-set_other, walk-follow}
use wax_mb.Messages.Table.Groups.{matching}

module _ {V : Type 0} ⦃e : Eq V⦄ where
  -- What the items that share a key come to: one value, nothing, or what the next depth gives.
  abbrev pub settle : Option V → Bool → Option V → Option V
  settle (some v) more deeper = some v
  settle none false deeper = none
  settle none true deeper = deeper

  -- The lookup without a table: ever longer suffixes of the stack pick the items that share them.
  unfoldable pub recorded : Items V → List ℕ → ℕ → ℕ → Option V
  recorded items stack depth zero = none
  recorded items stack depth (suc n) =
      let group = matching items depth (key_of stack depth) in
      settle (unanimous group) (has_deeper depth group) (recorded group stack (depth + 1) n)

  pub item_of_unanimous :
      (group : Items V) (v : V) → unanimous group ≡ some v → (item : List ℕ × V) × Memᴰ item group
  unfolding unanimous
  item_of_unanimous [] v h = cc
  item_of_unanimous (item ∷ group) v h = (item, head refl)

  pub item_of_deeper :
      (depth : ℕ) (group : Items V)
      → has_deeper depth group ≡ true
      → (item : List ℕ × V) × Memᴰ item group × (depth < length item.0)
  unfolding has_deeper
  item_of_deeper depth [] h = cc
  item_of_deeper depth (item ∷ group) h = elim (Bool-cases (ltb depth (length item.0))) [
    | inl here ↦ (item, head refl, ground arith)
    | inr there ↦ let r = item_of_deeper depth group (rw there at h) in (r.0, tail r.1, r.2)
  ]

  -- No item has the key `k` at a depth of `depth` or more.
  unfoldable pub Off : ℕ → Items V → Text → Type 0
  Off depth items k =
      (item : List ℕ × V) (d : ℕ)
      → Memᴰ item items
      → depth ≤ d
      → d ≤ length item.0
      → key_of item.0 d ≢ k

  -- The table has no entry for the suffixes of a stack from `depth` frames on.
  unfoldable pub Clear : Table V → List ℕ → ℕ → Type 0
  Clear out s depth = (d : ℕ) → depth ≤ d → d ≤ length s → table_get out (key_of s d) ≡ none

-- `deeper` is right on the lists of items that fit it, which contested groups do.
module _ {V : Type 0} ⦃e : Eq V⦄ (deeper : Items V → Table V → Table V × ℕ) (depth : ℕ)
    (Fits : Items V → Type 0)
    (frame : (g : Items V) (out : Table V) (k : Text)
      → Fits g
      → Off (depth + 1) g k
      → table_get (deeper g out).0 k ≡ table_get out k)
    (j : Text) (g : Items V)
    (keyed : (item : List ℕ × V)
      → Memᴰ item g
      → (key_of item.0 depth ≡ j) × (depth ≤ length item.0))
    (fits : has_deeper depth g ≡ true → Fits g) where
  pub place-frame :
      (out : Table V) (k : Text)
      → Off depth g k
      → table_get (place deeper j g out (unanimous g) (has_deeper depth g)).0 k ≡ table_get out k
  unfolding Off
  place-frame out k off = elim (Option-cases (unanimous g)) [
    | inr one ↦
        let it = item_of_unanimous g one.0 one.1 in
        rw one.1 (
          table_get-set_other out k j _
            (λ q. off it.0 depth it.1 (omega arith) (keyed it.0 it.1).1 ((keyed it.0 it.1).0 ∙ q)))
    | inl many ↦ elim (Bool-cases (has_deeper depth g)) [
      | inr flat ↦ rw (many, flat) refl
      | inl more ↦
          let it = item_of_deeper depth g more in
          rw (many, more)
            (frame g (table_set out j none) k (fits more) (λ item d m p. off item d m (omega arith))
              ∙ table_get-set_other out k j _ (λ q.
                off it.0 depth it.1 (omega arith) (keyed it.0 it.1).1 ((keyed it.0 it.1).0 ∙ q)))
    ]
  ]

  -- What `walk` finds for a stack whose key the group has.
  pub place-walk :
      (out : Table V) (s : List ℕ) (n : ℕ)
      → 0 < depth
      → depth + suc n ≤ length s + 1
      → key_of s depth ≡ j
      → Clear out s depth
      → ((table : Table V)
          → Fits g
          → Clear table s (depth + 1)
          → walk (deeper g table).0 s (depth + 1) n ≡ recorded g s (depth + 1) n)
      → walk (place deeper j g out (unanimous g) (has_deeper depth g)).0 s depth (suc n)
        ≡ settle (unanimous g) (has_deeper depth g) (recorded g s (depth + 1) n)
  unfolding Clear Off
  place-walk out s n pos b same clear right = elim (Option-cases (unanimous g)) [
    | inr one ↦ rw one.1 (
        walk-follow (table_set out j (some one.0)) s depth n (some (some one.0))
          (rw same (table_get-set out j (some one.0))))
    | inl many ↦ elim (Bool-cases (has_deeper depth g)) [
      | inr flat ↦
          rw (many, flat) (walk-follow out s depth n none (clear depth (omega arith) (omega arith)))
      | inl more ↦
          let entry : table_get (deeper g (table_set out j none)).0 j ≡ some none =
            frame g (table_set out j none) j (fits more) (λ item d m p q h. absurd (
              omega (
                arith,
                key_of-depths item.0 s d depth (omega arith) pos q (omega arith) (h ∙ sym same),
              )))
            ∙ table_get-set out j none in
          rw (many, more)
            (walk-follow (deeper g (table_set out j none)).0 s depth n (some none) (rw same entry)
              ∙ right (table_set out j none) (fits more) (λ d p q.
                table_get-set_other out (key_of s d) j none (λ h. absurd (
                  omega (
                    arith,
                    key_of-depths s s d depth (omega arith) pos q (omega arith) (sym h ∙ sym same),
                  )))
                ∙ clear d (omega arith) q))
    ]
  ]

-- ===== src/Messages/Table/Build.antt =====
-- `build`, entry by entry and under `walk`: the table answers as the items themselves would.
use mathlib.Core.List.{Memᴰ}
use wax_mb.Base.{
  ℕ, zero, suc, ◌+◌, ◌-◌, subst, ◌≤◌, ◌<◌, ◌≡◌, ◌≢◌, refl, arith, Text, List, [], length, Eq,
  Bool-cases, true, inl, inr, list_eq, nat_eq, sym, ◌∙◌, ltb,
}
use wax_mb.Messages.Key.{key_of}
use wax_mb.Messages.Table.{Table, Items, table_get, unanimous, has_deeper, build, group_from, walk}
use wax_mb.Messages.Table.Groups.{
  matching, group_of, group_of-from, IsGrouping, group_from-IsGrouping,
}
use wax_mb.Messages.Table.Visit.{settle, recorded, item_of_deeper, Off, Clear}
use wax_mb.Messages.Table.Lookup.{visit-frame, visit-walk}

module _ {V : Type 0} ⦃e : Eq V⦄ where
  -- What `build` needs of its items: stacks of `depth` frames at least and of `depth + fuel` at
  -- most, none of which has a longer one that ends in it.
  unfoldable pub IsBuildable : ℕ → ℕ → Items V → Type 0
  IsBuildable depth fuel items =
      ((item : List ℕ × V)
        → Memᴰ item items
        → (depth ≤ length item.0) × (length item.0 ≤ depth + fuel))
      × ((a b : List ℕ × V)
          → Memᴰ a items
          → Memᴰ b items
          → length a.0 < length b.0
          → key_of b.0 (length a.0) ≢ key_of a.0 (length a.0))

  -- A contested group that has a stack to go on with has only such stacks.
  IsBuildable-deeper :
      (depth fuel : ℕ) (items g : Items V) (j : Text)
      → IsBuildable depth (suc fuel) items
      → ((item : List ℕ × V) → Memᴰ item g → Memᴰ item items × (key_of item.0 depth ≡ j))
      → has_deeper depth g ≡ true
      → IsBuildable (depth + 1) fuel g
  unfolding IsBuildable
  IsBuildable-deeper depth fuel items g j ok sub more =
      let deep = item_of_deeper depth g more in
      (
        λ item m.
            let bounds = ok.0 item (sub item m).0 in
            (
              elim (Bool-cases (ltb depth (length item.0))) [
                | inl longer ↦ ground arith
                | inr ends ↦
                    let flat : length item.0 ≡ depth = ground arith in
                    absurd (
                      ok.1 item deep.0 (sub item m).0 (sub deep.0 deep.1).0
                        (omega (arith, deep.2, flat))
                        (rw flat ((sub deep.0 deep.1).1 ∙ sym (sub item m).1)))
              ],
              omega (arith, bounds.1),
            ),
        λ a b m m'. ok.1 a b (sub a m).0 (sub b m').0,
      )

  -- With no fuel there is no stack to go on with.
  not-has_deeper :
      (depth : ℕ) (items g : Items V) (j : Text)
      → IsBuildable depth 0 items
      → ((item : List ℕ × V) → Memᴰ item g → Memᴰ item items × (key_of item.0 depth ≡ j))
      → has_deeper depth g ≢ true
  unfolding IsBuildable
  not-has_deeper depth items g j ok sub more =
      let deep = item_of_deeper depth g more in
      let bounds = ok.0 deep.0 (sub deep.0 deep.1).0 in absurd (omega (arith, deep.2, bounds.1))

  pub IsBuildable-below :
      (depth fuel : ℕ) (items g : Items V) (j : Text)
      → IsBuildable depth fuel items
      → ((item : List ℕ × V) → Memᴰ item g → Memᴰ item items × (key_of item.0 depth ≡ j))
      → has_deeper depth g ≡ true
      → IsBuildable (depth + 1) (fuel - 1) g
  IsBuildable-below depth zero items g j ok sub more =
      absurd (not-has_deeper depth items g j ok sub more)
  IsBuildable-below depth (suc fuel) items g j ok sub more =
      let one_less : fuel ≡ suc fuel - 1 = omega arith in
      subst (λ f. IsBuildable (depth + 1) f g) one_less
        (IsBuildable-deeper depth fuel items g j ok sub more)

  pub IsBuildable-ready :
      (depth fuel : ℕ) (items : Items V)
      → IsBuildable depth fuel items
      → (item : List ℕ × V) → Memᴰ item items
      → depth ≤ length item.0
  unfolding IsBuildable
  IsBuildable-ready depth fuel items ok item m = (ok.0 item m).0

  grouped : (depth : ℕ) (items : Items V) → IsGrouping depth items (group_from depth items [])
  unfolding IsGrouping
  grouped depth items = group_from-IsGrouping depth items items [] (λ x m. m) 0

  pub build-frame :
      (fuel depth : ℕ) (items : Items V) (out : Table V) (k : Text)
      → 0 < depth
      → IsBuildable depth fuel items
      → Off depth items k
      → table_get (build fuel items depth out).0 k ≡ table_get out k
  unfolding build Off
  build-frame zero depth items out k pos ok off =
      visit-frame (λ group out'. (out', 0)) depth (λ g. ⊥) (λ g out' k' f. absurd f) items pos
        (IsBuildable-ready depth zero items ok)
        (λ g j sub more. not-has_deeper depth items g j ok sub more) (group_from depth items []) out
        0 k (grouped depth items) (λ item d m h. off item d m)
  build-frame (suc fuel) depth items out k pos ok off =
      visit-frame (λ group out'. build fuel group (depth + 1) out') depth
        (IsBuildable (depth + 1) fuel)
        (λ g out' k' f off'. build-frame fuel (depth + 1) g out' k' (omega arith) f off') items pos
        (IsBuildable-ready depth (suc fuel) items ok)
        (λ g j sub more. IsBuildable-deeper depth fuel items g j ok sub more)
        (group_from depth items []) out 0 k (grouped depth items) (λ item d m h. off item d m)

  group_of_key :
      (depth : ℕ) (items : Items V) (k : Text)
      → group_of k (group_from depth items []) ≡ matching items depth k
  unfolding group_of
  group_of_key depth items k = group_of-from k depth items []

  settled :
      (depth : ℕ) (items : Items V) (s : List ℕ) (n : ℕ)
      → let g = group_of (key_of s depth) (group_from depth items []) in
        settle (unanimous g) (has_deeper depth g) (recorded g s (depth + 1) n)
        ≡ recorded items s depth (suc n)
  unfolding recorded
  settled depth items s n = rw (group_of_key depth items (key_of s depth)) refl

  pub build-walk :
      (fuel depth : ℕ) (items : Items V) (out : Table V) (s : List ℕ) (n : ℕ)
      → 0 < depth
      → IsBuildable depth fuel items
      → depth + n ≤ length s + 1
      → Clear out s depth
      → walk (build fuel items depth out).0 s depth n ≡ recorded items s depth n
  unfolding build walk recorded
  build-walk fuel depth items out s zero pos ok b clear = refl
  build-walk zero depth items out s (suc n) pos ok b clear =
      visit-walk (λ group out'. (out', 0)) depth (λ g. ⊥) (λ g out' k' f. absurd f) items pos
        (IsBuildable-ready depth zero items ok)
        (λ g j sub more. not-has_deeper depth items g j ok sub more) (group_from depth items []) out
        0 s n (grouped depth items) b clear (λ g table f. absurd f)
      ∙ settled depth items s n
  build-walk (suc fuel) depth items out s (suc n) pos ok b clear =
      visit-walk (λ group out'. build fuel group (depth + 1) out') depth
        (IsBuildable (depth + 1) fuel)
        (λ g out' k' f off'. build-frame fuel (depth + 1) g out' k' (omega arith) f off') items pos
        (IsBuildable-ready depth (suc fuel) items ok)
        (λ g j sub more. IsBuildable-deeper depth fuel items g j ok sub more)
        (group_from depth items []) out 0 s n (grouped depth items) b clear
        (λ g table f clear'.
          build-walk fuel (depth + 1) g table s n (omega arith) f (omega arith) clear')
      ∙ settled depth items s n

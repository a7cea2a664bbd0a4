-- ===== src/Messages/Table/Recorded.antt =====
-- What `recorded`, the lookup without a table, finds for a stack.
use mathlib.Core.List.{Memᴰ}
use mathlib.Core.List.Memᴰ.{cast}
use wax_mb.Base.{
  ℕ, zero, suc, ◌+◌, ◌-◌, ◌≤◌, ◌<◌, ◌≡◌, refl, arith, some, some_inj, none-ne-some, List, length,
  Eq, Bool-cases, Option-cases, inl, inr, list_eq, nat_eq, sym, ◌∙◌, ap,
}
use wax_mb.Messages.Key.{key_of}
use wax_mb.Messages.Key.Frames.{key_of-shallower_any, key_of-whole}
use wax_mb.Messages.Table.{Items, unanimous, has_deeper}
use wax_mb.Messages.Table.Agreement.{unanimous-all, unanimous_intro, shallow}
use wax_mb.Messages.Table.Groups.{matching, item_of_matching, matching_of_item}
use wax_mb.Messages.Table.Visit.{recorded, item_of_unanimous}
use wax_mb.Messages.Table.Build.{IsBuildable, IsBuildable-below, IsBuildable-ready}

module _ {V : Type 0} ⦃e : Eq V⦄ where
  -- What is found for a stack is what every item of that stack carries.
  pub recorded_unique :
      (n depth : ℕ) (g : Items V) (s : List ℕ) (v w : V)
      → recorded g s depth n ≡ some v
      → Memᴰ (s, w) g
      → w ≡ v
  unfolding recorded
  recorded_unique zero depth g s v w h m = cc
  recorded_unique (suc n) depth g s v w h m =
      let group = matching g depth (key_of s depth) in
      let m' : Memᴰ (s, w) group = matching_of_item g depth (key_of s depth) m refl in
      elim (Option-cases (unanimous group)) [
        | inr one ↦ unanimous-all group one.0 (s, w) one.1 m' ∙ some_inj (rw one.1 at h)
        | inl many ↦ elim (Bool-cases (has_deeper depth group)) [
          | inr flat ↦ absurd (none-ne-some (rw (many, flat) at h))
          | inl more ↦ recorded_unique n (depth + 1) group s v w (rw (many, more) at h) m'
        ]
      ]

  -- A stack whose items agree is found.
  pub recorded-found :
      (n fuel depth : ℕ) (g : Items V) (s : List ℕ) (v : V)
      → 0 < depth
      → depth + n ≡ length s + 1
      → IsBuildable depth fuel g
      → Memᴰ (s, v) g
      → ((w : V) → Memᴰ (s, w) g → w ≡ v)
      → recorded g s depth n ≡ some v
  unfolding recorded
  recorded-found zero fuel depth g s v pos b ok m one =
      absurd (omega (arith, IsBuildable-ready depth fuel g ok (s, v) m))
  recorded-found (suc n) fuel depth g s v pos b ok m one =
      let group = matching g depth (key_of s depth) in
      let m' : Memᴰ (s, v) group = matching_of_item g depth (key_of s depth) m refl in
      let sub : (item : List ℕ × V)
          → Memᴰ item group
          → Memᴰ item g × (key_of item.0 depth ≡ key_of s depth) =
        λ item p. item_of_matching g depth (key_of s depth) p in
      elim (Option-cases (unanimous group)) [
        | inr found ↦ rw found.1 (ap some (sym (unanimous-all group found.0 (s, v) found.1 m')))
        | inl many ↦ elim (Bool-cases (has_deeper depth group)) [
          | inl more ↦
              rw (many, more)
                (recorded-found n (fuel - 1) (depth + 1) group s v (omega arith) (omega arith)
                  (IsBuildable-below depth fuel g group (key_of s depth) ok sub more) m'
                  (λ w q. one w (sub (s, w) q).0))
          | inr flat ↦
              let same : unanimous group ≡ some v =
                unanimous_intro group v (s, v) m'
                  (λ item p.
                    let r = sub item p in
                    let stack : s ≡ item.0 =
                      key_of-whole s item.0 depth pos
                        (omega (
                          arith,
                          shallow depth group (s, v) flat m',
                          IsBuildable-ready depth fuel g ok (s, v) m,
                        ))
                        (omega (
                          arith,
                          shallow depth group item flat p,
                          IsBuildable-ready depth fuel g ok item r.0,
                        ))
                        (sym r.1) in
                    one item.1 (cast (ap (λ (t : List ℕ). (t, item.1)) stack) r.0)) in
              absurd (none-ne-some (sym many ∙ same))
        ]
      ]

  -- `depth` last frames of a stack that some item has, all such items carrying the value.
  unfoldable pub IsShared : Items V → List ℕ → V → ℕ → Type 0
  IsShared g s v depth =
      ((item : List ℕ × V) × Memᴰ item g × (key_of item.0 depth ≡ key_of s depth))
      × ((item : List ℕ × V) → Memᴰ item g → key_of item.0 depth ≡ key_of s depth → item.1 ≡ v)

  -- What is found is shared at one of the depths that were tried.
  pub recorded-IsShared :
      (n depth : ℕ) (g : Items V) (s : List ℕ) (v : V)
      → 0 < depth
      → depth + n ≤ length s + 1
      → ((item : List ℕ × V) → Memᴰ item g → 0 < length item.0)
      → recorded g s depth n ≡ some v
      → (c : ℕ) × (depth ≤ c) × (c < depth + n) × IsShared g s v c
  unfolding recorded IsShared
  recorded-IsShared zero depth g s v pos b full h = absurd (none-ne-some h)
  recorded-IsShared (suc n) depth g s v pos b full h =
      let group = matching g depth (key_of s depth) in
      let sub : (item : List ℕ × V)
          → Memᴰ item group
          → Memᴰ item g × (key_of item.0 depth ≡ key_of s depth) =
        λ item p. item_of_matching g depth (key_of s depth) p in
      elim (Option-cases (unanimous group)) [
        | inr one ↦
            let it = item_of_unanimous group one.0 one.1 in
            (
              depth,
              omega arith,
              omega arith,
              (
                (it.0, (sub it.0 it.1).0, (sub it.0 it.1).1),
                λ item m k.
                    unanimous-all group one.0 item one.1
                      (matching_of_item g depth (key_of s depth) m k)
                    ∙ some_inj (rw one.1 at h),
              ),
            )
        | inl many ↦ elim (Bool-cases (has_deeper depth group)) [
          | inr flat ↦ absurd (none-ne-some (rw (many, flat) at h))
          | inl more ↦
              let r =
                recorded-IsShared n (depth + 1) group s v (omega arith) (omega arith)
                  (λ item m. full item (sub item m).0) (rw (many, more) at h) in
              let it = r.3.0 in
              (
                r.0,
                omega (arith, r.1),
                omega (arith, r.2),
                (
                  (it.0, (sub it.0 it.1).0, it.2),
                  λ item m k.
                      r.3.1 item
                        (matching_of_item g depth (key_of s depth) m (
                          key_of-shallower_any item.0 s depth r.0 pos (omega (arith, r.1))
                            (full item m) (omega (arith, r.2)) k))
                        k,
                ),
              )
        ]
      ]

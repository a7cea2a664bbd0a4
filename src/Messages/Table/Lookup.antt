-- ===== src/Messages/Table/Lookup.antt =====
-- The tables that `visit` makes, entry by entry and under `walk`.
use mathlib.Core.List.{Memᴰ}
use wax_mb.Base.{
  ℕ, suc, ◌+◌, ◌≤◌, ◌<◌, ◌≡◌, ◌≢◌, refl, arith, Text, none, List, [], ◌∷◌, length, ◌==◌, Eq, eq_iff,
  eq_self, Bool-cases, true, inl, inr, list_eq, nat_eq, sym, ◌∙◌, ap, or_true,
}
use wax_mb.Messages.Key.{key_of}
use wax_mb.Messages.Key.Frames.{key_of-depths, key_of-shallower}
use wax_mb.Messages.Table.{Table, Items, table_get, unanimous, has_deeper, visit, walk}
use wax_mb.Messages.Table.Entries.{apart_of, walk-entries, walk-follow}
use wax_mb.Messages.Table.Groups.{group_of, has_group, IsGrouping}
use wax_mb.Messages.Table.Visit.{settle, recorded, Off, Clear, place-frame, place-walk}

-- A key of the stack at a greater depth is no key of an item that differs from it at `depth`.
off_of_apart :
    (item s : List ℕ) (depth d c : ℕ)
    → 0 < depth
    → depth ≤ d
    → d ≤ length item
    → depth ≤ c
    → c ≤ length s
    → key_of item depth ≢ key_of s depth
    → key_of item d ≢ key_of s c
off_of_apart item s depth d c pos p q p' q' apart h =
    let same : d ≡ c = key_of-depths item s d c (omega arith) (omega arith) q q' h in
    apart (
      key_of-shallower item s depth c pos p' (omega arith) q'
        (ap (λ (i : ℕ). key_of item i) (sym same) ∙ h))

module _ {V : Type 0} ⦃e : Eq V⦄ (deeper : Items V → Table V → Table V × ℕ) (depth : ℕ)
    (Fits : Items V → Type 0)
    (frame : (g : Items V) (out : Table V) (k : Text)
      → Fits g
      → Off (depth + 1) g k
      → table_get (deeper g out).0 k ≡ table_get out k)
    (items : Items V) (pos : 0 < depth)
    (ready : (item : List ℕ × V) → Memᴰ item items → depth ≤ length item.0)
    (fits : (g : Items V) (j : Text)
      → ((item : List ℕ × V) → Memᴰ item g → Memᴰ item items × (key_of item.0 depth ≡ j))
      → has_deeper depth g ≡ true
      → Fits g) where
  -- The loop leaves the entry of a text that no item of its groups has for a key.
  pub visit-frame :
      (groups : List (Text × Items V)) (out : Table V) (dropped : ℕ) (k : Text)
      → IsGrouping depth items groups
      → ((item : List ℕ × V) (d : ℕ)
          → Memᴰ item items
          → has_group (key_of item.0 depth) groups ≡ true
          → depth ≤ d
          → d ≤ length item.0
          → key_of item.0 d ≢ k)
      → table_get (visit deeper depth groups out dropped).0 k ≡ table_get out k
  unfolding visit IsGrouping has_group Off
  visit-frame [] out dropped k grouping off = refl
  visit-frame ((j, g) ∷ groups) out dropped k grouping off =
      visit-frame groups _ _ k grouping.2
        (λ item d m h. off item d m (rw (h, or_true (j == key_of item.0 depth)) refl))
      ∙ place-frame deeper depth Fits frame j g
          (λ item m. let r = grouping.0 item m in (r.1, ready item r.0)) (fits g j grouping.0) out k
          (λ item d m. let r = grouping.0 item m in off item d r.0 (rw (r.1, eq_self j) refl))

  pub visit-walk :
      (groups : List (Text × Items V)) (out : Table V) (dropped : ℕ) (s : List ℕ) (n : ℕ)
      → IsGrouping depth items groups
      → depth + suc n ≤ length s + 1
      → Clear out s depth
      → ((g : Items V) (table : Table V)
          → Fits g
          → Clear table s (depth + 1)
          → walk (deeper g table).0 s (depth + 1) n ≡ recorded g s (depth + 1) n)
      → let g = group_of (key_of s depth) groups in
        walk (visit deeper depth groups out dropped).0 s depth (suc n)
        ≡ settle (unanimous g) (has_deeper depth g) (recorded g s (depth + 1) n)
  unfolding visit IsGrouping Off Clear group_of unanimous has_deeper
  visit-walk [] out dropped s n grouping b clear right =
      walk-follow out s depth n none (clear depth (omega arith) (omega arith))
  visit-walk ((j, g) ∷ groups) out dropped s n grouping b clear right =
      elim (Bool-cases (j == key_of s depth)) [
        | inl here ↦
            let same : j ≡ key_of s depth = (eq_iff j (key_of s depth)).0 here in
            rw here (
              walk-entries _ _ s depth (suc n) b (λ d p q.
                visit-frame groups _ _ (key_of s d) grouping.2 (λ item c m h p' q'.
                  off_of_apart item.0 s depth c d pos p' q' p q
                    (λ h'. let twice : has_group j groups ≡ true = rw (same, ← h') h in cc)))
              ∙ place-walk deeper depth Fits frame j g
                  (λ item m. let r = grouping.0 item m in (r.1, ready item r.0))
                  (fits g j grouping.0) out s n pos b (sym same) clear (right g))
        | inr there ↦ rw there (
            visit-walk groups _ _ s n grouping.2 b
              (λ d p q.
                place-frame deeper depth Fits frame j g
                  (λ item m. let r = grouping.0 item m in (r.1, ready item r.0))
                  (fits g j grouping.0) out (key_of s d)
                  (λ item c m p' q'.
                    off_of_apart item.0 s depth c d pos p' q' p q
                      (λ h. apart_of j (key_of s depth) there (sym (grouping.0 item m).1 ∙ h)))
                ∙ clear d p q)
              right)
      ]

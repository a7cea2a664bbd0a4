-- ===== src/Messages/Table/Depth.antt =====
-- That `max_depth` cuts no lookup short.
use wax_mb.Base.{
  ℕ, zero, suc, ◌+◌, ◌≤◌, ◌<◌, ◌≡◌, refl, arith, Text, none, false, List, [], ◌∷◌, length, split,
  min, list_eq, nat_eq, ◌==◌, ap, sym,
}
use wax_mb.Messages.Key.{key_of}
use wax_mb.Messages.Key.Words.{split-key_of}
use wax_mb.Messages.Table.{Table, table_get, walk, deepest, max_depth}
use wax_mb.Messages.Table.Entries.{walk-follow, differs}

module _ {V : Type 0} where
  -- No key is deeper than the deepest.
  absent : (t : Table V) (k : Text) → deepest t < length (split k) → table_get t k ≡ none
  unfolding table_get
  absent [] k h = refl
  absent ((j, v) ∷ t) k h =
      let other : (j == k) ≡ false = differs j k (λ q.
        let same : length (split j) ≡ length (split k) = ap (λ (i : Text). length (split i)) q in
        absurd (omega (arith, same))) in
      rw other (absent t k (omega arith))

  deepest-bounds :
      (t : Table V) (s : List ℕ) (d n m : ℕ)
      → m ≤ n
      → d + n ≤ length s + 1
      → (m < n → deepest t < d + m)
      → walk t s d n ≡ walk t s d m
  unfolding walk
  deepest-bounds t s d zero zero h b deep = refl
  deepest-bounds t s d zero (suc m) h b deep = absurd (omega arith)
  deepest-bounds t s d (suc n) zero h b deep =
      walk-follow t s d n none
        (absent t (key_of s d) (omega (arith, split-key_of s d (omega arith), deep (omega arith))))
  deepest-bounds t s d (suc n) (suc m) h b deep =
      rw
        (deepest-bounds t s (d + 1) n m (omega arith) (omega arith)
          (λ p. omega (arith, deep (omega arith))))
        refl

  pub walk-min :
      (t : Table V) (s : List ℕ) (bound : ℕ)
      → deepest t ≤ bound
      → walk t s 1 (min (length s) bound) ≡ walk t s 1 (length s)
  walk-min t s bound h = sym (
      deepest-bounds t s 1 (length s) (min (length s) bound) (omega arith) (omega arith)
        (λ p. omega arith))

  pub max_depth-bounds : (t reduced : Table V) → deepest t ≤ max_depth t reduced
  max_depth-bounds [] reduced = omega arith
  max_depth-bounds (entry ∷ t) reduced = omega arith

-- ===== src/Base/Sublists.antt =====
-- A list that is left when items are dropped from another.
use Prim.Native.Nat.{ℕ, zero, suc, ◌+◌}
use mathlib.Core.List.{List, [], ◌∷◌, ◌++◌}
use Prim.Native.Nat.add
use wax_mb.Base.Lists.{take, drop}

pub data Subsequence {ℓ} {A : Type ℓ} : List A → List A → Type ℓ where
  done : Subsequence [] []
  keep : (x : A) {xs ys : List A} → Subsequence xs ys → Subsequence (x ∷ xs) (x ∷ ys)
  leave : (x : A) {xs ys : List A} → Subsequence xs ys → Subsequence xs (x ∷ ys)

module _ {ℓ} {A : Type ℓ} where
  pub Subsequence-refl : (xs : List A) → Subsequence xs xs
  Subsequence-refl [] = done
  Subsequence-refl (x ∷ xs) = keep x (Subsequence-refl xs)

  after :
      {ys zs : List A} → Subsequence ys zs → {xs : List A} → Subsequence xs ys → Subsequence xs zs
  after done p = p
  after (keep x q) (keep _ p) = keep x (after q p)
  after (keep x q) (leave _ p) = leave x (after q p)
  after (leave x q) p = leave x (after q p)

  pub Subsequence-trans :
      {xs ys zs : List A} → Subsequence xs ys → Subsequence ys zs → Subsequence xs zs
  Subsequence-trans p q = after q p

  Subsequence-drop : (n : ℕ) (xs : List A) → Subsequence (drop n xs) xs
  Subsequence-drop zero xs = Subsequence-refl xs
  Subsequence-drop (suc n) [] = done
  Subsequence-drop (suc n) (x ∷ xs) = leave x (Subsequence-drop n xs)

  -- What a cut of `n` items at `i` leaves.
  pub Subsequence-cut : (i n : ℕ) (xs : List A) → Subsequence (take i xs ++ drop (i + n) xs) xs
  Subsequence-cut zero n xs = rw (add.zero n) (Subsequence-drop n xs)
  Subsequence-cut (suc i) n [] = rw (add.suc i n) done
  Subsequence-cut (suc i) n (x ∷ xs) = rw (add.suc i n) (keep x (Subsequence-cut i n xs))

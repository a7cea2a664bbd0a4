-- ===== src/Waxdiff/Fuzz/Minimize.antt =====
-- `minimize`: shrinking a failing mutant by chunks, under a budget of attempts. Whether a candidate
-- still fails is a parameter, the call of `grade` on its rendering.
pub mod Laws
use wax_mb.Base.{
  ℕ, zero, suc, ◌+◌, ◌/◌, Text, Bool, true, false, ◌&&◌, Option, none, some, List, [], ◌∷◌, ◌++◌,
  if◌then◌else◌, length, take, drop, ltb, leb, max,
}

-- `kept`, `budget - spent` and `shrunk`
pub record Shrinking : Type 0 where
  pub kept : List Text
  pub left : ℕ
  pub shrunk : Bool

-- `bool(candidate)`
abbrev pub is_nonempty : List Text → Bool
is_nonempty [] = false
is_nonempty (t ∷ ts) = true

abbrev pub first_width : List Text → ℕ
first_width tokens = max 1 (length tokens / 2)

module _ (fails : List Text → Bool) where
  -- The inner loop, on the attempts that are left: each round spends one.
  unfoldable pub sweep : ℕ → ℕ → List Text → ℕ → Bool → Shrinking
  sweep width zero kept i shrunk = record { kept = kept; left = zero; shrunk = shrunk }
  sweep width (suc left) kept i shrunk = elim (ltb i (length kept)) [
    | false ↦ record { kept = kept; left = suc left; shrunk = shrunk }
    | true ↦
        let candidate = take i kept ++ drop (i + width) kept in
        elim (is_nonempty candidate && fails candidate) [
          | true ↦ sweep width left candidate i true
          | false ↦ sweep width left kept (i + width) shrunk
        ]
  ]

  -- The outer loop. `none` means that the fuel ran out.
  unfoldable pub narrow : ℕ → ℕ → ℕ → List Text → Option (List Text × ℕ)
  narrow zero width left kept = none
  narrow (suc fuel) width left kept = elim (leb 1 width && ltb 0 left) [
    | false ↦ some (kept, left)
    | true ↦
        let s = sweep width left kept 0 false in
        narrow fuel (if s.shrunk then width else width / 2) s.left s.kept
  ]

  -- The result, and the attempts that were not spent.
  unfoldable pub minimize : List Text → ℕ → Option (List Text × ℕ)
  unfolding narrow
  minimize tokens budget =
      narrow (first_width tokens + budget + 1) (first_width tokens) budget tokens

-- ===== src/Waxdiff/Fuzz/Minimize/Laws.antt =====
-- What `minimize` returns.
use wax_mb.Base.{
  ℕ, zero, suc, ◌+◌, ◌/◌, ◌≤◌, ◌<◌, ◌≡◌, ◌≢◌, refl, ap, arith, Option, Option-cases, Subsequence,
  Subsequence-refl, Subsequence-trans, Subsequence-cut, Text, Bool, true, false, ◌&&◌, none, some,
  some_inj, List, ◌++◌, if◌then◌else◌, length, take, drop, ltb, leb, Bool-cases, inl, inr, subst,
}
use wax_mb.Waxdiff.Fuzz.Minimize.{Shrinking, is_nonempty, sweep, narrow, first_width, minimize}

width_done : (width left : ℕ) → (leb 1 width && ltb 0 left) ≡ false → 0 < left → width ≡ 0
width_done width left stop p = ground arith

module _ (fails : List Text → Bool) where
  sweep-fails :
      (width left : ℕ) (kept : List Text) (i : ℕ) (shrunk : Bool)
      → fails kept ≡ true
      → fails (sweep fails width left kept i shrunk).kept ≡ true
  unfolding sweep
  sweep-fails width zero kept i shrunk h = h
  sweep-fails width (suc left) kept i shrunk h = ground (
    arith,
    sweep-fails width left (take i kept ++ drop (i + width) kept) i true,
    sweep-fails width left kept (i + width) shrunk,
  )

  -- A sweep that shrank has spent an attempt.
  sweep-left :
      (width left : ℕ) (kept : List Text) (i : ℕ) (shrunk : Bool)
      → let s = sweep fails width left kept i shrunk in
        (s.left ≤ left) × (s.shrunk ≡ true → shrunk ≡ false → s.left < left)
  unfolding sweep
  sweep-left width zero kept i shrunk = ground arith
  sweep-left width (suc left) kept i shrunk = ground (
    arith,
    sweep-left width left (take i kept ++ drop (i + width) kept) i true,
    sweep-left width left kept (i + width) shrunk,
  )

  narrow_total :
      (fuel width left : ℕ) (kept : List Text)
      → width + left < fuel
      → narrow fails fuel width left kept ≢ none
  unfolding narrow
  narrow_total zero width left kept h = absurd (omega arith)
  narrow_total (suc fuel) width left kept h =
      let s = sweep fails width left kept 0 false in
      ground (
        arith,
        sweep-left width left kept 0 false,
        narrow_total fuel (if s.shrunk then width else width / 2) s.left s.kept,
      )

  abbrev without : List Text → ℕ → List Text
  without kept j = take j kept ++ drop (j + 1) kept

  -- No single token can be left out of `kept`, unless nothing would remain.
  abbrev pub IsMinimal : List Text → Type 0
  IsMinimal kept =
      (j : ℕ) → j < length kept → (is_nonempty (without kept j) && fails (without kept j)) ≡ false

  sweep-shrunk :
      (width left : ℕ) (kept : List Text) (i : ℕ)
      → (sweep fails width left kept i true).shrunk ≡ true
  unfolding sweep
  sweep-shrunk width zero kept i = refl
  sweep-shrunk width (suc left) kept i = ground (
    arith,
    sweep-shrunk width left (take i kept ++ drop (i + width) kept) i,
    sweep-shrunk width left kept (i + width),
  )

  -- A sweep of single tokens that ran to the end and dropped none has tried them all.
  sweep_minimal :
      (left : ℕ) (kept : List Text) (i j : ℕ)
      → (sweep fails 1 left kept i false).shrunk ≡ false
      → 0 < (sweep fails 1 left kept i false).left
      → i ≤ j
      → j < length kept
      → (is_nonempty (without kept j) && fails (without kept j)) ≡ false
  unfolding sweep
  sweep_minimal zero kept i j h l p q = absurd (omega arith)
  sweep_minimal (suc left) kept i j h l p q = elim (Bool-cases (ltb i j)) [
    | inl later ↦
        ground (arith, sweep-shrunk 1 left (without kept i) i, sweep_minimal left kept (i + 1) j)
    | inr now ↦
        let here : i ≡ j = ground arith in
        subst (λ (n : ℕ). (is_nonempty (without kept n) && fails (without kept n)) ≡ false) here
          (ground (arith, sweep-shrunk 1 left (without kept i) i))
  ]

  sweep-kept :
      (width left : ℕ) (kept : List Text) (i : ℕ)
      → (sweep fails width left kept i false).shrunk ≡ false
      → (sweep fails width left kept i false).kept ≡ kept
  unfolding sweep
  sweep-kept width zero kept i h = refl
  sweep-kept width (suc left) kept i h = ground (
    arith,
    sweep-shrunk width left (take i kept ++ drop (i + width) kept) i,
    sweep-kept width left kept (i + width),
  )

  narrow-left :
      (fuel width left : ℕ) (kept k : List Text) (l : ℕ)
      → narrow fails fuel width left kept ≡ some (k, l)
      → l ≤ left
  unfolding narrow
  narrow-left zero width left kept k l h = cc
  narrow-left (suc fuel) width left kept k l h =
      let s = sweep fails width left kept 0 false in
      ground (
        arith,
        sweep-left width left kept 0 false,
        narrow-left fuel (if s.shrunk then width else width / 2) s.left s.kept k l,
      )

  narrow-fails :
      (fuel width left : ℕ) (kept k : List Text) (l : ℕ)
      → narrow fails fuel width left kept ≡ some (k, l)
      → fails kept ≡ true
      → fails k ≡ true
  unfolding narrow
  narrow-fails zero width left kept k l h f = cc
  narrow-fails (suc fuel) width left kept k l h f =
      let s = sweep fails width left kept 0 false in
      ground (
        arith,
        sweep-fails width left kept 0 false,
        narrow-fails fuel (if s.shrunk then width else width / 2) s.left s.kept k l,
      )

  sweep-IsMinimal :
      (width left : ℕ) (kept : List Text)
      → width ≡ 1
      → (sweep fails width left kept 0 false).shrunk ≡ false
      → 0 < (sweep fails width left kept 0 false).left
      → IsMinimal (sweep fails width left kept 0 false).kept
  sweep-IsMinimal width left kept one h p =
      rw (sweep-kept width left kept 0 h)
        (λ j q. sweep_minimal left kept 0 j (rw one at h) (rw one at p) (omega arith) q)

  narrow-IsMinimal :
      (fuel width left : ℕ) (kept k : List Text) (l : ℕ)
      → narrow fails fuel width left kept ≡ some (k, l)
      → 0 < l
      → (width ≡ 0 → IsMinimal kept)
      → IsMinimal k
  unfolding narrow
  narrow-IsMinimal zero width left kept k l h p m = cc
  narrow-IsMinimal (suc fuel) width left kept k l h p m =
      elim (Bool-cases (leb 1 width && ltb 0 left)) [
        | inl go ↦
            let s = sweep fails width left kept 0 false in
            let h' : narrow fails fuel (if s.shrunk then width else width / 2) s.left s.kept
                ≡ some (k, l) =
              rw (go, narrow) at h in
            narrow-IsMinimal fuel (if s.shrunk then width else width / 2) s.left s.kept k l h' p
              (λ z. sweep-IsMinimal width left kept (ground arith) (ground arith) (
                omega (
                  arith,
                  narrow-left fuel (if s.shrunk then width else width / 2) s.left s.kept k l h',
                )))
        | inr stop ↦
            let h' : ◌≡◌ {A = Option (List Text × ℕ)} (some (kept, left)) (some (k, l)) =
              rw (stop, narrow) at h in
            let same_kept : kept ≡ k = ap (λ (r : List Text × ℕ). r.0) (some_inj h') in
            let same_left : left ≡ l = ap (λ (r : List Text × ℕ). r.1) (some_inj h') in
            subst IsMinimal same_kept (m (width_done width left stop (omega (arith, same_left))))
      ]

  sweep-Subsequence :
      (width left : ℕ) (kept : List Text) (i : ℕ) (shrunk : Bool)
      → Subsequence (sweep fails width left kept i shrunk).kept kept
  unfolding sweep
  sweep-Subsequence width zero kept i shrunk = Subsequence-refl kept
  sweep-Subsequence width (suc left) kept i shrunk =
      let candidate = take i kept ++ drop (i + width) kept in
      elim (ltb i (length kept))
        as (λ b.
          Subsequence
            (elim b as (λ _. Shrinking) [
              | false ↦ record { kept = kept; left = suc left; shrunk = shrunk }
              | true ↦ elim (is_nonempty candidate && fails candidate) [
                | true ↦ sweep fails width left candidate i true
                | false ↦ sweep fails width left kept (i + width) shrunk
              ]
            ]).kept
            kept) [
              | false ↦ Subsequence-refl kept
              | true ↦
                  elim (is_nonempty candidate && fails candidate)
                    as (λ b.
                      Subsequence
                        (elim b as (λ _. Shrinking) [
                          | true ↦ sweep fails width left candidate i true
                          | false ↦ sweep fails width left kept (i + width) shrunk
                        ]).kept
                        kept) [
                          | true ↦
                              Subsequence-trans (sweep-Subsequence width left candidate i true)
                                (Subsequence-cut i width kept)
                          | false ↦ sweep-Subsequence width left kept (i + width) shrunk
                        ]
            ]

  narrow-Subsequence :
      (fuel width left : ℕ) (kept k : List Text) (l : ℕ)
      → narrow fails fuel width left kept ≡ some (k, l)
      → Subsequence k kept
  unfolding narrow
  narrow-Subsequence zero width left kept k l h = cc
  narrow-Subsequence (suc fuel) width left kept k l h =
      elim (Bool-cases (leb 1 width && ltb 0 left)) [
        | inl go ↦
            let s = sweep fails width left kept 0 false in
            Subsequence-trans
              (narrow-Subsequence fuel (if s.shrunk then width else width / 2) s.left s.kept k l
                (rw (go, narrow) at h))
              (sweep-Subsequence width left kept 0 false)
        | inr stop ↦
            let h' : some (kept, left) ≡ some (k, l) = rw (stop, narrow) at h in
            subst (λ r. Subsequence r kept) (ap (λ (r : List Text × ℕ). r.0) (some_inj h'))
              (Subsequence-refl kept)
      ]

  -- Shrinking a mutant that fails always ends with a result, which still fails, is a subsequence
  -- of the mutant, and has cost no more attempts than the budget; if attempts are left over, no
  -- single token of the result can be dropped: what remains would be empty or would not fail.
  pub minimize_total :
      (tokens : List Text) (budget : ℕ)
      → fails tokens ≡ true
      → (kept : List Text) × (left : ℕ) × (minimize fails tokens budget ≡ some (kept, left))
        × (fails kept ≡ true)
        × Subsequence kept tokens
        × (left ≤ budget)
        × (0 < left → IsMinimal kept)
  unfolding minimize
  minimize_total tokens budget f =
      let w = first_width tokens in
      elim (Option-cases (narrow fails (w + budget + 1) w budget tokens)) [
        | inl e ↦ absurd (narrow_total (w + budget + 1) w budget tokens (omega arith) e)
        | inr ((kept, left), e) ↦ (
          kept,
          left,
          e,
          narrow-fails (w + budget + 1) w budget tokens kept left e f,
          narrow-Subsequence (w + budget + 1) w budget tokens kept left e,
          narrow-left (w + budget + 1) w budget tokens kept left e,
          λ p.
              narrow-IsMinimal (w + budget + 1) w budget tokens kept left e p
                (λ z. absurd (ground arith)),
        )
      ]

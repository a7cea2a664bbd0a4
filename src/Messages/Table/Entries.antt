-- ===== src/Messages/Table/Entries.antt =====
-- Reading the table of messages after a write, and what `walk` reads of it.
use wax_mb.Base.{
  ℕ, zero, suc, ◌+◌, ◌≤◌, ◌≡◌, ◌≢◌, refl, arith, Text, Option, some, List, [], ◌∷◌, length, ◌==◌,
  eq_iff, eq_self, Bool-cases, true, false, inl, inr, list_eq, nat_eq, sym,
}
use wax_mb.Messages.Key.{key_of}
use wax_mb.Messages.Table.{Table, table_get, table_set, follow, walk}

pub differs : (j k : Text) → j ≢ k → (j == k) ≡ false
differs j k h = elim (Bool-cases (j == k)) [
  | inl same ↦ absurd (h ((eq_iff j k).0 same))
  | inr apart ↦ apart
]

pub apart_of : (j k : Text) → (j == k) ≡ false → j ≢ k
apart_of j k h same = let both : (j == k) ≡ true = (eq_iff j k).1 same in cc

pub apart_sym : (j k : Text) → (j == k) ≡ false → (k == j) ≡ false
apart_sym j k h = differs k j (λ q. apart_of j k h (sym q))

module _ {V : Type 0} where
  pub table_get-set :
      (t : Table V) (k : Text) (v : Option V) → table_get (table_set t k v) k ≡ some v
  unfolding table_get table_set
  table_get-set [] k v = rw (eq_self k) refl
  table_get-set ((j, w) ∷ t) k v = elim (Bool-cases (j == k)) [
    | inl same ↦ rw (same, table_get, eq_self k) refl
    | inr apart ↦ rw (apart, table_get, apart) (table_get-set t k v)
  ]

  pub table_get-set_other :
      (t : Table V) (j k : Text) (v : Option V)
      → k ≢ j
      → table_get (table_set t k v) j ≡ table_get t j
  unfolding table_get table_set
  table_get-set_other [] j k v h = rw (differs k j h) refl
  table_get-set_other ((i, w) ∷ t) j k v h = elim (Bool-cases (i == k)) [
    | inl same ↦ rw (same, table_get, differs k j h, (eq_iff i k).0 same, differs k j h) refl
    | inr apart ↦ elim (Bool-cases (i == j)) [
      | inl here ↦ rw (apart, table_get, here) refl
      | inr there ↦ rw (apart, table_get, there) (table_get-set_other t j k v h)
    ]
  ]

  -- Two tables with the same entries for the suffixes of a stack are walked alike.
  pub walk-entries :
      (t t' : Table V) (s : List ℕ) (d n : ℕ)
      → d + n ≤ length s + 1
      → ((e : ℕ) → d ≤ e → e ≤ length s → table_get t (key_of s e) ≡ table_get t' (key_of s e))
      → walk t s d n ≡ walk t' s d n
  unfolding walk
  walk-entries t t' s d zero b h = refl
  walk-entries t t' s d (suc n) b h =
      let rest : walk t s (d + 1) n ≡ walk t' s (d + 1) n =
        walk-entries t t' s (d + 1) n (omega arith) (λ e p q. h e (omega arith) q) in
      rw (h d (omega arith) (omega arith), rest) refl

  pub walk-follow :
      (t : Table V) (s : List ℕ) (d n : ℕ) (entry : Option (Option V))
      → table_get t (key_of s d) ≡ entry
      → walk t s d (suc n) ≡ follow entry (walk t s (d + 1) n)
  unfolding walk
  walk-follow t s d n entry h = rw h refl

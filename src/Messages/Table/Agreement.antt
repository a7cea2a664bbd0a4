-- ===== src/Messages/Table/Agreement.antt =====
-- What `unanimous` and `has_deeper` say of the items of a group.
use mathlib.Core.List.{Memᴰ}
use mathlib.Core.List.Memᴰ.{head, tail}
use wax_mb.Base.{
  ℕ, ◌≤◌, ◌≡◌, refl, arith, some, some_inj, none-ne-some, List, [], ◌∷◌, length, ◌==◌, Eq, eq_iff,
  eq_self, Bool-cases, true, false, inl, inr, list_eq, nat_eq, sym, ◌∙◌, ap, all,
}
use wax_mb.Messages.Table.{Items, unanimous, has_deeper}

module _ {V : Type 0} ⦃e : Eq V⦄ where
  agree :
      (g : Items V) (v : V) (item : List ℕ × V)
      → all (λ (i : List ℕ × V). i.1 == v) g ≡ true
      → Memᴰ item g
      → item.1 ≡ v
  agree [] v item h m = elim m [ ]
  agree (x ∷ g) v item h (head q) = ap (λ (i : List ℕ × V). i.1) q ∙ (eq_iff x.1 v).0 (ground arith)
  agree (x ∷ g) v item h (tail m) = agree g v item (ground arith) m

  agree_intro :
      (g : Items V) (v : V)
      → ((item : List ℕ × V) → Memᴰ item g → item.1 ≡ v)
      → all (λ (i : List ℕ × V). i.1 == v) g ≡ true
  agree_intro [] v h = refl
  agree_intro (x ∷ g) v h =
      rw ((eq_iff x.1 v).1 (h x (head refl)), agree_intro g v (λ i m. h i (tail m))) refl

  pub unanimous-all :
      (g : Items V) (v : V) (item : List ℕ × V) → unanimous g ≡ some v → Memᴰ item g → item.1 ≡ v
  unfolding unanimous
  unanimous-all [] v item h m = elim m [ ]
  unanimous-all ((stack, x) ∷ g) v item h m =
      elim (Bool-cases (all (λ (i : List ℕ × V). i.1 == x) g)) [
        | inl one ↦
            agree ((stack, x) ∷ g) x item (rw (eq_self x, one) refl) m ∙ some_inj (rw one at h)
        | inr split ↦ absurd (none-ne-some (rw split at h))
      ]

  pub unanimous_intro :
      (g : Items V) (v : V) (item : List ℕ × V)
      → Memᴰ item g
      → ((i : List ℕ × V) → Memᴰ i g → i.1 ≡ v)
      → unanimous g ≡ some v
  unfolding unanimous
  unanimous_intro [] v item m h = elim m [ ]
  unanimous_intro ((stack, x) ∷ g) v item m h =
      let same : x ≡ v = h (stack, x) (head refl) in
      rw (agree_intro g x (λ i m'. h i (tail m') ∙ sym same)) (ap some same)

  pub shallow :
      (depth : ℕ) (g : Items V) (item : List ℕ × V)
      → has_deeper depth g ≡ false
      → Memᴰ item g
      → length item.0 ≤ depth
  unfolding has_deeper
  shallow depth [] item h m = elim m [ ]
  shallow depth (x ∷ g) item h (head q) =
      let same : length item.0 ≡ length x.0 = ap (λ (i : List ℕ × V). length i.0) q in ground arith
  shallow depth (x ∷ g) item h (tail m) = shallow depth g item (ground arith) m

-- ===== src/Base/Search.antt =====
-- Membership in a list, as `x in xs`.
use mathlib.Core.Path.{◌≡◌, refl}
use mathlib.Core.Bool.{Bool, true, false, ◌||◌, ◌&&◌}
use mathlib.Core.List.{List, [], ◌∷◌, ◌++◌}
use native.Mathlib.Omega.{arith}
use mathlib.Core.Logic.{inl, inr}
use wax_mb.Base.Tests.{Eq, ◌==◌, eq_iff, eq_self, or_true, Bool-cases}
use wax_mb.Base.Lists.{all, any, select}

module _ {ℓ} {A : Type ℓ} ⦃e : Eq A⦄ where
  abbrev pub contains : A → List A → Bool
  contains a [] = false
  contains a (x ∷ xs) = a == x || contains a xs

  pub contains-append :
      (a : A) (xs ys : List A) → contains a (xs ++ ys) ≡ (contains a xs || contains a ys)
  contains-append a [] ys = refl
  contains-append a (x ∷ xs) ys = ground (arith, contains-append a xs ys)

module _ {ℓ} {A : Type ℓ} ⦃e : Eq A⦄ where
  -- What holds of all items of a list holds of each.
  pub all_of_contains :
      (p : A → Bool) (a : A) (xs : List A) → all p xs ≡ true → contains a xs ≡ true → p a ≡ true
  all_of_contains p a [] h m = cc
  all_of_contains p a (x ∷ xs) h m = elim (Bool-cases (a == x)) [
    | inl here ↦ rw ((eq_iff a x).0 here) (ground arith)
    | inr later ↦ ground (arith, all_of_contains p a xs)
  ]

  pub contains-select :
      (p : A → Bool) (x : A) (xs : List A) → contains x (select p xs) ≡ (contains x xs && p x)
  contains-select p x [] = refl
  contains-select p x (y ∷ ys) = elim (Bool-cases (x == y)) [
    | inl here ↦
        rw ((eq_iff x y).0 here)
          (ground (arith, (eq_iff y y).1 refl, contains-select p y ys, contains-select p x ys))
    | inr there ↦ ground (arith, contains-select p x ys)
  ]

  pub all_intro :
      (p : A → Bool) (xs : List A) → ((a : A) → contains a xs ≡ true → p a ≡ true) → all p xs ≡ true
  all_intro p [] h = refl
  all_intro p (x ∷ xs) h =
      let first : p x ≡ true = h x (rw (eq_self x) refl) in
      let rest : all p xs ≡ true = all_intro p xs (λ a m. h a (rw m (or_true (a == x)))) in
      rw (first, rest) refl

  pub any_of_contains :
      (p : A → Bool) (a : A) (xs : List A) → p a ≡ true → contains a xs ≡ true → any p xs ≡ true
  any_of_contains p a [] h m = cc
  any_of_contains p a (x ∷ xs) h m = elim (Bool-cases (a == x)) [
    | inl here ↦ rw (← (eq_iff a x).0 here) (rw h refl)
    | inr later ↦ ground (arith, any_of_contains p a xs h)
  ]

  -- What holds of some item holds of some item of a list that contains them all.
  pub any_mono :
      (p : A → Bool) (xs ys : List A)
      → all (λ a. contains a ys) xs ≡ true
      → any p xs ≡ true
      → any p ys ≡ true
  any_mono p [] ys h m = cc
  any_mono p (x ∷ xs) ys h m = ground (arith, any_mono p xs ys, any_of_contains p x ys)

-- ===== src/Base/Items.antt =====
-- What holds of every item of a list, for a statement that is not a test.
use mathlib.Core.Path.{◌≡◌, refl, sym, ◌∙◌}
use mathlib.Core.Logic.{◌≢◌, inl, inr}
use mathlib.Core.Bool.{Bool, true, false, ◌||◌}
use mathlib.Core.List.{List, [], ◌∷◌, map}
use native.Mathlib.Omega.{arith}
use wax_mb.Base.Lists.{select}
use wax_mb.Base.Sorting.{insert_by, sorted_by}
use wax_mb.Base.Tests.{if◌then◌else◌, Bool-cases, Eq, ◌==◌}
use wax_mb.Base.Search.{contains}

module _ {ℓ} {A : Type ℓ} where
  abbrev pub Every : (A → Type 0) → List A → Type 0
  Every P [] = Unit
  Every P (x ∷ xs) = P x × Every P xs

  if_Every :
      (P : A → Type 0) (b : Bool) (xs ys : List A)
      → Every P xs
      → Every P ys
      → Every P (if b then xs else ys)
  if_Every P true xs ys h k = h
  if_Every P false xs ys h k = k

  pub select-Every :
      (P : A → Type 0) (p : A → Bool) (xs : List A) → Every P xs → Every P (select p xs)
  select-Every P p [] h = tt
  select-Every P p (x ∷ xs) (h, hs) =
      let rest = select-Every P p xs hs in
      if_Every P (p x) (x ∷ select p xs) (select p xs) (h, rest) rest

  insert_by-Every :
      (P : A → Type 0) (before : A → A → Bool) (e : A) (xs : List A)
      → P e
      → Every P xs
      → Every P (insert_by before e xs)
  unfolding insert_by
  insert_by-Every P before e [] h k = (h, tt)
  insert_by-Every P before e (x ∷ xs) h (k, ks) =
      if_Every P (before e x) (e ∷ x ∷ xs) (x ∷ insert_by before e xs) (h, (k, ks))
        (k, insert_by-Every P before e xs h ks)

  pub sorted_by-Every :
      (P : A → Type 0) (before : A → A → Bool) (xs : List A)
      → Every P xs
      → Every P (sorted_by before xs)
  unfolding sorted_by
  sorted_by-Every P before [] h = tt
  sorted_by-Every P before (x ∷ xs) (h, hs) =
      insert_by-Every P before x _ h (sorted_by-Every P before xs hs)

  pub map_Every : (P Q : A → Type 0) (xs : List A) → ((x : A) → P x → Q x) → Every P xs → Every Q xs
  map_Every P Q [] f h = tt
  map_Every P Q (x ∷ xs) f (h, hs) = (f x h, map_Every P Q xs f hs)

  pub Every-both :
      (P Q : A → Type 0) (xs : List A) → Every P xs → Every Q xs → Every (λ (x : A). P x × Q x) xs
  Every-both P Q [] h k = tt
  Every-both P Q (x ∷ xs) (h, hs) (k, ks) = ((h, k), Every-both P Q xs hs ks)

module _ {ℓ κ} {A : Type ℓ} {B : Type κ} where
  pub Every-map :
      (P : B → Type 0) (f : A → B) (xs : List A)
      → Every P (map f xs)
      → Every (λ (x : A). P (f x)) xs
  Every-map P f [] h = tt
  Every-map P f (x ∷ xs) (h, hs) = (h, Every-map P f xs hs)

-- No item stands in the list twice.
module _ {A : Type 0} where
  abbrev pub IsDistinct : List A → Type 0
  IsDistinct [] = Unit
  IsDistinct (x ∷ xs) = Every (λ (y : A). x ≢ y) xs × IsDistinct xs

  if_IsDistinct :
      (b : Bool) (xs ys : List A)
      → IsDistinct xs
      → IsDistinct ys
      → IsDistinct (if b then xs else ys)
  if_IsDistinct true xs ys h k = h
  if_IsDistinct false xs ys h k = k

  pub select-IsDistinct : (p : A → Bool) (xs : List A) → IsDistinct xs → IsDistinct (select p xs)
  select-IsDistinct p [] h = tt
  select-IsDistinct p (x ∷ xs) (h, hs) =
      let rest = select-IsDistinct p xs hs in
      if_IsDistinct (p x) (x ∷ select p xs) (select p xs)
        (select-Every (λ (y : A). x ≢ y) p xs h, rest) rest

  insert_by-IsDistinct :
      (before : A → A → Bool) (e : A) (xs : List A)
      → Every (λ (y : A). e ≢ y) xs
      → IsDistinct xs
      → IsDistinct (insert_by before e xs)
  unfolding insert_by
  insert_by-IsDistinct before e [] h k = (tt, tt)
  insert_by-IsDistinct before e (x ∷ xs) (h, hs) (k, ks) =
      if_IsDistinct (before e x) (e ∷ x ∷ xs) (x ∷ insert_by before e xs) ((h, hs), (k, ks))
        (
          insert_by-Every (λ (y : A). x ≢ y) before e xs (λ q. h (sym q)) k,
          insert_by-IsDistinct before e xs hs ks,
        )

  pub sorted_by-IsDistinct :
      (before : A → A → Bool) (xs : List A) → IsDistinct xs → IsDistinct (sorted_by before xs)
  unfolding sorted_by
  sorted_by-IsDistinct before [] h = tt
  sorted_by-IsDistinct before (x ∷ xs) (h, hs) =
      insert_by-IsDistinct before x (sorted_by before xs)
        (sorted_by-Every (λ (y : A). x ≢ y) before xs h) (sorted_by-IsDistinct before xs hs)

  -- What is selected passes the test, sorted or not.
  pub select_passes : (p : A → Bool) (xs : List A) → Every (λ (x : A). p x ≡ true) (select p xs)
  select_passes p [] = tt
  select_passes p (x ∷ xs) = elim (Bool-cases (p x)) [
    | inl e ↦ rw e (e, select_passes p xs)
    | inr e ↦ rw e (select_passes p xs)
  ]

-- Sorting by a key keeps the keys.
module _ {A : Type 0} {B : Type 0} ⦃e : Eq B⦄ where
  contains-insert_by :
      (before : A → A → Bool) (f : A → B) (b : B) (x : A) (xs : List A)
      → contains b (map f (insert_by before x xs)) ≡ (b == f x || contains b (map f xs))
  unfolding insert_by
  contains-insert_by before f b x [] = refl
  contains-insert_by before f b x (y ∷ ys) = ground (arith, contains-insert_by before f b x ys)

  pub contains-sorted_by :
      (before : A → A → Bool) (f : A → B) (b : B) (xs : List A)
      → contains b (map f (sorted_by before xs)) ≡ contains b (map f xs)
  unfolding sorted_by
  contains-sorted_by before f b [] = refl
  contains-sorted_by before f b (x ∷ xs) =
      contains-insert_by before f b x (sorted_by before xs)
      ∙ rw (contains-sorted_by before f b xs) refl

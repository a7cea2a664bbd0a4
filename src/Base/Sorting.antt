-- ===== src/Base/Sorting.antt =====
-- `sorted`, by an order that is given as a test.
use mathlib.Core.Bool.{Bool, true, false, ◌&&◌, ◌||◌}
use mathlib.Core.List.{List, [], ◌∷◌}
use wax_mb.Base.Tests.{if◌then◌else◌, ◌==◌, list_eq, nat_eq, ltb}
use wax_mb.Base.Strings.{Text}

-- `a < b`, for two texts
unfoldable pub text_before : Text → Text → Bool
text_before [] [] = false
text_before [] (y ∷ b) = true
text_before (x ∷ a) [] = false
text_before (x ∷ a) (y ∷ b) = ltb x y || (x == y && text_before a b)

-- `a < b`, for two lists of texts
unfoldable pub texts_before : List Text → List Text → Bool
unfolding text_before
texts_before [] [] = false
texts_before [] (y ∷ b) = true
texts_before (x ∷ a) [] = false
texts_before (x ∷ a) (y ∷ b) = text_before x y || (x == y && texts_before a b)

module _ {ℓ} {A : Type ℓ} where
  unfoldable pub insert_by : (A → A → Bool) → A → List A → List A
  insert_by before e [] = e ∷ []
  insert_by before e (f ∷ t) =
      let rest = insert_by before e t in if before e f then e ∷ f ∷ t else f ∷ rest

  unfoldable pub sorted_by : (A → A → Bool) → List A → List A
  unfolding insert_by
  sorted_by before [] = []
  sorted_by before (e ∷ t) = insert_by before e (sorted_by before t)

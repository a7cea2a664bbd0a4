-- ===== src/Waxdiff/Fuzz/Mutate/Laws.antt =====
-- What one token edit may do to a list of tokens.
use mathlib.Core.List.{Memᴰ}
use mathlib.Core.List.Memᴰ.{head, tail, append_cases, cases_cons}
use wax_mb.Base.{
  ℕ, zero, suc, ◌+◌, ◌-◌, ◌≤◌, ◌<◌, ◌≡◌, ◌⊎◌, inl, inr, refl, ap, ◌∙◌, arith, min, Text, Bool-cases,
  List, [], ◌∷◌, length, take, drop, get_or, set, ltb, length-append, length-take, length-drop,
}
use wax_mb.Waxdiff.Fuzz.Mutate.{
  Edit, swap, delete, duplicate, borrow, Rng, swap_at, delete_at, insert_at, edit, mutate,
  mutate_times,
}

length-set : (xs : List Text) (i : ℕ) (v : Text) → length (set xs i v) ≡ length xs
length-set [] i v = refl
length-set (x ∷ xs) zero v = refl
length-set (x ∷ xs) (suc i) v = ap suc (length-set xs i v)

from_set :
    {x : Text} (xs : List Text) (i : ℕ) (v : Text) → Memᴰ x (set xs i v) → (x ≡ v) ⊎ Memᴰ x xs
from_set [] i v m = inr m
from_set (y ∷ ys) zero v m = elim (cases_cons m) [ inl q ↦ inl q | inr m' ↦ inr (tail m') ]
from_set (y ∷ ys) (suc i) v m = elim (cases_cons m) [
  | inl q ↦ inr (head q)
  | inr m' ↦ elim (from_set ys i v m') [ inl q ↦ inl q | inr p ↦ inr (tail p) ]
]

from_take : {x : Text} (n : ℕ) (xs : List Text) → Memᴰ x (take n xs) → Memᴰ x xs
from_take zero xs m = elim m [ ]
from_take (suc n) [] m = m
from_take (suc n) (y ∷ ys) m = elim (cases_cons m) [
  | inl q ↦ head q
  | inr m' ↦ tail (from_take n ys m')
]

from_drop : {x : Text} (n : ℕ) (xs : List Text) → Memᴰ x (drop n xs) → Memᴰ x xs
from_drop zero xs m = m
from_drop (suc n) [] m = m
from_drop (suc n) (y ∷ ys) m = tail (from_drop n ys m)

of_get_or :
    {x : Text} (xs : List Text) (i : ℕ) (d : Text) → i < length xs → x ≡ get_or xs i d → Memᴰ x xs
of_get_or [] i d h q = absurd (omega arith)
of_get_or (y ∷ ys) zero d h q = head q
of_get_or (y ∷ ys) (suc i) d h q = tail (of_get_or ys i d (omega arith) q)

-- At most `n` tokens more or fewer, and no token that was not there.
pub IsEdit : ℕ → List Text → List Text → Type 0
IsEdit n tokens out =
    (length out ≤ length tokens + n)
    × (length tokens ≤ length out + n)
    × ((t : Text) → Memᴰ t out → Memᴰ t tokens)

module _ {R : Type 0} (g : Rng R) (fair : (n : ℕ) (r : R) → 0 < n → (g.randrange n r).0 < n) where
  edit-IsEdit :
      (kind : Edit) (tokens : List Text) (i : ℕ) (r : R)
      → i < length tokens
      → IsEdit 1 tokens (edit g kind tokens i r).0
  unfolding edit IsEdit swap_at delete_at insert_at
  edit-IsEdit swap tokens i r h =
      let j = min (i + 1) (length tokens - 1) in
      let first = set tokens i (get_or tokens j []) in
      let same : length (set first j (get_or tokens i [])) ≡ length tokens =
        length-set first j (get_or tokens i []) ∙ length-set tokens i (get_or tokens j []) in
      (
        omega (arith, same),
        omega (arith, same),
        λ t m. elim (from_set first j (get_or tokens i []) m) [
          | inl q ↦ of_get_or tokens i [] h q
          | inr m' ↦ elim (from_set tokens i (get_or tokens j []) m') [
            | inl q ↦ of_get_or tokens j [] (omega arith) q
            | inr p ↦ p
          ]
        ],
      )
  edit-IsEdit delete tokens i r h = (
    omega (
      arith,
      length-append (take i tokens) (drop (i + 1) tokens),
      length-take i tokens,
      length-drop (i + 1) tokens,
    ),
    omega (
      arith,
      length-append (take i tokens) (drop (i + 1) tokens),
      length-take i tokens,
      length-drop (i + 1) tokens,
    ),
    λ t m. elim (append_cases (take i tokens) m) [
      | inl p ↦ from_take i tokens p
      | inr p ↦ from_drop (i + 1) tokens p
    ],
  )
  edit-IsEdit duplicate tokens i r h =
      let x = get_or tokens i [] in
      (
        omega (
          arith,
          length-append (take i tokens) (x ∷ drop i tokens),
          length-take i tokens,
          length-drop i tokens,
        ),
        omega (
          arith,
          length-append (take i tokens) (x ∷ drop i tokens),
          length-take i tokens,
          length-drop i tokens,
        ),
        λ t m. elim (append_cases (take i tokens) m) [
          | inl p ↦ from_take i tokens p
          | inr p ↦ elim (cases_cons p) [
            | inl q ↦ of_get_or tokens i [] h q
            | inr p' ↦ from_drop i tokens p'
          ]
        ],
      )
  edit-IsEdit borrow tokens i r h =
      let j = (g.randrange (length tokens) r).0 in
      let x = get_or tokens j [] in
      (
        omega (arith, length-set tokens i x),
        omega (arith, length-set tokens i x),
        λ t m. elim (from_set tokens i x m) [
          | inl q ↦ of_get_or tokens j [] (fair (length tokens) r (omega arith)) q
          | inr p ↦ p
        ],
      )

  mutate-IsEdit : (tokens : List Text) (r : R) → IsEdit 1 tokens (mutate g tokens r).0
  unfolding mutate IsEdit
  mutate-IsEdit tokens r = elim (Bool-cases (ltb (length tokens) 2)) [
    | inl few ↦ rw few (omega arith, omega arith, λ t m. m)
    | inr many ↦ rw many (
        edit-IsEdit (g.choice (g.randrange (length tokens) r).1).0 tokens
          (g.randrange (length tokens) r).0 (g.choice (g.randrange (length tokens) r).1).1
          (fair (length tokens) r (ground arith)))
  ]

  -- If the generator draws below its bound, `n` rounds of `mutate` leave at most `n` tokens more and
  -- at most `n` fewer, and every token of the result is a token of the file.
  pub mutate_times-IsEdit :
      (n : ℕ) (tokens : List Text) (r : R) → IsEdit n tokens (mutate_times g n tokens r).0
  unfolding mutate_times IsEdit
  mutate_times-IsEdit zero tokens r = (omega arith, omega arith, λ t m. m)
  mutate_times-IsEdit (suc n) tokens r =
      let one = mutate-IsEdit tokens r in
      let rest = mutate_times-IsEdit n (mutate g tokens r).0 (mutate g tokens r).1 in
      (omega (arith, one.0, rest.0), omega (arith, one.1, rest.1), λ t m. one.2 t (rest.2 t m))

-- ===== src/Waxdiff/Cram/Wordings.antt =====
-- `sorted(set(reasons))[0]`: the first of some wordings in the order of texts.
use mathlib.Core.List.{Memᴰ}
use mathlib.Core.List.Memᴰ.{head, tail, cases_cons, not-nil}
use wax_mb.Base.{
  ℕ, Text, true, false, List, [], ◌∷◌, ◌≡◌, refl, ◌∙◌, ap, list_eq, nat_eq, Bool-cases, inl, inr,
  arith,
}
use wax_mb.Waxdiff.Cram.Scope.{text_less, least}

-- The order of the wordings is total.
less_asym : (a b : Text) → text_less a b ≡ true → text_less b a ≡ false
unfolding text_less
less_asym [] [] h = cc
less_asym [] (y ∷ b) h = refl
less_asym (x ∷ a) [] h = cc
less_asym (x ∷ a) (y ∷ b) h = ground (arith, less_asym a b)

less_chain : (a b c : Text) → text_less b a ≡ false → text_less c b ≡ false → text_less c a ≡ false
unfolding text_less
less_chain [] [] [] h k = refl
less_chain [] [] (z ∷ c) h k = refl
less_chain [] (y ∷ b) [] h k = refl
less_chain [] (y ∷ b) (z ∷ c) h k = refl
less_chain (x ∷ a) [] c h k = cc
less_chain (x ∷ a) (y ∷ b) [] h k = cc
less_chain (x ∷ a) (y ∷ b) (z ∷ c) h k = ground (arith, less_chain a b c)

less_antisym : (a b : Text) → text_less a b ≡ false → text_less b a ≡ false → a ≡ b
unfolding text_less
less_antisym [] [] h k = refl
less_antisym [] (y ∷ b) h k = cc
less_antisym (x ∷ a) [] h k = cc
less_antisym (x ∷ a) (y ∷ b) h k =
    let first : x ≡ y = ground arith in
    let rest : a ≡ b = less_antisym a b (ground arith) (ground arith) in
    ap (λ (d : ℕ). d ∷ a) first ∙ ap (λ (s : Text). y ∷ s) rest

less_irrefl : (a : Text) → text_less a a ≡ false
less_irrefl a = elim (Bool-cases (text_less a a)) [ inl h ↦ less_asym a a h | inr h ↦ h ]

-- No wording of the list comes before that one.
abbrev pub IsLeast : Text → List Text → Type 0
IsLeast why ts = Memᴰ why ts × ((other : Text) → Memᴰ other ts → text_less other why ≡ false)

pub least-IsLeast : (t : Text) (ts : List Text) → IsLeast (least t ts) (t ∷ ts)
unfolding least
least-IsLeast t [] = (
  head refl,
  λ o m. elim (cases_cons m) [ inl q ↦ rw q (less_irrefl t) | inr m' ↦ absurd (not-nil m') ],
)
least-IsLeast t (u ∷ ts) =
    let (m, smallest) = least-IsLeast u ts in
    elim (Bool-cases (text_less (least u ts) t)) [
      | inl e ↦ rw e (
        tail m,
        λ o k. elim (cases_cons k) [
          | inl q ↦ rw q (less_asym (least u ts) t e)
          | inr k' ↦ smallest o k'
        ],
      )
      | inr e ↦ rw e (
        head refl,
        λ o k. elim (cases_cons k) [
          | inl q ↦ rw q (less_irrefl t)
          | inr k' ↦ less_chain t (least u ts) o e (smallest o k')
        ],
      )
    ]

pub least-only : (t why : Text) (ts : List Text) → IsLeast why (t ∷ ts) → why ≡ least t ts
least-only t why ts (m, smallest) =
    let (m', smallest') = least-IsLeast t ts in
    less_antisym why (least t ts) (smallest' why m) (smallest (least t ts) m')

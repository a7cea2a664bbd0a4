-- ===== src/Grammar/Parse/Alternatives.antt =====
-- The alternatives of a rule, and the piece before the first bar.
use mathlib.Core.List.{reverse, reverse-append}
use wax_mb.Base.{
  is_free, split_char-join, ℕ, ◌≡◌, refl, ap, sym, ◌∙◌, arith, Text, codes, Bool, true, false, List,
  [], ◌∷◌, ◌++◌, map, ◌==◌, list_eq, nat_eq, if◌then◌else◌, is_space, lstrip, strip, join, all,
  Bool-cases, inl, inr,
}
use wax_mb.Grammar.Parse.{without_empty, production, productions}

lstrip-blank : (s : Text) → all is_space s ≡ true → lstrip s ≡ []
lstrip-blank [] h = refl
lstrip-blank (c ∷ s) h = ground (arith, lstrip-blank s)

lstrip-solid :
    (s : Text)
    → all is_space s ≡ false
    → (c : ℕ) × (t : Text) × (lstrip s ≡ c ∷ t) × (is_space c ≡ false)
lstrip-solid [] h = absurd (ground arith)
lstrip-solid (c ∷ s) h = elim (Bool-cases (is_space c)) [
  | inl blank ↦
      let (d, t, e, solid) = lstrip-solid s (ground arith) in
      (d, t, ap (λ (b : Bool). if b then lstrip s else c ∷ s) blank ∙ e, solid)
  | inr solid ↦ (c, s, ap (λ (b : Bool). if b then lstrip s else c ∷ s) solid, solid)
]

-- The last character stays if it is not blank.
lstrip-last :
    (x : Text) (c : ℕ) → is_space c ≡ false → (y : Text) × (lstrip (x ++ c ∷ []) ≡ y ++ c ∷ [])
lstrip-last [] c h = ([], ap (λ (b : Bool). if b then [] else c ∷ []) h)
lstrip-last (d ∷ x) c h = elim (Bool-cases (is_space d)) [
  | inl blank ↦
      let (y, e) = lstrip-last x c h in
      (y, ap (λ (b : Bool). if b then lstrip (x ++ c ∷ []) else d ∷ x ++ c ∷ []) blank ∙ e)
  | inr solid ↦
      (d ∷ x, ap (λ (b : Bool). if b then lstrip (x ++ c ∷ []) else d ∷ x ++ c ∷ []) solid)
]

strip-blank : (s : Text) → (strip s == []) ≡ all is_space s
strip-blank s = elim (Bool-cases (all is_space s)) [
  | inl blank ↦
      ap (λ (x : Text). reverse (lstrip (reverse x)) == []) (lstrip-blank s blank) ∙ sym blank
  | inr solid ↦
      let (c, t, e, h) = lstrip-solid s solid in
      let (y, e') = lstrip-last (reverse t) c h in
      let stripped : strip s ≡ c ∷ reverse y =
        ap (λ (x : Text). reverse (lstrip (reverse x))) e
        ∙ ap (λ (x : Text). reverse (lstrip x)) (reverse-append (c ∷ []) t)
        ∙ ap reverse e'
        ∙ reverse-append y (c ∷ []) in
      ap (λ (x : Text). x == []) stripped ∙ sym solid
]

-- A rule whose alternatives have no bar in them is read as one production for each of them, except
-- that a piece before the first bar counts only if a character of it is not blank, as where it has
-- the marker of an action.
pub productions-join :
    (lead : Text) (alts : List Text)
    → all (is_free b'|') (lead ∷ alts) ≡ true
    → productions (join (codes "|") (lead ∷ alts))
      ≡ map production (if all is_space lead then alts else lead ∷ alts)
unfolding productions without_empty
productions-join lead alts h = rw (split_char-join b'|' lead alts h) (rw (strip-blank lead) refl)

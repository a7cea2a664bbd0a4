-- ===== src/Waxdiff/Fuzz/Tokens/Spans.antt =====
-- What `span` takes: the longest beginning of a text whose characters all pass.
use wax_mb.Base.{
  ℕ, ◌≡◌, refl, ap, sym, ◌∙◌, Text, Bool, true, not, [], ◌∷◌, ◌++◌, all, split_and, false_of_not,
  Bool-cases, inl, inr,
}
use wax_mb.Waxdiff.Fuzz.Tokens.{span}
use wax_mb.Waxdiff.Fuzz.Tokens.Cut.{span-append}

-- The text is empty, or its first character does not pass.
abbrev pub stops : (ℕ → Bool) → Text → Bool
stops p [] = true
stops p (c ∷ s) = not (p c)

pub span-whole :
    (p : ℕ → Bool) (w rest : Text)
    → all p w ≡ true
    → stops p rest ≡ true
    → span p (w ++ rest) ≡ (w, rest)
unfolding span
span-whole p [] [] h k = refl
span-whole p [] (c ∷ s) h k = rw (false_of_not (p c) k) refl
span-whole p (c ∷ w) rest h k =
    let (here, later) = split_and (p c) (all p w) h in rw (here, span-whole p w rest later k) refl

pub all-span : (p : ℕ → Bool) (s : Text) → all p (span p s).0 ≡ true
unfolding span
all-span p [] = refl
all-span p (c ∷ s) = elim (Bool-cases (p c)) [
  | inl takes ↦ rw takes (rw (takes, all-span p s) refl)
  | inr ends ↦ rw ends refl
]

pub stops-span : (p : ℕ → Bool) (s : Text) → stops p (span p s).1 ≡ true
unfolding span
stops-span p [] = refl
stops-span p (c ∷ s) = elim (Bool-cases (p c)) [
  | inl takes ↦ rw takes (stops-span p s)
  | inr ends ↦ rw ends (rw ends refl)
]

-- What `span` gives, put together again
pub split_of_span : (p : ℕ → Bool) (s w rest : Text) → span p s ≡ (w, rest) → s ≡ w ++ rest
split_of_span p s w rest e = sym (span-append p s) ∙ ap (λ (t : Text × Text). t.0 ++ t.1) e

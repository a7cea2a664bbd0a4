-- ===== src/Base/Splits.antt =====
-- `str.split` at one character, and `str.join` of what it gives.
use Prim.Native.Nat.{ℕ}
use mathlib.Core.Path.{◌≡◌, refl, ap, sym, ◌∙◌}
use mathlib.Core.Bool.{Bool, true, false, not}
use mathlib.Core.List.{List, [], ◌∷◌, ◌++◌, append-nil}
use wax_mb.Base.Tests.{
  if◌then◌else◌, ◌==◌, nat_eq, nat_beq_iff, split_and, false_of_not, Bool-cases,
}
use mathlib.Core.Logic.{inl, inr}
use wax_mb.Base.Lists.{all}
use wax_mb.Base.Strings.{Text, join}

abbrev pub onto_first : ℕ → List Text → List Text
onto_first c [] = []
onto_first c (p ∷ ps) = (c ∷ p) ∷ ps

-- `s.split(sep)`, for a character
abbrev pub split_char : ℕ → Text → List Text
split_char sep [] = [] ∷ []
split_char sep (c ∷ s) =
    let rest = split_char sep s in if c == sep then [] ∷ rest else onto_first c rest

-- The character does not stand in the text.
abbrev pub is_free : ℕ → Text → Bool
is_free sep s = all (λ c. not (c == sep)) s

split_char-cons :
    (sep c : ℕ) (s p : Text) (ps : List Text)
    → (c == sep) ≡ false
    → split_char sep s ≡ p ∷ ps
    → split_char sep (c ∷ s) ≡ (c ∷ p) ∷ ps
split_char-cons sep c s p ps h e = rw (h, e) refl

split_char-append :
    (sep : ℕ) (a s p : Text) (ps : List Text)
    → is_free sep a ≡ true
    → split_char sep s ≡ p ∷ ps
    → split_char sep (a ++ s) ≡ (a ++ p) ∷ ps
split_char-append sep [] s p ps h e = e
split_char-append sep (c ∷ a) s p ps h e =
    let (h1, h2) = split_and (not (c == sep)) (is_free sep a) h in
    split_char-cons sep c (a ++ s) (a ++ p) ps (false_of_not (c == sep) h1)
      (split_char-append sep a s p ps h2 e)

split_char-here : (sep : ℕ) (s : Text) → split_char sep (sep ∷ s) ≡ [] ∷ split_char sep s
split_char-here sep s = rw ((nat_beq_iff sep sep).1 refl) refl

-- Parts without the character are read back as they were joined by it.
pub split_char-join :
    (sep : ℕ) (a : Text) (parts : List Text)
    → all (is_free sep) (a ∷ parts) ≡ true
    → split_char sep (join (sep ∷ []) (a ∷ parts)) ≡ a ∷ parts
split_char-join sep a [] h =
    ap (split_char sep) (sym (append-nil a))
    ∙ split_char-append sep a [] [] [] (split_and (is_free sep a) true h).0 refl
    ∙ ap (λ (x : Text). x ∷ []) (append-nil a)
split_char-join sep a (b ∷ parts) h =
    let (h1, h2) = split_and (is_free sep a) (all (is_free sep) (b ∷ parts)) h in
    let rest = join (sep ∷ []) (b ∷ parts) in
    split_char-append sep a (sep ∷ rest) [] (b ∷ parts) h1
      (split_char-here sep rest ∙ ap (λ (x : List Text). [] ∷ x) (split_char-join sep b parts h2))
    ∙ ap (λ (x : Text). x ∷ b ∷ parts) (append-nil a)

join-onto_first :
    (sep : Text) (c : ℕ) (p : Text) (ps : List Text)
    → join sep ((c ∷ p) ∷ ps) ≡ c ∷ join sep (p ∷ ps)
join-onto_first sep c p [] = refl
join-onto_first sep c p (q ∷ ps) = refl

-- A text is cut into at least one part; the character stands in none of them, and joins them again.
pub split_char-some :
    (sep : ℕ) (s : Text)
    → (p : Text) × (ps : List Text) × (split_char sep s ≡ p ∷ ps)
      × (all (is_free sep) (p ∷ ps) ≡ true)
      × (join (sep ∷ []) (p ∷ ps) ≡ s)
split_char-some sep [] = ([], [], refl, refl, refl)
split_char-some sep (c ∷ s) =
    let (p, ps, e, free, whole) = split_char-some sep s in
    elim (Bool-cases (c == sep)) [
      | inl here ↦ (
        [],
        p ∷ ps,
        rw here (ap (λ (x : List Text). [] ∷ x) e),
        free,
        ap (λ (x : Text). sep ∷ x) whole ∙ ap (λ (x : ℕ). x ∷ s) (sym ((nat_beq_iff c sep).0 here)),
      )
      | inr apart ↦ (
        c ∷ p,
        ps,
        rw apart (ap (onto_first c) e),
        rw apart free,
        join-onto_first (sep ∷ []) c p ps ∙ ap (λ (x : Text). c ∷ x) whole,
      )
    ]

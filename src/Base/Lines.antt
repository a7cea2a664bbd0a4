-- ===== src/Base/Lines.antt =====
-- `str.splitlines` and `str.strip` on texts that were written line by line.
use Prim.Native.Nat.{ℕ}
use mathlib.Core.Path.{◌≡◌, refl, ap, sym, ◌∙◌}
use mathlib.Core.Bool.{Bool, true, false, not, ◌&&◌}
use mathlib.Core.List.{
  List, [], ◌∷◌, ◌++◌, reverse, append_assoc, append-nil, reverse-cons, reverse-append,
  reverse-reverse,
}
use wax_mb.Base.Tests.{if◌then◌else◌, ◌==◌, nat_eq, split_and, false_of_not}
use wax_mb.Base.Lists.{all}
use wax_mb.Base.Strings.{Text, is_space, lstrip, strip, is_line_end, splitlines_from, splitlines}

-- No character of the text ends a line.
abbrev pub is_line : Text → Bool
is_line s = all (λ c. not (is_line_end c)) s

-- The text has a last character, and it is not blank.
abbrev pub is_solid : Text → Bool
is_solid [] = false
is_solid (c ∷ []) = not (is_space c)
is_solid (c ∷ d ∷ s) = is_solid (d ∷ s)

-- Each line with its newline
abbrev pub unlines : List Text → Text
unlines [] = []
unlines (l ∷ ls) = l ++ (b'\n' ∷ unlines ls)

splitlines_from-newline :
    (acc rest : Text) → splitlines_from acc (b'\n' ∷ rest) ≡ reverse acc ∷ splitlines rest
splitlines_from-newline acc [] = refl
splitlines_from-newline acc (c ∷ rest) = refl

splitlines_from-step :
    (acc rest : Text) (c d : ℕ)
    → is_line_end c ≡ false
    → splitlines_from acc (c ∷ d ∷ rest) ≡ splitlines_from (c ∷ acc) (d ∷ rest)
splitlines_from-step acc rest c d h =
    ap
      (λ (b : Bool). elim b [
        | true ↦ elim (c == 13 && d == 10) [
          | true ↦ reverse acc ∷ splitlines_from [] rest
          | false ↦ reverse acc ∷ splitlines_from [] (d ∷ rest)
        ]
        | false ↦ splitlines_from (c ∷ acc) (d ∷ rest)
      ])
      h

reverse-cons_append : (c : ℕ) (acc l : Text) → reverse (c ∷ acc) ++ l ≡ reverse acc ++ c ∷ l
reverse-cons_append c acc l = rw (reverse-cons c acc) (append_assoc (reverse acc) (c ∷ []) l)

splitlines_from-line :
    (acc l rest : Text)
    → is_line l ≡ true
    → splitlines_from acc (l ++ b'\n' ∷ rest) ≡ (reverse acc ++ l) ∷ splitlines rest
splitlines_from-line acc [] rest h =
    splitlines_from-newline acc rest
    ∙ ap (λ (x : Text). x ∷ splitlines rest) (sym (append-nil (reverse acc)))
splitlines_from-line acc (c ∷ []) rest h =
    splitlines_from-step acc rest c b'\n' (false_of_not (is_line_end c) (split_and _ _ h).0)
    ∙ splitlines_from-newline (c ∷ acc) rest
    ∙ ap (λ (x : Text). x ∷ splitlines rest) (reverse-cons c acc)
splitlines_from-line acc (c ∷ d ∷ l) rest h =
    splitlines_from-step acc (l ++ b'\n' ∷ rest) c d
      (false_of_not (is_line_end c) (split_and _ _ h).0)
    ∙ splitlines_from-line (c ∷ acc) (d ∷ l) rest (split_and _ _ h).1
    ∙ ap (λ (x : Text). x ∷ splitlines rest) (reverse-cons_append c acc (d ∷ l))

-- Lines that hold no line end are read back as they were written.
pub splitlines-unlines : (ls : List Text) → all is_line ls ≡ true → splitlines (unlines ls) ≡ ls
splitlines-unlines [] h = refl
splitlines-unlines (l ∷ ls) h =
    splitlines_from-line [] l (unlines ls) (split_and _ _ h).0
    ∙ ap (λ (x : List Text). l ∷ x) (splitlines-unlines ls (split_and _ _ h).1)

last_of :
    (s : Text) → is_solid s ≡ true → (t : Text) × (c : ℕ) × (s ≡ t ++ c ∷ []) × (is_space c ≡ false)
last_of [] h = cc
last_of (c ∷ []) h = ([], c, refl, false_of_not (is_space c) h)
last_of (c ∷ d ∷ s) h =
    let r = last_of (d ∷ s) h in (c ∷ r.0, r.1, ap (λ (x : Text). c ∷ x) r.2, r.3)

lstrip_step : (c : ℕ) (s : Text) → is_space c ≡ false → lstrip (c ∷ s) ≡ c ∷ s
lstrip_step c s h = ap (λ (b : Bool). if b then lstrip s else c ∷ s) h

strip_back : (s : Text) → is_solid s ≡ true → reverse (lstrip (reverse s)) ≡ s
strip_back s h =
    let (t, c, e, solid) = last_of s h in
    let turned : reverse s ≡ c ∷ reverse t = ap reverse e ∙ reverse-append t (c ∷ []) in
    ap (λ (x : Text). reverse (lstrip x)) turned
    ∙ ap reverse (lstrip_step c (reverse t) solid ∙ sym turned)
    ∙ reverse-reverse s

-- A text that starts and ends with a character that is not blank is not stripped.
pub strip_solid :
    (c : ℕ) (s : Text) → is_space c ≡ false → is_solid (c ∷ s) ≡ true → strip (c ∷ s) ≡ c ∷ s
strip_solid c s h k =
    ap (λ (x : Text). reverse (lstrip (reverse x))) (lstrip_step c s h) ∙ strip_back (c ∷ s) k

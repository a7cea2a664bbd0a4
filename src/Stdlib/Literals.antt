-- ===== src/Stdlib/Literals.antt =====
-- What the embedded literals stand for.
use wax_mb.Base.{
  false_of_not, ℕ, ◌≡◌, refl, ap, sym, ◌∙◌, Text, codes, true, not, Option, none, some, List, [],
  ◌∷◌, ◌++◌, map, ◌==◌, list_eq, nat_eq, if◌then◌else◌, join, split_char, split_char-join,
  split_char-some, is_free, all, split_and, ◌>>=◌, drop, starts_with,
}
use wax_mb.Stdlib.{pop_empty, body_lines, literal_line, literal}

-- A line of a literal without its mark; `none` is another line.
abbrev pub unmarked : Text → Option Text
unmarked line = if starts_with line (codes "  #|") then some (drop 4 line) else none

abbrev pub unmarked_all : List Text → Option (List Text)
unmarked_all [] = some []
unmarked_all (l ∷ ls) = do t ← unmarked l; ts ← unmarked_all ls; some (t ∷ ts)

-- The value of a declaration: the lines behind its first two, without their marks, joined.
abbrev pub value_of_lines : List Text → Option Text
value_of_lines [] = none
value_of_lines (l ∷ []) = none
value_of_lines (l ∷ m ∷ ls) = do ts ← unmarked_all ls; some (join (codes "\n") ts)

pub literal_value : Text → Option Text
literal_value text = value_of_lines (split_char b'\n' text)

-- One newline at the end is dropped.
abbrev pub without_newline : Text → Text
without_newline [] = []
without_newline (c ∷ []) = if c == b'\n' then [] else c ∷ []
without_newline (c ∷ d ∷ s) = c ∷ without_newline (d ∷ s)

unmarked-marked : (ls : List Text) → unmarked_all (map literal_line ls) ≡ some ls
unmarked-marked [] = refl
unmarked-marked (l ∷ ls) = rw (unmarked-marked ls) refl

free-marked :
    (ls : List Text)
    → all (is_free b'\n') ls ≡ true
    → all (is_free b'\n') (map literal_line ls) ≡ true
free-marked [] h = refl
free-marked (l ∷ ls) h =
    let (h1, h2) = split_and (is_free b'\n' l) (all (is_free b'\n') ls) h in
    rw (h1, free-marked ls h2) refl

free-pop :
    (ls : List Text) → all (is_free b'\n') ls ≡ true → all (is_free b'\n') (pop_empty ls) ≡ true
free-pop [] h = refl
free-pop ([] ∷ []) h = refl
free-pop ((c ∷ s) ∷ []) h = h
free-pop (s ∷ t ∷ ls) h =
    let (h1, h2) = split_and (is_free b'\n' s) (all (is_free b'\n') (t ∷ ls)) h in
    rw (h1, free-pop (t ∷ ls) h2) refl

free-append :
    (s t : Text) → is_free b'\n' s ≡ true → is_free b'\n' t ≡ true → is_free b'\n' (s ++ t) ≡ true
free-append [] t h k = k
free-append (c ∷ s) t h k =
    let (h1, h2) = split_and (not (c == b'\n')) (is_free b'\n' s) h in
    rw (h1, free-append s t h2 k) refl

free-without : (s : Text) → is_free b'\n' s ≡ true → without_newline s ≡ s
free-without [] h = refl
free-without (c ∷ []) h =
    rw (false_of_not (c == b'\n') (split_and (not (c == b'\n')) true h).0) refl
free-without (c ∷ d ∷ s) h =
    ap (λ (x : Text). c ∷ x)
      (free-without (d ∷ s) (split_and (not (c == b'\n')) (is_free b'\n' (d ∷ s)) h).1)

without-last : (s : Text) → without_newline (s ++ b'\n' ∷ []) ≡ s
without-last [] = refl
without-last (c ∷ []) = refl
without-last (c ∷ d ∷ s) = ap (λ (x : Text). c ∷ x) (without-last (d ∷ s))

without-later :
    (s : Text) (c : ℕ) (t : Text)
    → without_newline (s ++ b'\n' ∷ c ∷ t) ≡ s ++ b'\n' ∷ without_newline (c ∷ t)
without-later [] c t = refl
without-later (d ∷ []) c t = refl
without-later (d ∷ e ∷ s) c t = ap (λ (x : Text). d ∷ x) (without-later (e ∷ s) c t)

join-pop :
    (p : Text) (ps : List Text)
    → all (is_free b'\n') (p ∷ ps) ≡ true
    → join (codes "\n") (pop_empty (p ∷ ps)) ≡ without_newline (join (codes "\n") (p ∷ ps))
join-pop [] [] h = refl
join-pop (c ∷ s) [] h = sym (free-without (c ∷ s) (split_and (is_free b'\n' (c ∷ s)) true h).0)
join-pop p ([] ∷ []) h = sym (without-last p)
join-pop p ((c ∷ s) ∷ []) h =
    let (h1, h2) = split_and (is_free b'\n' p) (all (is_free b'\n') ((c ∷ s) ∷ [])) h in
    ap (λ (x : Text). p ++ b'\n' ∷ x) (join-pop (c ∷ s) [] h2) ∙ sym (without-later p c s)
join-pop p ([] ∷ r ∷ rs) h =
    let (h1, h2) = split_and (is_free b'\n' p) (all (is_free b'\n') ([] ∷ r ∷ rs)) h in
    ap (λ (x : Text). p ++ b'\n' ∷ x) (join-pop [] (r ∷ rs) h2)
    ∙ sym (without-later p b'\n' (join (codes "\n") (r ∷ rs)))
join-pop p ((c ∷ s) ∷ r ∷ rs) h =
    let (h1, h2) = split_and (is_free b'\n' p) (all (is_free b'\n') ((c ∷ s) ∷ r ∷ rs)) h in
    ap (λ (x : Text). p ++ b'\n' ∷ x) (join-pop (c ∷ s) (r ∷ rs) h2)
    ∙ sym (without-later p c (s ++ b'\n' ∷ join (codes "\n") (r ∷ rs)))

literal-lines :
    (first second : Text) (ls : List Text)
    → is_free b'\n' first ≡ true
    → is_free b'\n' second ≡ true
    → all (is_free b'\n') ls ≡ true
    → literal_value (join (codes "\n") (first ∷ second ∷ map literal_line ls))
      ≡ some (join (codes "\n") ls)
unfolding literal_value
literal-lines first second ls h k free =
    ap value_of_lines (
      split_char-join b'\n' first (second ∷ map literal_line ls)
        (rw (h, k, free-marked ls free) refl))
    ∙ rw (unmarked-marked ls) refl

-- The declaration of a name without a newline has the text of the file for its value, without the
-- newline at its end if there is one.
pub literal-value :
    (name text : Text)
    → is_free b'\n' name ≡ true
    → literal_value (literal name text) ≡ some (without_newline text)
unfolding literal
literal-value name text h =
    let (p, ps, e, free, whole) = split_char-some b'\n' text in
    let lines : all (is_free b'\n') (body_lines text) ≡ true =
      ap (λ (ls : List Text). all (is_free b'\n') (pop_empty ls)) e ∙ free-pop (p ∷ ps) free in
    literal-lines (codes "///|") (codes "let " ++ name ++ codes " : String =") (body_lines text)
      refl (free-append name (codes " : String =") h refl) lines
    ∙ ap some (
        ap (λ (ls : List Text). join (codes "\n") (pop_empty ls)) e
        ∙ join-pop p ps free
        ∙ ap without_newline whole)

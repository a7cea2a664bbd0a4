-- ===== src/Wisp/Kept.antt =====
-- Which lines one round of the loop over the constants drops.
use wax_mb.Base.{
  onto_first, split_char, ℕ, ◌≡◌, ◌≢◌, refl, ap, ◌∙◌, Text, codes, true, false, not, ◌&&◌, List, [],
  ◌∷◌, ◌++◌, ◌==◌, eq_iff, eq_self, list_eq, nat_eq, starts_with, starts_with-split, drop, all,
  split_and, Bool-cases, inl, inr,
}
use wax_mb.Grammar.Parse.{is_word}
use wax_mb.Waxdiff.Fuzz.Tokens.{span, is_digit}
use wax_mb.Waxdiff.Fuzz.Tokens.Spans.{span-whole, split_of_span}
use wax_mb.Wisp.{const_tail, const_of, defines, drop_const}

-- A line that defines a constant, as a source writes it
abbrev pub definition_of : Text → Text → Text
definition_of name value = codes "const " ++ (name ++ (codes " = " ++ value))

-- The line defines the constant: the value is digits, at least one.
pub Defines : Text → Text → Type 0
Defines name line =
    (value : Text) × (line ≡ definition_of name value) × (value ≢ []) × (all is_digit value ≡ true)

-- Which lines are kept: all but those that define the constant, and the last one.
pub data IsKept (name : Text) : List Text → List Text → Type 0 where
  last : {line : Text} → IsKept name (line ∷ []) (line ∷ [])
  dropped :
      {line next : Text} {lines kept : List Text}
      → Defines name line
      → IsKept name (next ∷ lines) kept
      → IsKept name (line ∷ next ∷ lines) kept
  kept_line :
      {line next : Text} {lines kept : List Text}
      → ¬ Defines name line
      → IsKept name (next ∷ lines) kept
      → IsKept name (line ∷ next ∷ lines) (line ∷ kept)

-- A name that `\w+` matches
abbrev pub IsName : Text → Type 0
IsName name = (all is_word name ≡ true) × (name ≢ [])

tail_defines :
    (name w rest : Text)
    → defines name (const_tail (w, rest)) ≡ true
    → (value : Text) × (w ++ rest ≡ name ++ (codes " = " ++ value))
      × (value ≢ [])
      × (all is_digit value ≡ true)
unfolding const_tail
tail_defines name [] rest h = cc
tail_defines name (c ∷ w) rest h =
    let value = drop 3 rest in
    elim (Bool-cases
      (starts_with rest (codes " = ") && (not (value == []) && all is_digit value))) [
        | inr other ↦ absurd (false-ne-true (rw other at h))
        | inl found ↦
            let (opens, valued) =
              split_and (starts_with rest (codes " = ")) (not (value == []) && all is_digit value)
                found in
            let (some_digit, digits) = split_and (not (value == [])) (all is_digit value) valued in
            (
              value,
              ap (λ (x : Text). x ++ rest) ((eq_iff (c ∷ w) name).0 (rw found at h))
                  ∙ ap (λ (x : Text). name ++ x) (starts_with-split rest (codes " = ") opens),
              λ e. let k = rw e at some_digit in cc,
              digits,
            )
      ]
  where
    false-ne-true : false ≢ true
    false-ne-true e = cc

defines_line : (name line : Text) → defines name (const_of line) ≡ true → Defines name line
unfolding const_of Defines
defines_line name line h = elim (Bool-cases (starts_with line (codes "const "))) [
  | inr other ↦ absurd (false-ne-true (rw other at h))
  | inl opens ↦
      let (w, rest) = span is_word (drop 6 line) in
      let (value, e, some_digit, digits) = tail_defines name w rest (rw opens at h) in
      (
        value,
        starts_with-split line (codes "const ") opens
            ∙ ap (λ (x : Text). codes "const " ++ x)
                (split_of_span is_word (drop 6 line) w rest refl ∙ e),
        some_digit,
        digits,
      )
]
  where
    false-ne-true : false ≢ true
    false-ne-true e = cc

defines-tail :
    (name value : Text)
    → name ≢ []
    → value ≢ []
    → all is_digit value ≡ true
    → defines name (const_tail (name, codes " = " ++ value)) ≡ true
unfolding const_tail
defines-tail [] value n v digits = absurd (n refl)
defines-tail (c ∷ name) [] n v digits = absurd (v refl)
defines-tail (c ∷ name) (d ∷ value) n v digits = rw digits (eq_self (c ∷ name))

line_defines :
    (name line : Text) → IsName name → Defines name line → defines name (const_of line) ≡ true
unfolding const_of Defines
line_defines name line (w, n) (value, e, some_digit, digits) =
    rw (e, span-whole is_word name (codes " = " ++ value) w refl)
      (defines-tail name value n some_digit digits)

drop_const-IsKept :
    (name line : Text) (lines : List Text)
    → IsName name
    → IsKept name (line ∷ lines) (drop_const name (line ∷ lines))
unfolding drop_const
drop_const-IsKept name line [] n = last
drop_const-IsKept name line (next ∷ lines) n =
    let rest = drop_const-IsKept name next lines n in
    elim (Bool-cases (defines name (const_of line))) [
      | inl e ↦ rw e (dropped (defines_line name line e) rest)
      | inr e ↦ rw e (kept_line (λ d. let k = line_defines name line n d in cc) rest)
    ]

onto_first-ne-nil : (c : ℕ) (ps : List Text) → ps ≢ [] → onto_first c ps ≢ []
onto_first-ne-nil c [] n h = n refl
onto_first-ne-nil c (p ∷ ps) n h = cc

split_char-ne-nil : (sep : ℕ) (s : Text) → split_char sep s ≢ []
split_char-ne-nil sep [] h = cc
split_char-ne-nil sep (c ∷ s) h = elim (Bool-cases (c == sep)) [
  | inl e ↦ let k = rw e at h in cc
  | inr e ↦ onto_first-ne-nil c (split_char sep s) (split_char-ne-nil sep s) (rw e at h)
]

pub lines-IsKept :
    (name text : Text)
    → IsName name
    → IsKept name (split_char b'\n' text) (drop_const name (split_char b'\n' text))
lines-IsKept name text n = go (split_char b'\n' text) (split_char-ne-nil b'\n' text)
  where
    go : (lines : List Text) → lines ≢ [] → IsKept name lines (drop_const name lines)
    go [] h = absurd (h refl)
    go (line ∷ lines) h = drop_const-IsKept name line lines n

-- ===== src/Waxdiff/Fuzz/Tokens/Cut.antt =====
-- What `tokenize` keeps of a source.
use wax_mb.Base.{
  ℕ, zero, suc, ◌≤◌, ◌<◌, ◌≡◌, refl, sym, ap, ◌∙◌, arith, Text, Bool, true, false, not, ◌&&◌, ◌||◌,
  none, some, none-ne-some, List, [], ◌∷◌, ◌++◌, append_assoc, ◌==◌, list_eq, nat_eq, if◌then◌else◌,
  length, contains, is_space, Bool-cases, inl, inr, length-append,
}
use wax_mb.Waxdiff.Fuzz.Tokens.{
  Match, push, span, is_digit, is_letter, is_hex, line_comment, block_end, block_comment, quote_end,
  quoted, word, identifier, radix, fraction, with_fraction, number, operators3, operators2,
  operator3, operator2, visible, first_match, alternatives, match_token, tokenize_from, tokenize,
}

-- A token and what follows it make up the text, and the token is not empty.
abbrev Splits : Text → Match → Type 0
Splits s none = Unit
Splits s (some (t, rest)) = (t ++ rest ≡ s) × (0 < length t)

push-Splits : (c : ℕ) (s : Text) (m : Match) → Splits s m → Splits (c ∷ s) (push c m)
push-Splits c s none h = tt
push-Splits c s (some (t, rest)) h = (ap (λ (x : Text). c ∷ x) h.0, omega arith)

pub span-append : (p : ℕ → Bool) (s : Text) → (span p s).0 ++ (span p s).1 ≡ s
unfolding span
span-append p [] = refl
span-append p (c ∷ s) = elim (Bool-cases (p c)) [
  | inl takes ↦ rw takes (ap (λ (x : Text). c ∷ x) (span-append p s))
  | inr stops ↦ rw stops refl
]

-- A match that is made under a test
if-Splits : (b : Bool) (s : Text) (m : Match) → Splits s m → Splits s (if b then m else none)
if-Splits true s m h = h
if-Splits false s m h = tt

word-Splits : (first more : ℕ → Bool) (s : Text) → Splits s (word first more s)
word-Splits first more [] = tt
word-Splits first more (c ∷ s) =
    if-Splits (first c) (c ∷ s) (some (c ∷ (span more s).0, (span more s).1))
      (ap (λ (x : Text). c ∷ x) (span-append more s), omega arith)

line_comment-Splits : (s : Text) → Splits s (line_comment s)
unfolding line_comment
line_comment-Splits [] = tt
line_comment-Splits (c ∷ []) = tt
line_comment-Splits (c ∷ d ∷ s) =
    let p : ℕ → Bool = λ x. not (x == b'\n') in
    if-Splits (c == b'/' && d == b'/') (c ∷ d ∷ s) (some (c ∷ d ∷ (span p s).0, (span p s).1))
      (ap (λ (x : Text). c ∷ d ∷ x) (span-append p s), omega arith)

block_end-Splits : (s : Text) → Splits s (block_end s)
unfolding block_end
block_end-Splits [] = tt
block_end-Splits (c ∷ []) = tt
block_end-Splits (c ∷ d ∷ s) = elim (Bool-cases (c == b'*' && d == b'/')) [
  | inl ends ↦ rw ends (refl, omega arith)
  | inr goes ↦ rw goes (push-Splits c (d ∷ s) (block_end (d ∷ s)) (block_end-Splits (d ∷ s)))
]

block_comment-Splits : (s : Text) → Splits s (block_comment s)
unfolding block_comment
block_comment-Splits [] = tt
block_comment-Splits (c ∷ []) = tt
block_comment-Splits (c ∷ d ∷ s) =
    if-Splits (c == b'/' && d == b'*') (c ∷ d ∷ s) (push c (push d (block_end s))) (
      push-Splits c (d ∷ s) (push d (block_end s))
        (push-Splits d s (block_end s) (block_end-Splits s)))

quote_end-Splits : (q : ℕ) (s : Text) → Splits s (quote_end q s)
unfolding quote_end
quote_end-Splits q [] = tt
quote_end-Splits q (c ∷ []) = if-Splits (c == q) (c ∷ []) (some (c ∷ [], [])) (refl, omega arith)
quote_end-Splits q (c ∷ d ∷ s) =
    let one = push-Splits c (d ∷ s) (quote_end q (d ∷ s)) (quote_end-Splits q (d ∷ s)) in
    let two =
      push-Splits c (d ∷ s) (push d (quote_end q s))
        (push-Splits d s (quote_end q s) (quote_end-Splits q s)) in
    elim (Bool-cases (c == q)) [
      | inl ends ↦ rw ends (refl, omega arith)
      | inr goes ↦ elim (Bool-cases (c == b'\\')) [
        | inr other ↦ rw (goes, other) one
        | inl escape ↦ elim (Bool-cases (d == b'\n')) [
          | inl broken ↦ rw (goes, escape, broken) tt
          | inr whole ↦ rw (goes, escape, whole) two
        ]
      ]
    ]

quoted-Splits : (q : ℕ) (s : Text) → Splits s (quoted q s)
unfolding quoted
quoted-Splits q [] = tt
quoted-Splits q (c ∷ s) =
    if-Splits (c == q) (c ∷ s) (push c (quote_end q s))
      (push-Splits c s (quote_end q s) (quote_end-Splits q s))

identifier-Splits : (s : Text) → Splits s (identifier s)
unfolding identifier
identifier-Splits s = word-Splits is_letter (λ c. is_letter c || is_digit c || c == b'.') s

radix-Splits : (s : Text) → Splits s (radix s)
unfolding radix
radix-Splits [] = tt
radix-Splits (c ∷ []) = tt
radix-Splits (c ∷ d ∷ s) =
    if-Splits (c == b'0' && contains d (b'x' ∷ b'X' ∷ b'b' ∷ b'B' ∷ b'o' ∷ b'O' ∷ [])) (c ∷ d ∷ s)
      (push c (push d (word is_hex is_hex s)))
      (push-Splits c (d ∷ s) (push d (word is_hex is_hex s))
        (push-Splits d s (word is_hex is_hex s) (word-Splits is_hex is_hex s)))

fraction-append : (s : Text) → (fraction s).0 ++ (fraction s).1 ≡ s
fraction-append [] = refl
fraction-append (c ∷ s) = elim (Bool-cases (c == b'.')) [
  | inl point ↦ rw point (ap (λ (x : Text). c ∷ x) (span-append (λ x. is_digit x || x == b'_') s))
  | inr other ↦ rw other refl
]

with_fraction-Splits : (s : Text) (m : Match) → Splits s m → Splits s (with_fraction m)
with_fraction-Splits s none h = tt
with_fraction-Splits s (some (t, rest)) h = (
  append_assoc t (fraction rest).0 (fraction rest).1
      ∙ ap (λ (x : Text). t ++ x) (fraction-append rest)
      ∙ h.0,
  omega (arith, length-append t (fraction rest).0),
)

number-Splits : (s : Text) → Splits s (number s)
unfolding number
number-Splits s =
    with_fraction-Splits s (word is_digit (λ c. is_digit c || c == b'_') s)
      (word-Splits is_digit (λ c. is_digit c || c == b'_') s)

operator3-Splits : (ops : List Text) (s : Text) → Splits s (operator3 ops s)
unfolding operator3
operator3-Splits ops (c ∷ d ∷ e' ∷ s) =
    if-Splits (contains (c ∷ d ∷ e' ∷ []) ops) (c ∷ d ∷ e' ∷ s) (some (c ∷ d ∷ e' ∷ [], s))
      (refl, omega arith)
operator3-Splits ops _ = tt

operator2-Splits : (ops : List Text) (s : Text) → Splits s (operator2 ops s)
unfolding operator2
operator2-Splits ops (c ∷ d ∷ s) =
    if-Splits (contains (c ∷ d ∷ []) ops) (c ∷ d ∷ s) (some (c ∷ d ∷ [], s)) (refl, omega arith)
operator2-Splits ops _ = tt

visible-Splits : (s : Text) → Splits s (visible s)
unfolding visible
visible-Splits [] = tt
visible-Splits (c ∷ s) = elim (Bool-cases (is_space c)) [
  | inl blank ↦ rw blank tt
  | inr seen ↦ rw seen (refl, omega arith)
]

-- Each alternative of a list splits the text.
data AllSplit (s : Text) : List Match → Type 0 where
  no_more : AllSplit s []
  one_more : {m : Match} {ms : List Match} → Splits s m → AllSplit s ms → AllSplit s (m ∷ ms)

first_match-Splits : (s : Text) (ms : List Match) → AllSplit s ms → Splits s (first_match ms)
first_match-Splits s [] all = tt
first_match-Splits s (none ∷ ms) (one_more h rest) = first_match-Splits s ms rest
first_match-Splits s (some r ∷ ms) (one_more h rest) = h

alternatives-Splits : (s : Text) → AllSplit s (alternatives s)
alternatives-Splits s = one_more (line_comment-Splits s) (
    one_more (block_comment-Splits s) (
      one_more (quoted-Splits b'"' s) (
        one_more (quoted-Splits b'\'' s) (
          one_more (identifier-Splits s) (
            one_more (radix-Splits s) (
              one_more (number-Splits s) (
                one_more (operator3-Splits operators3 s) (
                  one_more (operator2-Splits operators2 s)
                    (one_more (visible-Splits s) no_more)))))))))

match_token-Splits : (s : Text) → Splits s (match_token s)
unfolding match_token
match_token-Splits s = first_match-Splits s (alternatives s) (alternatives-Splits s)

before_last : Text → List Match
before_last s =
    line_comment s
    ∷ block_comment s
    ∷ quoted b'"' s
    ∷ quoted b'\'' s
    ∷ identifier s
    ∷ radix s
    ∷ number s
    ∷ operator3 operators3 s
    ∷ operator2 operators2 s
    ∷ []

last_match : (ms : List Match) (m : Match) → first_match (ms ++ m ∷ []) ≡ none → m ≡ none
last_match [] none h = refl
last_match [] (some r) h = h
last_match (none ∷ ms) m h = last_match ms m h
last_match (some r ∷ ms) m h = absurd (none-ne-some (sym h))

-- Only a blank starts no token.
match_token-none : (c : ℕ) (s : Text) → match_token (c ∷ s) ≡ none → is_space c ≡ true
unfolding match_token visible before_last
match_token-none c s h = elim (Bool-cases (is_space c)) [
  | inl blank ↦ blank
  | inr seen ↦
      let last : visible (c ∷ s) ≡ none = last_match (before_last (c ∷ s)) (visible (c ∷ s)) h in
      absurd (none-ne-some (sym (rw seen at last)))
]

-- The tokens stand in the source in their order, with blanks alone in front, between and behind.
pub data IsCut : Text → List Text → Type 0 where
  done : IsCut [] []
  blank : {c : ℕ} {s : Text} {ts : List Text} → is_space c ≡ true → IsCut s ts → IsCut (c ∷ s) ts
  token :
      {s t rest : Text} {ts : List Text}
      → 0 < length t
      → t ++ rest ≡ s
      → IsCut rest ts
      → IsCut s (t ∷ ts)

tokenize_from-IsCut : (fuel : ℕ) (s : Text) → length s ≤ fuel → IsCut s (tokenize_from fuel s)
unfolding tokenize_from
tokenize_from-IsCut zero [] h = done
tokenize_from-IsCut zero (c ∷ s) h = absurd (omega arith)
tokenize_from-IsCut (suc fuel) [] h = done
tokenize_from-IsCut (suc fuel) (c ∷ s) h =
    next (match_token (c ∷ s)) refl (match_token-Splits (c ∷ s))
      (λ rest k. tokenize_from-IsCut fuel rest k)
  where
    next :
        (m : Match)
        → match_token (c ∷ s) ≡ m
        → Splits (c ∷ s) m
        → ((rest : Text) → length rest ≤ fuel → IsCut rest (tokenize_from fuel rest))
        → IsCut
            (c ∷ s)
            (elim m [ some (t, rest) ↦ t ∷ tokenize_from fuel rest | none ↦ tokenize_from fuel s ])
    next none e k ih = blank (match_token-none c s e) (ih s (omega arith))
    next (some (t, rest)) e k ih =
        token k.1 k.0 (ih rest (omega (arith, length-append t rest, ap length k.0)))

-- `tokenize` loses nothing but blanks between tokens, and no token is empty.
pub tokenize-IsCut : (src : Text) → IsCut src (tokenize src)
unfolding tokenize
tokenize-IsCut src = tokenize_from-IsCut (length src) src (omega arith)

-- ===== src/Wisp/Laws.antt =====
-- What inlining a constant does to the words of a source.
use mathlib.Core.List.{reverse, reverse-cons, append_assoc}
use wax_mb.Base.{
  ℕ, ◌≡◌, refl, arith, eq_iff, contains, join, split_char, ap, sym, ◌∙◌, Text, codes, true, false,
  ◌&&◌, List, [], ◌∷◌, ◌++◌, append-nil, map, ◌==◌, list_eq, nat_eq, if◌then◌else◌, all, split_and,
  Bool-cases, inl, inr,
}
use wax_mb.Grammar.Parse.{is_word}
use wax_mb.Wisp.Kept.{IsName, IsKept, lines-IsKept}
use wax_mb.Wisp.{close_word, replace_word, drop_const, inline_const}

-- The words between the characters that are not word characters, empty ones included
abbrev pub words_from : Text → Text → List Text
words_from word [] = reverse word ∷ []
words_from word (c ∷ s) =
    let inside = words_from (c ∷ word) s in
    let outside = words_from [] s in if is_word c then inside else reverse word ∷ outside

abbrev pub words_of : Text → List Text
words_of s = words_from [] s

-- The other characters, in their order
abbrev pub gaps_of : Text → Text
gaps_of [] = []
gaps_of (c ∷ s) = let rest = gaps_of s in if is_word c then rest else c ∷ rest

abbrev pub relabelled : Text → Text → Text → Text
relabelled name value word = if word == name then value else word

all-append :
    (a b : Text) → all is_word a ≡ true → all is_word b ≡ true → all is_word (a ++ b) ≡ true
all-append [] b h k = k
all-append (c ∷ a) b h k =
    let (here, later) = split_and (is_word c) (all is_word a) h in
    rw (here, all-append a b later k) refl

longer :
    (c : ℕ) (word : Text)
    → is_word c ≡ true
    → all is_word (reverse word) ≡ true
    → all is_word (reverse (c ∷ word)) ≡ true
longer c word h k = rw (reverse-cons c word) (all-append (reverse word) (c ∷ []) k (rw h refl))

reverse-cons_append : (c : ℕ) (acc v : Text) → reverse (c ∷ acc) ++ v ≡ reverse acc ++ c ∷ v
reverse-cons_append c acc v = rw (reverse-cons c acc) (append_assoc (reverse acc) (c ∷ []) v)

-- A word that is read on, up to a character that ends it or up to the end
words_from-append :
    (acc v : Text) (c : ℕ) (t : Text)
    → all is_word v ≡ true
    → is_word c ≡ false
    → words_from acc (v ++ c ∷ t) ≡ (reverse acc ++ v) ∷ words_of t
words_from-append acc [] c t h k =
    rw k (ap (λ (x : Text). x ∷ words_of t) (sym (append-nil (reverse acc))))
words_from-append acc (d ∷ v) c t h k =
    let (here, later) = split_and (is_word d) (all is_word v) h in
    rw here (
      words_from-append (d ∷ acc) v c t later k
      ∙ ap (λ (x : Text). x ∷ words_of t) (reverse-cons_append d acc v))

words_from-end : (acc v : Text) → all is_word v ≡ true → words_from acc v ≡ (reverse acc ++ v) ∷ []
words_from-end acc [] h = ap (λ (x : Text). x ∷ []) (sym (append-nil (reverse acc)))
words_from-end acc (d ∷ v) h =
    let (here, later) = split_and (is_word d) (all is_word v) h in
    rw here
      (words_from-end (d ∷ acc) v later ∙ ap (λ (x : Text). x ∷ []) (reverse-cons_append d acc v))

gaps-append : (v t : Text) → all is_word v ≡ true → gaps_of (v ++ t) ≡ gaps_of t
gaps-append [] t h = refl
gaps-append (d ∷ v) t h =
    let (here, later) = split_and (is_word d) (all is_word v) h in rw here (gaps-append v t later)

close_word-relabelled :
    (name value word : Text)
    → all is_word value ≡ true
    → all is_word (reverse word) ≡ true
    → all is_word (close_word name value word) ≡ true
close_word-relabelled name value word v w = elim (Bool-cases (reverse word == name)) [
  | inl e ↦ rw e v
  | inr e ↦ rw e w
]

-- Where the value is one word, and a word is read halfway: inlining replaces the words that are the
-- constant's name by its value, and keeps every other word and every other character.
replace_word-words :
    (name value word s : Text)
    → all is_word value ≡ true
    → all is_word (reverse word) ≡ true
    → (words_of (replace_word name value word s) ≡ map (relabelled name value) (words_from word s))
      × (gaps_of (replace_word name value word s) ≡ gaps_of s)
unfolding replace_word
replace_word-words name value word [] v w =
    let closed = close_word-relabelled name value word v w in
    (
      words_from-end [] (close_word name value word) closed,
      ap gaps_of (sym (append-nil (close_word name value word)))
          ∙ gaps-append (close_word name value word) [] closed,
    )
replace_word-words name value word (c ∷ s) v w = elim (Bool-cases (is_word c)) [
  | inl e ↦
      let (words, gaps) = replace_word-words name value (c ∷ word) s v (longer c word e w) in
      (rw e words, rw e gaps)
  | inr e ↦
      let closed = close_word-relabelled name value word v w in
      let rest = replace_word name value [] s in
      let (words, gaps) = replace_word-words name value [] s v refl in
      (
        rw e (
            words_from-append [] (close_word name value word) c rest closed e
            ∙ ap (λ (l : List Text). close_word name value word ∷ l) words),
        rw e (
            gaps-append (close_word name value word) (c ∷ rest) closed
            ∙ rw e (ap (λ (t : Text). c ∷ t) gaps)),
      )
]

contains-relabelled :
    (name value : Text) (words : List Text)
    → contains name (map (relabelled name value) words) ≡ (contains name words && name == value)
contains-relabelled name value [] = refl
contains-relabelled name value (x ∷ words) = elim (Bool-cases (x == name)) [
  | inl e ↦
      rw e (ground (arith, eq_iff name x, eq_iff x name, contains-relabelled name value words))
  | inr e ↦
      rw e (ground (arith, eq_iff name x, eq_iff x name, contains-relabelled name value words))
]

-- Where the constant has a name and its value is made of word characters, one round of the loop over
-- the constants drops exactly the lines `const NAME = DIGITS` other than the last line of the text
-- and, in the lines that are kept, replaces each word that is the name by the value and keeps every
-- other word and every character between the words, in order; the name is then a word of the text
-- only if it was one and is its own value.
pub inline_const-words :
    (name value text : Text)
    → IsName name
    → all is_word value ≡ true
    → (lines : List Text) × IsKept name (split_char b'\n' text) lines
      × (let kept = join (codes "\n") lines in
          let inlined = inline_const (name, value) text in
          (words_of inlined ≡ map (relabelled name value) (words_of kept))
          × (gaps_of inlined ≡ gaps_of kept)
          × (contains name (words_of inlined) ≡ (contains name (words_of kept) && name == value)))
unfolding inline_const
inline_const-words name value text n v =
    let lines = drop_const name (split_char b'\n' text) in
    let kept = join (codes "\n") lines in
    let (words, gaps) = replace_word-words name value [] kept v refl in
    (
      lines,
      lines-IsKept name text n,
      (words, gaps, ap (contains name) words ∙ contains-relabelled name value (words_of kept)),
    )

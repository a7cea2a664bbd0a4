-- ===== src/Messages/Key/Words.antt =====
-- How many words `key.split()` has, which `max_depth` is taken from.
use wax_mb.Base.{
  ℕ, zero, suc, ◌+◌, ◌/◌, ◌%◌, ◌≤◌, ◌≡◌, ap, sym, refl, ◌∙◌, arith, Text, true, false, List, [],
  ◌∷◌, ◌++◌, length, append_assoc, append-nil, split, split_from, push_word, Bool, is_space,
  Bool-cases, inl, inr, ltb,
}
use wax_mb.Messages.Key.{digits, str, last_frames, join_frames, key_of}
use wax_mb.Messages.Key.Injective.{length-last_frames}

length-split_from_word :
    (x : ℕ) (w s : Text)
    → is_space x ≡ false
    → length (split_from w (x ∷ s)) ≡ length (split_from (x ∷ w) s)
length-split_from_word x w s h =
    ap
      (λ (b : Bool).
        length (elim b [ true ↦ push_word w (split_from [] s) | false ↦ split_from (x ∷ w) s ]))
      h

length-split_from_blank :
    (x c : ℕ) (w s : Text)
    → is_space x ≡ true
    → length (split_from (c ∷ w) (x ∷ s)) ≡ suc (length (split_from [] s))
length-split_from_blank x c w s h =
    ap
      (λ (b : Bool).
        length (elim b [
          | true ↦ push_word (c ∷ w) (split_from [] s)
          | false ↦ split_from (x ∷ c ∷ w) s
        ]))
      h

-- The number of words does not depend on what was read of the first.
length-split_from :
    (c c' : ℕ) (w w' s : Text) → length (split_from (c ∷ w) s) ≡ length (split_from (c' ∷ w') s)
length-split_from c c' w w' [] = refl
length-split_from c c' w w' (x ∷ s) = elim (Bool-cases (is_space x)) [
  | inl blank ↦
      length-split_from_blank x c w s blank ∙ sym (length-split_from_blank x c' w' s blank)
  | inr other ↦
      length-split_from_word x (c ∷ w) s other
      ∙ length-split_from x x (c ∷ w) (c' ∷ w') s
      ∙ sym (length-split_from_word x (c' ∷ w') s other)
]

digit_not_blank : (n : ℕ) → is_space (48 + n) ≡ false
digit_not_blank n = ground arith

length-split_from_digit :
    (n : ℕ) (w rest : Text)
    → length (split_from w ((48 + n) ∷ rest)) ≡ length (split_from (48 ∷ []) rest)
length-split_from_digit n w rest =
    length-split_from_word (48 + n) w rest (digit_not_blank n)
    ∙ length-split_from (48 + n) 48 w [] rest

split_from-digits :
    (fuel n : ℕ) (w rest : Text)
    → length (split_from w (digits fuel n ++ rest)) ≡ length (split_from (48 ∷ []) rest)
unfolding digits
split_from-digits zero n w rest = length-split_from_digit n w rest
split_from-digits (suc fuel) n w rest = elim (Bool-cases (ltb n 10)) [
  | inl small ↦ rw small (length-split_from_digit n w rest)
  | inr large ↦
      rw (large, append_assoc)
        (split_from-digits fuel (n / 10) w _ ∙ length-split_from_digit (n % 10) (48 ∷ []) rest)
]

split-join_frames : (frames : List ℕ) → length (split (join_frames frames)) ≡ length frames
unfolding join_frames str
split-join_frames [] = refl
split-join_frames (f ∷ []) =
    ap (λ (t : Text). length (split t)) (sym (append-nil (digits f f)))
    ∙ split_from-digits f f [] []
split-join_frames (f ∷ g ∷ frames) =
    split_from-digits f f [] _ ∙ ap suc (split-join_frames (g ∷ frames))

pub split-key_of :
    (s : List ℕ) (depth : ℕ) → depth ≤ length s → length (split (key_of s depth)) ≡ depth
unfolding key_of
split-key_of s depth h =
    split-join_frames (last_frames depth s) ∙ omega (arith, length-last_frames depth s)

-- ===== src/Messages/Key/Injective.antt =====
-- A key determines the frames that it was written from.
use wax_mb.Base.{
  ℕ, zero, suc, ◌+◌, ◌-◌, ◌*◌, ◌/◌, ◌%◌, ◌≤◌, ◌<◌, ◌≡◌, ap, sym, ◌∙◌, arith, Text, true, false,
  List, [], ◌∷◌, ◌++◌, append_assoc, append-nil, length, length-drop, min, ltb, nat_beq, Bool-cases,
  inl, inr,
}
use wax_mb.Messages.Key.{digits, str, last_frames, join_frames, key_of}

-- Reading a key back: `acc` is the number that is being read.
frames_from : ℕ → Text → List ℕ
frames_from acc [] = acc ∷ []
frames_from acc (c ∷ s) = elim (nat_beq c 32) [
  | true ↦ acc ∷ frames_from 0 s
  | false ↦ frames_from (acc * 10 + (c - 48)) s
]

frames_from-digit :
    (acc d : ℕ) (rest : Text)
    → d < 10
    → frames_from acc ((48 + d) ∷ rest) ≡ frames_from (acc * 10 + d) rest
unfolding frames_from
frames_from-digit acc d rest h =
    let no_space : nat_beq (48 + d) 32 ≡ false = ground arith in
    rw (no_space, frames_from) (ap (λ (k : ℕ). frames_from k rest) (omega arith))

frames_from-digits :
    (fuel n : ℕ) (rest : Text)
    → n ≤ fuel
    → frames_from 0 (digits fuel n ++ rest) ≡ frames_from n rest
unfolding digits
frames_from-digits zero n rest h =
    frames_from-digit 0 n rest (omega arith) ∙ ap (λ (k : ℕ). frames_from k rest) (omega arith)
frames_from-digits (suc fuel) n rest h = elim (Bool-cases (ltb n 10)) [
  | inl small ↦
      rw small (
        frames_from-digit 0 n rest (ground arith)
        ∙ ap (λ (k : ℕ). frames_from k rest) (omega arith))
  | inr large ↦
      rw (large, append_assoc)
        (frames_from-digits fuel (n / 10) _ (ground arith)
          ∙ frames_from-digit (n / 10) (n % 10) rest (omega arith)
          ∙ ap (λ (k : ℕ). frames_from k rest) (omega arith))
]

frames_from-join : (f : ℕ) (frames : List ℕ) → frames_from 0 (join_frames (f ∷ frames)) ≡ f ∷ frames
unfolding frames_from join_frames str
frames_from-join f [] =
    ap (frames_from 0) (sym (append-nil (digits f f))) ∙ frames_from-digits f f [] (omega arith)
frames_from-join f (g ∷ frames) =
    frames_from-digits f f _ (omega arith) ∙ ap (λ (l : List ℕ). f ∷ l) (frames_from-join g frames)

join_frames-injective :
    (fs gs : List ℕ) → 0 < length fs → 0 < length gs → join_frames fs ≡ join_frames gs → fs ≡ gs
join_frames-injective [] gs p q h = absurd (omega arith)
join_frames-injective (f ∷ fs) [] p q h = absurd (omega arith)
join_frames-injective (f ∷ fs) (g ∷ gs) p q h =
    sym (frames_from-join f fs) ∙ ap (frames_from 0) h ∙ frames_from-join g gs

pub length-last_frames :
    (depth : ℕ) (stack : List ℕ) → length (last_frames depth stack) ≡ min depth (length stack)
unfolding last_frames
length-last_frames depth stack = omega (arith, length-drop (length stack - depth) stack)

-- Two keys are the same text only if the same frames were written down: for stacks with a frame at
-- least and depths of one at least, equal keys mean equal last frames.
pub key_of-injective :
    (s t : List ℕ) (d e : ℕ)
    → 0 < d
    → 0 < e
    → 0 < length s
    → 0 < length t
    → key_of s d ≡ key_of t e
    → last_frames d s ≡ last_frames e t
unfolding key_of
key_of-injective s t d e hd he hs ht h =
    join_frames-injective (last_frames d s) (last_frames e t)
      (omega (arith, length-last_frames d s)) (omega (arith, length-last_frames e t)) h

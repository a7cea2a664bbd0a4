-- ===== src/Messages/Key/Frames.antt =====
-- How the keys of two stacks compare at different depths, and when a key holds a whole stack.
use Prim.Native.Nat.add
use wax_mb.Base.{
  ℕ, zero, suc, ◌+◌, ◌-◌, ◌≤◌, ◌<◌, ◌≡◌, ap, sym, refl, ◌∙◌, arith, List, [], ◌∷◌, length,
  length-drop, drop,
}
use wax_mb.Messages.Key.{last_frames, join_frames, key_of}
use wax_mb.Messages.Key.Injective.{key_of-injective, length-last_frames}

drop-drop : (m n : ℕ) (xs : List ℕ) → drop m (drop n xs) ≡ drop (n + m) xs
drop-drop m zero xs = rw (add.zero m) refl
drop-drop zero (suc n) [] = rw (add.suc n zero) refl
drop-drop (suc m) (suc n) [] = rw (add.suc n (suc m)) refl
drop-drop m (suc n) (x ∷ xs) = rw (add.suc n m) (drop-drop m n xs)

last_frames-shallower :
    (c d : ℕ) (s : List ℕ)
    → c ≤ d
    → d ≤ length s
    → last_frames c (last_frames d s) ≡ last_frames c s
unfolding last_frames
last_frames-shallower c d s h k =
    drop-drop (length (drop (length s - d) s) - c) (length s - d) s
    ∙ ap (λ (i : ℕ). drop i s) (omega (arith, length-drop (length s - d) s))

-- Keys of two depths differ, where the stacks are deep enough.
pub key_of-depths :
    (s t : List ℕ) (d e : ℕ)
    → 0 < d
    → 0 < e
    → d ≤ length s
    → e ≤ length t
    → key_of s d ≡ key_of t e
    → d ≡ e
key_of-depths s t d e hd he hs ht h =
    let same : length (last_frames d s) ≡ length (last_frames e t) =
      ap length (key_of-injective s t d e hd he (omega arith) (omega arith) h) in
    omega (arith, length-last_frames d s, length-last_frames e t)

-- Stacks that share a key share the keys of fewer frames.
pub key_of-shallower :
    (s t : List ℕ) (c d : ℕ)
    → 0 < c
    → c ≤ d
    → d ≤ length s
    → d ≤ length t
    → key_of s d ≡ key_of t d
    → key_of s c ≡ key_of t c
unfolding key_of
key_of-shallower s t c d hc hcd hs ht h =
    let same : last_frames d s ≡ last_frames d t =
      key_of-injective s t d d (omega arith) (omega arith) (omega arith) (omega arith) h in
    ap join_frames (
      sym (last_frames-shallower c d s hcd hs)
      ∙ ap (last_frames c) same
      ∙ last_frames-shallower c d t hcd ht)

-- As many last frames as a stack has are the stack.
pub whole : (s : List ℕ) → last_frames (length s) s ≡ s
unfolding last_frames
whole s =
    let none_dropped : length s - length s ≡ 0 = omega arith in
    ap (λ (i : ℕ). drop i s) none_dropped

-- Of two stacks that are no deeper than their common key, each is the other.
pub key_of-whole :
    (s t : List ℕ) (depth : ℕ)
    → 0 < depth
    → length s ≡ depth
    → length t ≡ depth
    → key_of s depth ≡ key_of t depth
    → s ≡ t
key_of-whole s t depth pos hs ht h =
    sym (whole s)
    ∙ ap (λ (i : ℕ). last_frames i s) hs
    ∙ key_of-injective s t depth depth pos pos (omega arith) (omega arith) h
    ∙ ap (λ (i : ℕ). last_frames i t) (sym ht)
    ∙ whole t

-- A stack that has the key of `d` frames of another has the keys of fewer frames of it.
pub key_of-shallower_any :
    (s t : List ℕ) (c d : ℕ)
    → 0 < c
    → c ≤ d
    → 0 < length s
    → d ≤ length t
    → key_of s d ≡ key_of t d
    → key_of s c ≡ key_of t c
key_of-shallower_any s t c d pos h hs ht same =
    let frames : length (last_frames d s) ≡ length (last_frames d t) =
      ap length (key_of-injective s t d d (omega arith) (omega arith) hs (omega arith) same) in
    key_of-shallower s t c d pos h
      (omega (arith, length-last_frames d s, length-last_frames d t, frames)) ht same

-- ===== src/Messages/Key.antt =====
-- `key_of`: the last frames of a stack as the text that the generated table is keyed by.
pub mod Injective
pub mod Frames
pub mod Words
use wax_mb.Base.{
  ℕ, zero, suc, ◌+◌, ◌-◌, ◌/◌, ◌%◌, Text, codes, Bool, true, false, List, [], ◌∷◌, ◌++◌, map,
  length, drop, join, ltb, if◌then◌else◌,
}

-- `str(n)`. The fuel is a bound on the number of digits after the first.
unfoldable pub digits : ℕ → ℕ → Text
digits zero n = (48 + n) ∷ []
digits (suc fuel) n =
    let rest = digits fuel (n / 10) in
    if ltb n 10 then (48 + n) ∷ [] else rest ++ (48 + n % 10) ∷ []

unfoldable pub str : ℕ → Text
unfolding digits
str n = digits n n

-- `stack[-depth:]`, for depth at least 1
unfoldable pub last_frames : ℕ → List ℕ → List ℕ
last_frames depth stack = drop (length stack - depth) stack

unfoldable pub join_frames : List ℕ → Text
unfolding str
join_frames frames = join (codes " ") (map str frames)

unfoldable pub key_of : List ℕ → ℕ → Text
unfolding join_frames last_frames
key_of stack depth = join_frames (last_frames depth stack)

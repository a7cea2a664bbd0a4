-- ===== src/Base/Strings.antt =====
-- Texts as lists of code points, with the methods of Python's `str` that the tools call.
use Prim.Native.Char.{code}
use Prim.Native.Nat.{ℕ, ◌+◌, ◌-◌}
use mathlib.Core.Option.{Option, none, some}
use Prim.Native.String.{String}
use mathlib.Core.Bool.{Bool, true, false, ◌&&◌, ◌||◌}
use mathlib.Core.List.{List, [], ◌∷◌, ◌++◌, reverse}
use wax_mb.Base.Tests.{if◌then◌else◌, ◌==◌, nat_eq, leb}
use wax_mb.Base.Lists.{any, take, length}

abbrev pub Text : Type 0
Text = List ℕ

abbrev pub codes : String → Text
codes String.[] = []
codes (String.◌∷◌ c s) = code c ∷ codes s

-- `s.startswith(p)`
abbrev pub starts_with : Text → Text → Bool
starts_with s [] = true
starts_with [] (x ∷ p) = false
starts_with (c ∷ s) (x ∷ p) = c == x && starts_with s p

-- `sep.join(parts)`
abbrev pub join : Text → List Text → Text
join sep [] = []
join sep (p ∷ []) = p
join sep (p ∷ q ∷ r) = p ++ (sep ++ join sep (q ∷ r))

-- A character that `str.split` and `str.strip` take for white space, in the ASCII range.
abbrev pub is_space : ℕ → Bool
is_space c = c == 32 || (leb 9 c && leb c 13) || (leb 28 c && leb c 31)

-- `s.lstrip()`
abbrev pub lstrip : Text → Text
lstrip [] = []
lstrip (c ∷ s) = let rest = lstrip s in if is_space c then rest else c ∷ s

-- `s.strip()`
abbrev pub strip : Text → Text
strip s = reverse (lstrip (reverse (lstrip s)))

-- `s.split()`: `word` is the word that is being read, reversed.
abbrev pub push_word : Text → List Text → List Text
push_word [] ws = ws
push_word (c ∷ w) ws = reverse (c ∷ w) ∷ ws

abbrev pub split_from : Text → Text → List Text
split_from word [] = push_word word []
split_from word (c ∷ s) = elim (is_space c) [
  | true ↦ push_word word (split_from [] s)
  | false ↦ split_from (c ∷ word) s
]

abbrev pub split : Text → List Text
split s = split_from [] s

-- `c in s`, for a character
abbrev pub has_char : ℕ → Text → Bool
has_char c s = any (λ x. x == c) s

-- `s.endswith(x)` and `s.removesuffix(x)`
abbrev pub ends_with : Text → Text → Bool
ends_with s x = starts_with (reverse s) (reverse x)

abbrev pub remove_suffix : Text → Text → Text
remove_suffix s x = if ends_with s x then take (length s - length x) s else s

-- `s.rfind(x)`, where -1 is `none`: `i` is the offset of `s` in the whole text.
abbrev pub rfind_from : ℕ → Text → Text → Option ℕ
rfind_from i [] x = if starts_with [] x then some i else none
rfind_from i (c ∷ s) x = elim (rfind_from (i + 1) s x) [
  | some j ↦ some j
  | none ↦ if starts_with (c ∷ s) x then some i else none
]

abbrev pub rfind : Text → Text → Option ℕ
rfind s x = rfind_from 0 s x

-- The characters that end a line for `str.splitlines`.
abbrev pub is_line_end : ℕ → Bool
is_line_end c =
    (leb 10 c && leb c 13) || (leb 28 c && leb c 30) || c == 0x85 || c == 0x2028 || c == 0x2029

-- `s.splitlines()`: `line` is the line that is being read, reversed; `\r\n` is one end.
abbrev pub close_line : Text → List Text → List Text
close_line [] ls = ls
close_line (c ∷ line) ls = reverse (c ∷ line) ∷ ls

abbrev pub splitlines_from : Text → Text → List Text
splitlines_from line [] = close_line line []
splitlines_from line (c ∷ []) = if is_line_end c then reverse line ∷ [] else reverse (c ∷ line) ∷ []
splitlines_from line (c ∷ d ∷ s) = elim (is_line_end c) [
  | true ↦ elim (c == 13 && d == 10) [
    | true ↦ reverse line ∷ splitlines_from [] s
    | false ↦ reverse line ∷ splitlines_from [] (d ∷ s)
  ]
  | false ↦ splitlines_from (c ∷ line) (d ∷ s)
]

abbrev pub splitlines : Text → List Text
splitlines s = splitlines_from [] s

-- `x in s`, for two texts
abbrev pub has_substring : Text → Text → Bool
has_substring [] x = starts_with [] x
has_substring (c ∷ s) x = starts_with (c ∷ s) x || has_substring s x

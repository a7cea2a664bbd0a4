-- ===== src/Waxdiff/Collect/Docs.antt =====
-- The code blocks of the documentation that `collect_docs` takes.
pub mod Written
use wax_mb.Base.{
  ℕ, zero, suc, ◌+◌, ◌-◌, ◌≡◌, refl, Text, codes, Bool, true, false, not, ◌&&◌, ◌||◌, Option, none,
  some, List, [], ◌∷◌, ◌++◌, map, ◌==◌, list_eq, nat_eq, if◌then◌else◌, length, all, has_substring,
  starts_with, is_space, drop, leb, contains,
}
use mathlib.Core.List.{reverse}
use wax_mb.Base.{lstrip}
use wax_mb.Messages.Key.{str, digits}
use wax_mb.Waxdiff.Fuzz.Tokens.{span}

-- A page: its stem, its path from the checkout, and its lines
pub record Page : Type 0 where
  pub stem : Text
  pub path : Text
  pub lines : List Text

-- `^```(wax(?:,[a-z]+)?)\s*$`: the group
abbrev pub is_small : ℕ → Bool
is_small c = leb b'a' c && leb c b'z'

abbrev pub info : Text → Text
info [] = []
info (c ∷ s) =
    let (word, rest) = span is_small s in if c == b',' && not (word == []) then c ∷ word else []

unfoldable pub fence : Text → Option Text
unfolding span
fence line =
    let rest = drop 6 line in
    let extra = info rest in
    if starts_with line (codes "```wax") && all is_space (drop (length extra) rest)
    then some (codes "wax" ++ extra)
    else none

-- `lines[i].rstrip() != "```"`, negated
abbrev pub ends_block : Text → Bool
ends_block line = reverse (lstrip (reverse line)) == codes "```"

-- `if not body: continue`; the lines of the body are reversed while it is read.
abbrev pub close_block : Bool → List Text → List (Bool × List Text) → List (Bool × List Text)
close_block checked [] blocks = blocks
close_block checked (l ∷ body) blocks = (checked, reverse (l ∷ body)) ∷ blocks

abbrev pub is_checked : Text → Bool
is_checked group = has_substring group (codes "check")

-- The two loops: between the blocks, and in one.
unfoldable mutual
  unfolding fence

  pub between : List Text → List (Bool × List Text)
  between [] = []
  between (line ∷ lines) = elim (fence line) [
    | none ↦ between lines
    | some group ↦ inside (is_checked group) [] lines
  ]

  pub inside : Bool → List Text → List Text → List (Bool × List Text)
  inside checked body [] = close_block checked body []
  inside checked body (line ∷ lines) = elim (ends_block line) [
    | true ↦ close_block checked body (between lines)
    | false ↦ inside checked (line ∷ body) lines
  ]

abbrev pub blocks_of : List Text → List (Bool × List Text)
blocks_of lines = between lines

-- `{block:03d}`
abbrev pub zeros : ℕ → Text
zeros zero = []
zeros (suc n) = b'0' ∷ zeros n

pub pad3 : ℕ → Text
pad3 n = zeros (3 - length (str n)) ++ str n

unfoldable pub block_name : Text → ℕ → Bool → Text
unfolding pad3
block_name stem block checked =
    codes "docs/"
    ++ stem
    ++ codes "__"
    ++ pad3 block
    ++ (if checked then codes "_checked" else [])
    ++ codes ".wax"

two_blocks :
    blocks_of (
      map codes (
        "x" ∷ "```wax,check " ∷ "fn f" ∷ "" ∷ "``` " ∷ "```wax" ∷ "```" ∷ "```waxy" ∷ "```wax" ∷ "g"
        ∷ []))
    ≡ (true, codes "fn f" ∷ [] ∷ []) ∷ (false, codes "g" ∷ []) ∷ []
unfolding between fence
two_blocks = refl

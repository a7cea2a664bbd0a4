-- ===== src/Grammar/Strip.antt =====
-- `strip_ocaml_comments`, the removal of `//` comments, and `strip_actions`.
pub mod Written
use wax_mb.Base.{
  ℕ, zero, suc, ◌+◌, ◌≡◌, refl, Text, codes, Bool, true, false, not, ◌&&◌, List, [], ◌∷◌, ◌++◌,
  ◌==◌, nat_eq, if◌then◌else◌,
}

-- The character is written outside comments and blocks only.
abbrev pub keep : ℕ → ℕ → Text → Text
keep zero c rest = c ∷ rest
keep (suc depth) c rest = rest

-- `out.append(ACTION_MARK)` where a block is opened outside of the others
abbrev pub action_mark : Text
action_mark = codes " @ACT@ "

abbrev pub mark : ℕ → Text → Text
mark zero rest = action_mark ++ rest
mark (suc depth) rest = rest

-- `text.startswith("(*", i)`
abbrev pub opens : ℕ → ℕ → Bool
opens c d = c == b'(' && d == b'*'

abbrev pub closes : ℕ → ℕ → Bool
closes c d = c == b'*' && d == b')'

-- The loop from `i` on, at `depth`
unfoldable pub strip_comments_from : ℕ → Text → Text
strip_comments_from depth [] = []
strip_comments_from depth (c ∷ []) = keep depth c []
strip_comments_from zero (c ∷ d ∷ s) = elim (opens c d) [
  | true ↦ strip_comments_from 1 s
  | false ↦ c ∷ strip_comments_from zero (d ∷ s)
]
strip_comments_from (suc depth) (c ∷ d ∷ s) = elim (opens c d) [
  | true ↦ strip_comments_from (suc (suc depth)) s
  | false ↦ elim (closes c d) [
    | true ↦ strip_comments_from depth s
    | false ↦ strip_comments_from (suc depth) (d ∷ s)
  ]
]

unfoldable pub strip_ocaml_comments : Text → Text
unfolding strip_comments_from
strip_ocaml_comments text = strip_comments_from 0 text

-- `re.sub(r"//[^\n]*", "", text)`: `inside` is true behind `//` in a line.
unfoldable pub strip_slashes_from : Bool → Text → Text
strip_slashes_from inside [] = []
strip_slashes_from inside (c ∷ []) = if inside && not (c == b'\n') then [] else c ∷ []
strip_slashes_from true (c ∷ d ∷ s) = elim (c == b'\n') [
  | true ↦ c ∷ strip_slashes_from false (d ∷ s)
  | false ↦ strip_slashes_from true (d ∷ s)
]
strip_slashes_from false (c ∷ d ∷ s) = elim (c == b'/' && d == b'/') [
  | true ↦ strip_slashes_from true s
  | false ↦ c ∷ strip_slashes_from false (d ∷ s)
]

unfoldable pub strip_slashes : Text → Text
unfolding strip_slashes_from
strip_slashes text = strip_slashes_from false text

abbrev pub pred : ℕ → ℕ
pred zero = zero
pred (suc n) = n

unfoldable pub strip_actions_from : ℕ → Text → Text
strip_actions_from depth [] = []
strip_actions_from depth (c ∷ s) = elim (c == b'{') [
  | true ↦ mark depth (strip_actions_from (suc depth) s)
  | false ↦ elim (c == b'}') [
    | true ↦ strip_actions_from (pred depth) s
    | false ↦ keep depth c (strip_actions_from depth s)
  ]
]

unfoldable pub strip_actions : Text → Text
unfolding strip_actions_from
strip_actions text = strip_actions_from 0 text

nested_comments : strip_ocaml_comments (codes "a (* b (* c *) { *) d *) (e") ≡ codes "a  d *) (e"
unfolding strip_ocaml_comments
nested_comments = refl

nested_actions : strip_actions (codes "| { let { } } x } { [] }") ≡ codes "|  @ACT@  x   @ACT@ "
unfolding strip_actions
nested_actions = refl

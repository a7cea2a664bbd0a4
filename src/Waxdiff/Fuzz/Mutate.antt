-- ===== src/Waxdiff/Fuzz/Mutate.antt =====
-- `mutate` and `render_tokens`. The random generator is a parameter.
pub mod Laws
use wax_mb.Base.{
  ℕ, zero, suc, ◌+◌, ◌-◌, min, Text, codes, Bool, ◌||◌, List, [], ◌∷◌, ◌++◌, list_eq, nat_eq,
  if◌then◌else◌, length, take, drop, get_or, set, contains, starts_with, strip, ltb,
}

pub data Edit : Type 0 where
  swap delete duplicate borrow : Edit

-- `rng.randrange(n)` and `rng.choice` of the four edits
pub record Rng (R : Type 0) : Type 0 where
  pub randrange : ℕ → R → ℕ × R
  pub choice : R → Edit × R

-- `out[i], out[j] = out[j], out[i]`
pub swap_at : List Text → ℕ → ℕ → List Text
swap_at out i j = set (set out i (get_or out j [])) j (get_or out i [])

-- `del out[i]` and `out.insert(i, x)`
pub delete_at : List Text → ℕ → List Text
delete_at out i = take i out ++ drop (i + 1) out

pub insert_at : List Text → ℕ → Text → List Text
insert_at out i x = take i out ++ x ∷ drop i out

module _ {R : Type 0} (g : Rng R) where
  edit : Edit → List Text → ℕ → R → List Text × R
  unfolding swap_at delete_at insert_at
  edit swap out i r = (swap_at out i (min (i + 1) (length out - 1)), r)
  edit delete out i r = (delete_at out i, r)
  edit duplicate out i r = (insert_at out i (get_or out i []), r)
  edit borrow out i r =
      let (j, r') = g.randrange (length out) r in (set out i (get_or out j []), r')

  unfoldable pub mutate : List Text → R → List Text × R
  unfolding edit
  mutate tokens r =
      let (i, r') = g.randrange (length tokens) r in
      let (kind, r'') = g.choice r' in
      if ltb (length tokens) 2 then (tokens, r) else edit kind tokens i r''

  -- `for _ in range(n): tokens = mutate(tokens, rng)`
  pub mutate_times : ℕ → List Text → R → List Text × R
  mutate_times zero tokens r = (tokens, r)
  mutate_times (suc n) tokens r = let (tokens', r') = mutate tokens r in mutate_times n tokens' r'

-- `t in (";", "{", "}") or t.startswith("//")`
pub ends_line : Text → Bool
ends_line t = contains t (codes ";" ∷ codes "{" ∷ codes "}" ∷ []) || starts_with t (codes "//")

pub render_from : List Text → Text
unfolding ends_line
render_from [] = []
render_from (t ∷ ts) = t ++ (if ends_line t then codes "\n" else codes " ") ++ render_from ts

unfoldable pub render_tokens : List Text → Text
unfolding render_from
render_tokens tokens = strip (render_from tokens) ++ codes "\n"

-- ===== src/Grammar/Compare/Sizes.antt =====
-- What the comparison does not see.
use wax_mb.Base.{
  ℕ, zero, suc, ◌≡◌, refl, ap, sym, ◌∙◌, Text, List, [], ◌∷◌, map, list_eq, nat_eq, length,
}
use wax_mb.Grammar.Parse.{Production}
use wax_mb.Grammar.Compare.{
  Rules, renamed, mapped, names, missing, extra, count_of, count_diffs, compare_rules,
}

-- The name and the number of productions of each rule
abbrev pub sizes : Rules → List (Text × ℕ)
sizes rules = map (λ (r : Text × List Production). (r.0, length r.1)) rules

-- As many productions, all of them empty
abbrev blank : ℕ → List Production
blank zero = []
blank (suc n) = [] ∷ blank n

abbrev hollow : List (Text × ℕ) → Rules
hollow [] = []
hollow ((k, n) ∷ rest) = (k, blank n) ∷ hollow rest

length-blank : (n : ℕ) → length (blank n) ≡ n
length-blank zero = refl
length-blank (suc n) = ap suc (length-blank n)

names-hollow : (rules : Rules) → names (hollow (sizes rules)) ≡ names rules
names-hollow [] = refl
names-hollow ((k, prods) ∷ rules) = ap (λ (x : List Text). k ∷ x) (names-hollow rules)

length-hollow : (rules : Rules) → length (hollow (sizes rules)) ≡ length rules
length-hollow [] = refl
length-hollow ((k, prods) ∷ rules) = ap suc (length-hollow rules)

mapped-hollow : (ref : Rules) → mapped (hollow (sizes ref)) ≡ mapped ref
unfolding mapped
mapped-hollow [] = refl
mapped-hollow ((k, prods) ∷ ref) = rw (mapped-hollow ref) refl

count_of-hollow : (k : Text) (ours : Rules) → count_of k (hollow (sizes ours)) ≡ count_of k ours
unfolding count_of
count_of-hollow k [] = refl
count_of-hollow k ((n, prods) ∷ ours) =
    rw (count_of-hollow k ours, length-blank (length prods)) refl

count_diffs-hollow :
    (ours ref : Rules)
    → count_diffs (hollow (sizes ours)) (hollow (sizes ref)) ≡ count_diffs ours ref
unfolding count_diffs
count_diffs-hollow ours [] = refl
count_diffs-hollow ours ((k, prods) ∷ ref) =
    rw (count_diffs-hollow ours ref, count_of-hollow (renamed k) ours, length-blank (length prods))
      refl

compare_rules-hollow :
    (ours ref : Rules)
    → compare_rules (hollow (sizes ours)) (hollow (sizes ref)) ≡ compare_rules ours ref
unfolding compare_rules missing extra
compare_rules-hollow ours ref =
    rw (names-hollow ours, mapped-hollow ref, count_diffs-hollow ours ref, length-hollow ours) refl

-- Two pairs of grammars with the same names and the same numbers of productions give the same
-- report: what the productions say is never compared.
pub compare_rules-sizes :
    (ours ours' ref ref' : Rules)
    → sizes ours ≡ sizes ours'
    → sizes ref ≡ sizes ref'
    → compare_rules ours ref ≡ compare_rules ours' ref'
compare_rules-sizes ours ours' ref ref' h k =
    sym (compare_rules-hollow ours ref) ∙ rw (h, k) (compare_rules-hollow ours' ref')

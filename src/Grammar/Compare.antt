-- ===== src/Grammar/Compare.antt =====
-- `main` of `tools/grammar_fidelity.py`: the names and the production counts of the two grammars.
pub mod Laws
pub mod Sizes
use wax_mb.Base.{
  ℕ, zero, suc, ◌+◌, Text, codes, Bool, true, false, not, ◌&&◌, ◌||◌, Option, none, some, List, [],
  ◌∷◌, ◌++◌, map, ◌==◌, list_eq, nat_eq, if◌then◌else◌, ◌>>=◌, length, contains, any, select, strip,
}
use wax_mb.Grammar.Parse.{Production, parse_grammar}

-- A grammar as it is compared: `rules[name]` in the order of the dictionary.
abbrev pub Rules : Type 0
Rules = List (Text × List Production)

abbrev pub lookup_text : Text → List (Text × Text) → Option Text
lookup_text k [] = none
lookup_text k ((n, v) ∷ rest) = let later = lookup_text k rest in if k == n then some v else later

abbrev pub renames : List (Text × Text)
renames =
    (codes "list", codes "list_of")
    ∷ (codes "separated_nonempty_list_trailing", codes "non_empty_sep_trailing")
    ∷ (codes "separated_list_trailing", codes "sep_trailing")
    ∷ []

-- `RENAMES.get(k, k)`
unfoldable pub renamed : Text → Text
renamed k = elim (lookup_text k renames) [ none ↦ k | some v ↦ v ]

abbrev pub our_helpers : List Text
our_helpers = map codes (
    "describes_clause" ∷ "descriptor_clause" ∷ "else_branch" ∷ "function_type_as" ∷ "fundecl_type"
    ∷ "if_block_type" ∷ "labelled" ∷ "let_init" ∷ "limit_max" ∷ "loption_data_init" ∷ "result_arrow"
    ∷ "semi_then_statements" ∷ "supertype_clause" ∷ "table_init" ∷ "tag_type" ∷ "type_annot"
    ∷ "list_of" ∷ [])

-- The keys of `EXPECTED_COUNT_DIFFS`
abbrev pub expected_count_diffs : List Text
expected_count_diffs = codes "separated_list_trailing" ∷ codes "data_init" ∷ []

abbrev pub dummy : Text
dummy = codes "dummy_ctx"

unfoldable pub is_dummy : Text → Bool
is_dummy k = k == dummy

unfoldable pub is_helper : Text → Bool
is_helper k = contains k our_helpers

unfoldable pub is_expected : Text → Bool
is_expected k = contains k expected_count_diffs

-- The names of `ref_mapped`. Its values are not used, and the report sorts the names.
unfoldable pub mapped : Rules → List Text
unfolding renamed
mapped [] = []
mapped ((k, prods) ∷ ref) =
    let rest = mapped ref in
    if not (is_dummy k) then if contains (renamed k) rest then rest else renamed k ∷ rest else rest

abbrev pub names : Rules → List Text
names rules = map (λ (r : Text × List Production). r.0) rules

-- `missing` and `extra`, before they are sorted
unfoldable pub missing : Rules → Rules → List Text
unfolding mapped
missing ours ref = select (λ k. not (contains k (names ours))) (mapped ref)

unfoldable pub extra : Rules → Rules → List Text
unfolding mapped
extra ours ref = select (λ k. not (contains k (mapped ref)) && not (is_helper k)) (names ours)

-- `len(ours[k])`, where `none` is a name that ours does not have
unfoldable pub count_of : Text → Rules → Option ℕ
count_of k [] = none
count_of k ((n, prods) ∷ ours) =
    let later = count_of k ours in if k == n then some (length prods) else later

-- A rule of `ref`, how many productions it has there, and how many here
abbrev pub CountDiff : Type 0
CountDiff = Text × ℕ × ℕ

abbrev pub differ_by : Text → ℕ → Option ℕ → List CountDiff → List CountDiff
differ_by k here none rest = rest
differ_by k here (some there) rest = if here == there then rest else (k, here, there) ∷ rest

unfoldable pub count_diffs : Rules → Rules → List CountDiff
unfolding renamed count_of
count_diffs ours [] = []
count_diffs ours ((k, prods) ∷ ref) =
    let rest = count_diffs ours ref in
    if is_dummy k then rest else differ_by k (length prods) (count_of (renamed k) ours) rest

unfoldable pub unexplained : List CountDiff → List CountDiff
unexplained diffs = select (λ (d : CountDiff). not (is_expected d.0)) diffs

-- What the report counts and lists.
pub record Report : Type 0 where
  pub reference_rules : ℕ
  pub our_rules : ℕ
  pub missing_rules : List Text
  pub extra_rules : List Text
  pub differences : List CountDiff
  pub problems : ℕ

unfoldable pub compare_rules : Rules → Rules → Report
unfolding mapped missing extra count_diffs unexplained
compare_rules ours ref =
    let diffs = count_diffs ours ref in
    record {
      reference_rules = length (mapped ref);
      our_rules = length ours;
      missing_rules = missing ours ref;
      extra_rules = extra ours ref;
      differences = diffs;
      problems = length (missing ours ref) + length (extra ours ref) + length (unexplained diffs);
    }

unfoldable pub status : Report → ℕ
status r = if r.problems == 0 then 0 else 1

-- How the tool ends; `raised` is the `ValueError` of a text without `%%`.
pub data Ended : Type 0 where
  reference_missing raised : Ended
  not_dumped : Text → Ended
  compared : Report → ℕ → Ended

abbrev pub compare_parsed : Option Rules → Option Rules → Ended
compare_parsed none ref = raised
compare_parsed (some ours) none = raised
compare_parsed (some ours) (some ref) =
    compared (compare_rules ours ref) (status (compare_rules ours ref))

-- `reference` is the text of `parser.mly`, if it is there; the dump is what the parser generator
-- prints, with its standard error.
unfoldable pub main : Option Text → Text → Text → Ended
unfolding parse_grammar compare_rules status
main none dump err = reference_missing
main (some reference) dump err =
    if strip dump == []
    then not_dumped err
    else compare_parsed (parse_grammar dump false) (parse_grammar reference true)

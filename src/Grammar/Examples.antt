-- ===== src/Grammar/Examples.antt =====
-- The theorems of the grammar comparison, at small grammars.
use wax_mb.Base.{◌≡◌, refl, ◌↔◌, codes, true, some, [], ◌∷◌, map, all}
use wax_mb.Grammar.Strip.{strip_ocaml_comments, strip_actions}
use wax_mb.Grammar.Strip.Written.{
  Nested, plain, block, strip_ocaml_comments-written, strip_actions-written,
}
use wax_mb.Grammar.Parse.{production, productions, header}
use wax_mb.Grammar.Parse.Alternatives.{productions-join}
use wax_mb.Grammar.Compare.{
  Rules, names, compare_rules, status, main, compared, is_dummy, is_helper, is_expected,
}
use wax_mb.Grammar.Compare.Laws.{is_matched, is_translated, compare_rules-status}
use wax_mb.Grammar.Compare.Sizes.{compare_rules-sizes}

abbrev commented : Nested
commented =
    block (codes "a ") (block (codes " b ") (plain (codes " c ")) (plain (codes " d ")))
      (plain (codes " (e) *)"))

strip_ocaml_comments-written_example :
    strip_ocaml_comments (codes "a (* b (* c *) d *) (e) *)") ≡ codes "a  (e) *)"
strip_ocaml_comments-written_example = strip_ocaml_comments-written commented refl

abbrev with_action : Nested
with_action =
    block (codes "| ") (block (codes " f ") (plain (codes " g ")) (plain [])) (plain (codes " | x"))

strip_actions-written_example : strip_actions (codes "| { f { g }} | x") ≡ codes "|  @ACT@  | x"
strip_actions-written_example = strip_actions-written with_action refl

productions-join_example :
    productions (codes " |  @ACT@ | x") ≡ map production (codes "  @ACT@ " ∷ codes " x" ∷ [])
productions-join_example = productions-join (codes " ") (codes "  @ACT@ " ∷ codes " x" ∷ []) refl

abbrev our_rules : Rules
our_rules =
    (codes "list_of", [] ∷ (codes "x" ∷ []) ∷ []) ∷ (codes "labelled", (codes "l" ∷ []) ∷ []) ∷ []

abbrev reference_rules : Rules
reference_rules = (codes "list", [] ∷ (codes "y" ∷ []) ∷ []) ∷ (codes "dummy_ctx", []) ∷ []

compare_rules-status_example : (status (compare_rules our_rules reference_rules) ≡ 0) ↔ (
    (all (is_matched our_rules) reference_rules ≡ true)
    × (all (is_translated reference_rules) (names our_rules) ≡ true))
compare_rules-status_example = compare_rules-status our_rules reference_rules

-- Both sides of it hold.
status_clean : status (compare_rules our_rules reference_rules) ≡ 0
unfolding status compare_rules is_dummy is_helper
status_clean = refl

abbrev swapped_rules : Rules
swapped_rules =
    (codes "list", (codes "z" ∷ codes "z" ∷ []) ∷ [] ∷ []) ∷ (codes "dummy_ctx", []) ∷ []

compare_rules-sizes_example :
    compare_rules our_rules reference_rules ≡ compare_rules our_rules swapped_rules
compare_rules-sizes_example =
    compare_rules-sizes our_rules our_rules reference_rules swapped_rules refl refl

-- A missing rule, and one production too few.
status_of_text :
    main (some (codes "\n%%\nlist: | { } | x { }\nfun: y")) (codes "\n%%\nlist_of: x // y\n") []
    ≡ compared
        (record {
          reference_rules = 2;
          our_rules = 1;
          missing_rules = codes "fun" ∷ [];
          extra_rules = [];
          differences = (codes "list", 2, 1) ∷ [];
          problems = 2;
        })
        1
unfolding main status compare_rules header is_dummy is_expected
status_of_text = refl

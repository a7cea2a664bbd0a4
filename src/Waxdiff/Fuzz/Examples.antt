-- ===== src/Waxdiff/Fuzz/Examples.antt =====
-- The theorems of the mutator, at a small generator, and of the shapes of two findings.
use wax_mb.Base.{
  contains, if◌then◌else◌, Option, ◌≡◌, refl, pos, some, true, false, length, int_eq, list_eq,
  nat_eq, ℕ, zero, suc, ◌+◌, ◌-◌, ◌<◌, arith, Text, codes, List, [], ◌∷◌,
}
use wax_mb.Waxdiff.Examples.{policy}
use wax_mb.Waxdiff.Fuzz.Findings.Timing.{is_finding12-excused}
use wax_mb.Waxdiff.Diagnostics.{Diagnostic, str, int, get}
use wax_mb.Waxdiff.Records.{Policy, Failure, idempotence, now_stable}
use wax_mb.Waxdiff.Fuzz.Tokens.{tokenize}
use wax_mb.Waxdiff.Fuzz.Tokens.Cut.{IsCut, tokenize-IsCut}
use wax_mb.Waxdiff.Fuzz.Command.{Drawn, Find, fuzz}
use wax_mb.Waxdiff.Fuzz.Command.Laws.{mutants, Graded, fuzz_finds}
use wax_mb.Waxdiff.Errors.{span_fields}
use wax_mb.Waxdiff.Errors.Loop.{pairs_acceptable, pairs_differ}
use wax_mb.Waxdiff.Fuzz.Findings.{
  is_finding12, finding12_pair, by_order, value_leb, is_syntax, is_finding9, finding9_pair,
  core_agrees, spans_differ, at_quote,
}
use wax_mb.Waxdiff.Fuzz.Findings.Laws.{is_finding9-excused}
use wax_mb.Waxdiff.Fuzz.Mutate.{Edit, delete, duplicate, borrow, Rng, mutate_times}
use wax_mb.Waxdiff.Fuzz.Mutate.Laws.{IsEdit, mutate_times-IsEdit}

-- A generator that counts its draws, always draws the last item, and takes the edits in turn.
abbrev next_edit : ℕ → Edit
next_edit zero = duplicate
next_edit (suc zero) = delete
next_edit (suc (suc zero)) = borrow
next_edit (suc (suc (suc r))) = next_edit r

abbrev last_of : Rng ℕ
last_of = record { randrange = λ n r. (n - 1, r); choice = λ r. (next_edit r, r + 1) }

below : (n r : ℕ) → 0 < n → (last_of.randrange n r).0 < n
below n r h = omega arith

abbrev two_tokens : List Text
two_tokens = codes "fn" ∷ codes "f" ∷ []

mutate_times-IsEdit_example : IsEdit 2 two_tokens (mutate_times last_of 2 two_tokens 0).0
mutate_times-IsEdit_example = mutate_times-IsEdit last_of below 2 two_tokens 0

-- A string that ours reports whole and the reference at its closing quote.
abbrev quoted_source : Text
quoted_source = codes "let \"ab\";"

abbrev at_span : ℕ → Text → List Diagnostic
at_span start why =
    ((codes "severity", str (codes "error"))
      ∷ (codes "startOffset", int (pos start))
      ∷ (codes "endOffset", int (pos 8))
      ∷ (codes "message", str why)
      ∷ [])
    ∷ []

abbrev policy_spans : Policy
policy_spans = record policy { gated = codes "severity" ∷ span_fields }

is_finding9-excused_example :
    (length (at_span 4 (codes "b")) ≡ length (at_span 7 (codes "a")))
    × (pairs_acceptable
          (some (codes "finding 9"))
          policy_spans.gated
          (at_span 7 (codes "a"))
          (at_span 4 (codes "b"))
        ≡ true)
    × (pairs_differ policy_spans.gated (at_span 7 (codes "a")) (at_span 4 (codes "b")) ≡ true)
unfolding is_finding9 finding9_pair core_agrees spans_differ at_quote get
is_finding9-excused_example =
    is_finding9-excused quoted_source (at_span 7 (codes "a")) (at_span 4 (codes "b")) policy_spans
      (codes "finding 9") refl refl

-- Two errors without extent, of the same place: the shape is that of finding 12, and no gated field
-- differs.
abbrev hint : Diagnostic
hint =
    (codes "severity", str (codes "error"))
    ∷ (codes "startOffset", int (pos 8))
    ∷ (codes "endOffset", int (pos 8))
    ∷ (codes "message", str (codes "A hint."))
    ∷ []

abbrev expecting : Diagnostic
expecting =
    (codes "severity", str (codes "error"))
    ∷ (codes "startOffset", int (pos 8))
    ∷ (codes "endOffset", int (pos 8))
    ∷ (codes "message", str (codes "Expecting a type."))
    ∷ []

is_finding12-excused_example :
    (pairs_acceptable (some (codes "finding 12")) policy_spans.gated (hint ∷ []) (expecting ∷ [])
      ≡ true)
    × (pairs_differ policy_spans.gated (hint ∷ []) (expecting ∷ []) ≡ false)
unfolding is_finding12 finding12_pair core_agrees spans_differ by_order value_leb is_syntax get
is_finding12-excused_example =
    is_finding12-excused hint expecting policy_spans (codes "finding 12") refl refl

-- Every mutant that has an `f` in it fails.
abbrev judge_f : Text → List Failure
judge_f src =
    if contains 102 src
    then record { file = codes "mutant.wax"; oracle = idempotence; detail = now_stable } ∷ []
    else []

abbrev seed_file : List (Text × Option Text)
seed_file = (codes "a.wax", some (codes "fn f")) ∷ []

fuzz_finds_example :
    (ms : List Drawn) × (fs : List Find) × (mutants last_of 2 seed_file 3 0 0 ≡ some ms)
    × (fuzz last_of 2 seed_file judge_f 3 0 0 ≡ some fs)
    × Graded last_of 2 seed_file judge_f ms fs
fuzz_finds_example =
    fuzz_finds last_of 2 seed_file judge_f below (omega arith) (omega arith) refl 3 0 0

tokenize-IsCut_example : IsCut (codes "fn f") (tokenize (codes "fn f"))
tokenize-IsCut_example = tokenize-IsCut (codes "fn f")

-- ===== src/Waxdiff/Cram/Examples.antt =====
-- The theorems of the cram scope at small tests.
use mathlib.Core.List.{Memᴰ}
use wax_mb.Base.{
  Text, codes, none, some, List, [], ◌∷◌, ◌++◌, map, ◌≡◌, ◌↔◌, refl, unlines, list_eq, nat_eq,
}
use wax_mb.Waxdiff.Cram.{
  flag, reads, reads_file, subcommand, cram_commands, drop_assignments, scan, positionals_reason,
  words_reason,
}
use wax_mb.Waxdiff.Cram.Scope.{segment_reason, cram_reason, classify}
use wax_mb.Waxdiff.Cram.Laws.{RunsInScope, cram_reason-RunsInScope}
use wax_mb.Waxdiff.Cram.Selected.{IsRunnable, classify_included, cram_reason_continued, Listed}
use wax_mb.Waxdiff.Cram.Excluded.{IsFirstReason, classify_excluded}
use wax_mb.Waxdiff.Cram.Commands.{Step, script_lines, command_of, cram_commands-script}

reason_flag :
    cram_reason (codes "cat x.wax | wax -f wax --desugar x.wax") ≡ some (flag (codes "--desugar"))
unfolding cram_reason segment_reason words_reason drop_assignments scan positionals_reason
reason_flag = refl

reason_format : cram_reason (codes "WAX=1 wax -f wasm -i=wat x.wat") ≡ some (reads (codes "wat"))
unfolding cram_reason segment_reason words_reason drop_assignments scan positionals_reason
reason_format = refl

reason_file : cram_reason (codes "wax check a.b.wat") ≡ some (reads_file (codes "wat"))
unfolding cram_reason segment_reason words_reason drop_assignments scan positionals_reason
reason_file = refl

reason_command : cram_reason (codes "true && wax lsp") ≡ some (subcommand (codes "lsp"))
unfolding cram_reason segment_reason words_reason drop_assignments scan positionals_reason
reason_command = refl

cram_reason-RunsInScope_example :
    (cram_reason (codes "wax -f wat x.wax || true") ≡ none)
    ↔ RunsInScope (codes "wax -f wat x.wax || true")
cram_reason-RunsInScope_example = cram_reason-RunsInScope (codes "wax -f wat x.wax || true")

abbrev two_steps : List Step
two_steps =
    record {
      first = codes "cat > m.wax <<WAX";
      more = codes "fn f() {}" ∷ [] ∷ codes "WAX" ∷ [];
      output = [];
    }
    ∷ record { first = codes "wax check m.wax"; more = []; output = codes "  [1]" ∷ [] ∷ [] }
    ∷ []

cram_commands-script_example :
    cram_commands (unlines (script_lines two_steps)) ≡ map command_of two_steps
cram_commands-script_example = cram_commands-script two_steps refl refl

abbrev tests : List Listed
tests =
    (codes "a.t", some (unlines (script_lines two_steps)))
    ∷ (codes "b.t", none)
    ∷ (codes "c.t", some (codes "  $ wax lsp\n"))
    ∷ []

classify_included_example :
    Memᴰ (codes "a.t") (classify (λ w. w) tests).included
    ↔ ((text : Text) × Memᴰ (codes "a.t", some text) tests × IsRunnable text)
classify_included_example = classify_included (λ w. w) tests (codes "a.t")

classify_excluded_example :
    Memᴰ
      (codes "c.t", codes "runs the lsp subcommand, which wax-mb does not implement")
      (classify (λ w. w) tests).excluded
    ↔ ((text : Text) × Memᴰ (codes "c.t", some text) tests
        × IsFirstReason
            (λ w. w)
            text
            (codes "runs the lsp subcommand, which wax-mb does not implement"))
classify_excluded_example =
    classify_excluded (λ w. w) tests (codes "c.t")
      (codes "runs the lsp subcommand, which wax-mb does not implement")

cram_reason_continued_example :
    cram_reason (codes "wax \\" ++ b'\n' ∷ codes "--desugar x.wax") ≡ cram_reason (codes "wax \\")
cram_reason_continued_example =
    cram_reason_continued (codes "wax \\") (codes "--desugar x.wax") refl

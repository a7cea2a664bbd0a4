-- ===== src/Waxdiff/Cram/Report.antt =====
-- The rest of `cmd_classify_cram`: what it copies, the report test/cram-scope.md and the counts.
use wax_mb.Base.{
  ℕ, ◌+◌, Text, codes, Bool, Option, none, some, List, [], ◌∷◌, ◌++◌, map, if◌then◌else◌, length,
  join, sorted_by, texts_before,
}
use wax_mb.Messages.Key.{str}
use wax_mb.Waxdiff.Cram.Scope.{Selection, classify}

abbrev pub report_head : Selection → List Text
report_head s =
    codes "# Cram tests: what this port runs"
    ∷ codes ""
    ∷ codes "Generated by `waxdiff.py classify-cram`. A test is in scope when every"
    ∷ codes "`wax` command it runs uses only flags and formats wax-mb implements;"
    ∷ codes "anything else is listed below with the reason, so the excluded set stays"
    ∷ codes "visible instead of shrinking unnoticed."
    ∷ codes ""
    ∷ (codes "In scope: **"
        ++ str (length s.included)
        ++ codes "** of "
        ++ str (length s.included + length s.excluded)
        ++ codes ".")
    ∷ codes ""
    ∷ codes "That is a small fraction, and the reasons below say why: the"
    ∷ codes "reference's cram suite is overwhelmingly about the two things this"
    ∷ codes "port does not implement -- conversion to and from wat/wasm, and the"
    ∷ codes "type checker with its lints. The differential oracles are what cover"
    ∷ codes "the front end, over 2112 corpus files; these tests add the CLI's own"
    ∷ codes "behaviour (exit codes, which stream output goes to, flag handling)."
    ∷ codes ""
    ∷ codes "## Excluded"
    ∷ codes ""
    ∷ codes "| test | why |"
    ∷ codes "|---|---|"
    ∷ []

abbrev pub excluded_row : Text × Text → Text
excluded_row (name, why) = codes "| `" ++ name ++ codes "` | " ++ why ++ codes " |"

-- The order of pairs of texts
abbrev pub row_before : Text × Text → Text × Text → Bool
row_before (a, b) (c, d) = texts_before (a ∷ b ∷ []) (c ∷ d ∷ [])

unfoldable pub cram_report : Selection → Text
cram_report s =
    join (codes "\n")
      (report_head s ++ (map excluded_row (sorted_by row_before s.excluded) ++ [] ∷ []))

-- The directories that were copied in place of those under test/cram, and the written report; with
-- `--dry-run` there are neither. The printed counts are those of included and excluded tests.
pub record Scoped : Type 0 where
  pub copied : Option (List Text)
  pub written : Option Text
  pub in_scope : ℕ
  pub out_of_scope : ℕ

scoped : Bool → Selection → Scoped
unfolding cram_report
scoped dry_run s = record {
  copied = if dry_run then none else some s.included;
  written = if dry_run then none else some (cram_report s);
  in_scope = length s.included;
  out_of_scope = length s.excluded;
}

-- `none` is the exit where there is no directory of tests; `listing` is in the order of the names.
unfoldable pub cmd_classify_cram :
    Bool → (Text → Text) → Option (List (Text × Option Text)) → Option Scoped
unfolding scoped
cmd_classify_cram dry_run repr none = none
cmd_classify_cram dry_run repr (some listing) = some (scoped dry_run (classify repr listing))

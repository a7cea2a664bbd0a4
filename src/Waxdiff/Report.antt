-- ===== src/Waxdiff/Report.antt =====
-- `cmd_run`: every oracle over every file of the index, the totals, the reports and the exit status.
pub mod Totals
use wax_mb.Base.{
  ℕ, ◌+◌, ◌-◌, Text, codes, Bool, true, false, ◌&&◌, ◌||◌, not, ◌≡◌, ◌↔◌, Option, none, some, List,
  [], ◌∷◌, ◌++◌, ◌==◌, Eq, list_eq, nat_eq, if◌then◌else◌, ◌>>=◌, contains, take, has_substring,
  select, arith,
}
use wax_mb.Waxdiff.Process.{Files, exists, System}
use wax_mb.Waxdiff.Diagnostics.{Loads}
use wax_mb.Waxdiff.Records.{
  Bucket, Mode, skip, same, no_errors, Modes, Route, native, via_reference, Policy, Meta, Failure,
  Drift, Outcome, fresh, Dirs,
}
use wax_mb.Waxdiff.Reprint.{check_oracle1}
use wax_mb.Waxdiff.Binary.{check_oracle2}
use wax_mb.Waxdiff.Errors.{Exemptions, check_oracle3}
use wax_mb.Waxdiff.TextFormat.{check_oracle4}

-- The numbers that `--oracle` takes.
pub data OracleId : Type 0 where
  oracle1 oracle2 oracle3 oracle4 : OracleId

abbrev pub oracle_beq : OracleId → OracleId → Bool
oracle_beq oracle1 oracle1 = true
oracle_beq oracle2 oracle2 = true
oracle_beq oracle3 oracle3 = true
oracle_beq oracle4 oracle4 = true
oracle_beq _ _ = false

pub oracle_beq_iff : (a b : OracleId) → (oracle_beq a b ≡ true) ↔ (a ≡ b)
oracle_beq_iff oracle1 b = ground arith
oracle_beq_iff oracle2 b = ground arith
oracle_beq_iff oracle3 b = ground arith
oracle_beq_iff oracle4 b = ground arith

instance abbrev pub oracle_eq : Eq OracleId
oracle_eq = record { decides = oracle_beq_iff; test = oracle_beq }

-- What stays fixed while `cmd_run` goes through the index.
pub record Setting : Type 0 where
  pub system : System
  pub loads : Loads
  pub exempt : Exemptions
  pub dirs : Dirs
  pub report : Text
  pub files : Files
  pub impl : List Text
  pub policy : Policy
  pub oracles : List OracleId

abbrev pub Results : Type 0
Results = OracleId → Outcome

abbrev pub corpus_path : Dirs → Text → Text
corpus_path dirs rel = dirs.corpus ++ codes "/" ++ rel

-- `local[o]` after `one` has gone through the oracles; `none` is an exception in oracle 3.
unfoldable pub local_outcome : Setting → Text → Meta → OracleId → Option Outcome
local_outcome s rel meta oracle1 =
    some (
      check_oracle1 s.system s.dirs s.files s.impl rel (corpus_path s.dirs rel) meta fresh s.policy)
local_outcome s rel meta oracle2 = some (
    check_oracle2 s.system s.dirs s.report s.files s.impl rel (corpus_path s.dirs rel) meta fresh
      s.policy)
local_outcome s rel meta oracle3 =
    check_oracle3 s.system s.loads s.exempt s.dirs s.files s.impl rel (corpus_path s.dirs rel) meta
      fresh s.policy
local_outcome s rel meta oracle4 =
    some (check_oracle4 s.system s.files s.impl rel (corpus_path s.dirs rel) meta fresh s.policy)

-- `results[o].passed += local[o].passed`, and so on
abbrev pub combine : Outcome → Outcome → Outcome
combine a b = record {
  passed = a.passed + b.passed;
  failed = a.failed + b.failed;
  skipped = a.skipped + b.skipped;
  failures = a.failures ++ b.failures;
  drift = a.drift ++ b.drift;
}

abbrev pub update : Results → OracleId → Outcome → Results
update r o out p = if o == p then out else r p

-- `for o in oracles`: an oracle that is listed twice is added twice.
unfoldable pub absorb : List OracleId → (OracleId → Option Outcome) → Results → Option Results
absorb [] local r = some r
absorb (o ∷ os) local r = do out ← local o; absorb os local (update r o (combine (r o) out))

-- `one`, and the additions that follow it; a file that is not in the corpus is passed over.
unfoldable pub grade_file : Setting → Text → Meta → Results → Option Results
grade_file s rel meta r =
    if exists s.files (corpus_path s.dirs rel)
    then absorb s.oracles (local_outcome s rel meta) r
    else some r

-- the loop over `ex.map(one, files)`
unfoldable pub grade_files : Setting → List (Text × Meta) → Results → Option Results
grade_files s [] r = some r
grade_files s ((rel, meta) ∷ rest) r = do r' ← grade_file s rel meta r; grade_files s rest r'

abbrev pub no_results : Results
no_results o = fresh

-- `files = [(r, m) for r, m in files if args.filter in r]`, where an empty filter is no filter
unfoldable pub filter_files : Text → List (Text × Meta) → List (Text × Meta)
filter_files [] files = files
filter_files (c ∷ pattern) files =
    select (λ (f : Text × Meta). has_substring f.0 (c ∷ pattern)) files

-- What `--self-test` makes of the policy.
abbrev pub self_test_mode : Mode → Mode
self_test_mode no_errors = skip
self_test_mode skip = skip
self_test_mode same = same

unfoldable pub self_test_policy : Policy → Policy
self_test_policy p = record p {
  buckets = λ b. record (p.buckets b) { oracle3 = self_test_mode (p.buckets b).oracle3 };
  oracle2_route = native;
  self_test = true;
}

unfoldable pub self_test_setting : Setting → Setting
unfolding self_test_policy
self_test_setting s = record s {
  impl = s.system.reference ∷ [];
  policy = self_test_policy s.policy;
}

-- Whether `need_reference` is called.
unfoldable pub needs_reference : Setting → Bool → Bool
needs_reference s self_test =
    self_test
    || (contains oracle2 s.oracles
        && elim s.policy.oracle2_route [ via_reference ↦ true | native ↦ false ])
    || contains oracle4 s.oracles

-- `need_reference`: the wrapper and the binary that it runs, whose name is in reference.json.
unfoldable pub reference_present : System → Text → Files → Bool
reference_present sys asset files = exists files sys.reference && exists files asset

unfoldable pub failed_total : List OracleId → Results → ℕ
failed_total [] r = 0
failed_total (o ∷ os) r = (r o).failed + failed_total os r

-- Oracle 4 is counted and reported, and may not fail the run.
unfoldable pub gating_failures : List OracleId → Results → ℕ
unfolding failed_total
gating_failures os r = failed_total os r - (if contains oracle4 os then (r oracle4).failed else 0)

-- The entries of test/report/failures.md.
unfoldable pub failure_report : ℕ → List OracleId → Results → List Failure
failure_report max_report [] r = []
failure_report max_report (o ∷ os) r =
    take max_report (r o).failures ++ failure_report max_report os r

-- How `cmd_run` ends.
pub data Ending : Type 0 where
  reference_missing : Ending
  raised : Ending
  finished : Results → List Failure → ℕ → Ending

unfoldable pub ended : ℕ → List OracleId → Option Results → Ending
unfolding gating_failures failure_report
ended max_report os none = raised
ended max_report os (some r) =
    finished r (failure_report max_report os r) (if gating_failures os r == 0 then 0 else 1)

unfoldable pub cmd_run : Setting → Text → Bool → ℕ → Text → List (Text × Meta) → Ending
unfolding ended self_test_setting needs_reference reference_present filter_files
cmd_run s asset self_test max_report pattern index =
    let s' = if self_test then self_test_setting s else s in
    if needs_reference s' self_test && not (reference_present s.system asset s.files)
    then reference_missing
    else ended max_report s'.oracles (grade_files s' (filter_files pattern index) no_results)

-- ===== src/Waxdiff/Main.antt =====
-- `main`: the options of `run` with their defaults, `default_jobs`, and what `cmd_run` does
-- before it grades: `load_index`, `load_policy` and the choice of the oracles.
use wax_mb.Base.{ℕ, min, Text, codes, Bool, Option, none, some, List, [], ◌∷◌, split, sorted_by}
use wax_mb.Waxdiff.Process.{Files, System}
use wax_mb.Waxdiff.Diagnostics.{Loads}
use wax_mb.Waxdiff.Records.{Policy, Meta, Dirs, Route, via_reference}
use wax_mb.Waxdiff.Errors.{span_exempt}
use wax_mb.Waxdiff.Policy.{
  LoadPolicy, PolicyLoad, policy_raised, unknown_scope, policy_read, load_policy,
}
use wax_mb.Waxdiff.Report.{OracleId, oracle1, oracle2, oracle3, Setting, Ending, cmd_run}
use wax_mb.Waxdiff.Golden.Command.{
  LoadIndex, Loaded, no_goldens, not_an_index, loaded, load_index, entry_before,
}

-- An option that was not given takes its default.
abbrev pub given_or {ℓ} : {A : Type ℓ} → Option A → A → A
given_or none d = d
given_or (some a) d = a

-- `min(4, os.cpu_count() or 4)`, where the count may be missing or 0
unfoldable pub default_jobs : Option ℕ → ℕ
default_jobs none = 4
default_jobs (some ℕ.zero) = 4
default_jobs (some (ℕ.suc n)) = min 4 (ℕ.suc n)

-- `args.oracle or [1, 2, 3]`: `--oracle` may be repeated.
unfoldable pub chosen_oracles : List OracleId → List OracleId
chosen_oracles [] = oracle1 ∷ oracle2 ∷ oracle3 ∷ []
chosen_oracles (o ∷ os) = o ∷ os

-- The options of `run`.
pub record RunArgs : Type 0 where
  pub impl : Option Text
  pub oracle : List OracleId
  pub oracle2_route : Option Route
  pub filter : Option Text
  pub scope : Option Text
  pub self_test : Bool
  pub max_report : Option ℕ

abbrev pub impl_of : RunArgs → Text
impl_of args = given_or args.impl (codes "tools/wax-ref")

abbrev pub route_of : RunArgs → Route
route_of args = given_or args.oracle2_route via_reference

abbrev pub max_report_of : RunArgs → ℕ
max_report_of args = given_or args.max_report 50

-- What the commands find outside their options.
pub record Harness : Type 0 where
  pub system : System
  pub loads : Loads
  pub load_index_json : LoadIndex
  pub load_policy_json : LoadPolicy
  pub dirs : Dirs
  pub report : Text
  pub policy_path : Text
  pub asset : Text

unfoldable pub run_setting : Harness → Files → RunArgs → Policy → Setting
unfolding chosen_oracles
run_setting h files args policy = record {
  system = h.system;
  loads = h.loads;
  exempt = span_exempt;
  dirs = h.dirs;
  report = h.report;
  files = files;
  impl = split (impl_of args);
  policy = policy;
  oracles = chosen_oracles args.oracle;
}

-- How `run` ends: two exits, two exceptions, or as the grading does.
pub data RunEnding : Type 0 where
  run_without_goldens : RunEnding
  run_raised : RunEnding
  run_unknown_scope : Text → RunEnding
  graded_files : Ending → RunEnding

unfoldable pub run_with : Harness → Files → RunArgs → List (Text × Meta) → PolicyLoad → RunEnding
unfolding run_setting
run_with h files args index policy_raised = run_raised
run_with h files args index (unknown_scope scope) = run_unknown_scope scope
run_with h files args index (policy_read policy) = graded_files (
    cmd_run (run_setting h files args policy) h.asset args.self_test (max_report_of args)
      (given_or args.filter []) (sorted_by entry_before index))

unfoldable pub run_loaded : Harness → Files → RunArgs → Loaded → RunEnding
unfolding run_with
run_loaded h files args no_goldens = run_without_goldens
run_loaded h files args not_an_index = run_raised
run_loaded h files args (loaded index) =
    run_with h files args index
      (load_policy h.system h.load_policy_json h.policy_path args.scope (route_of args) files)

unfoldable pub run_command : Harness → Files → RunArgs → RunEnding
unfolding run_loaded
run_command h files args =
    run_loaded h files args (load_index h.system h.load_index_json h.dirs files)

-- ===== src/Waxdiff/Golden/WholeRun.antt =====
-- The commands `golden` and `run --self-test`, one after the other.
use wax_mb.Base.{
  ℕ, Text, true, false, ◌≡◌, refl, sym, ap, ◌∙◌, List, [], map, contains, list_eq, nat_eq,
}
use wax_mb.Waxdiff.Process.{Files}
use wax_mb.Waxdiff.Records.{Meta, Policy}
use wax_mb.Waxdiff.Policy.{policy_read, load_policy}
use wax_mb.Waxdiff.Report.{OracleId, Results, finished}
use wax_mb.Waxdiff.Main.{
  Harness, RunArgs, route_of, max_report_of, given_or, run_setting, run_with, run_loaded,
  run_command, graded_files,
}
use wax_mb.Waxdiff.Golden.{Dumps}
use wax_mb.Waxdiff.Golden.Paths.{below}
use wax_mb.Waxdiff.Golden.Command.{
  DumpIndex, corpus_files, recorded, cmd_golden, loaded, load_index,
}
use wax_mb.Waxdiff.Golden.Recorded.{AgreeOutside}
use wax_mb.Waxdiff.Golden.SelfTest.{CanRecord, self_tested}

load_policy-outside :
    (h : Harness) (args : RunArgs) (f g : Files)
    → AgreeOutside h.dirs f g
    → below h.dirs h.policy_path ≡ false
    → load_policy h.system h.load_policy_json h.policy_path args.scope (route_of args) f
      ≡ load_policy h.system h.load_policy_json h.policy_path args.scope (route_of args) g
unfolding load_policy
load_policy-outside h args f g agree out = rw (agree h.policy_path out, load_policy) refl

module _ (h : Harness) (files : Files) (args : RunArgs) (policy : Policy) (dumps : Dumps)
    (dump_index : DumpIndex) (sha : Text) (listing : List Text) where
  -- `golden` ends, index.json lists the files of the corpus and no others, and `run --self-test`,
  -- with whatever other options, then finishes with no failure of any oracle, none in the report and
  -- status 0, where the corpus can be recorded, the policy can be read and its file stands outside
  -- GOLDEN.
  pub golden_then_self_test :
      CanRecord
        (run_setting h files args policy)
        dumps
        dump_index
        h.load_index_json
        h.asset
        sha
        listing
      → args.self_test ≡ true
      → load_policy h.system h.load_policy_json h.policy_path args.scope (route_of args) files
        ≡ policy_read policy
      → below h.dirs h.policy_path ≡ false
      → (g : Files) × (rows : List (Text × ℕ)) × (index : List (Text × Meta)) × (r : Results)
        × (cmd_golden h.system h.loads dumps h.dirs dump_index h.asset sha files listing
            ≡ recorded g rows)
        × (load_index h.system h.load_index_json h.dirs g ≡ loaded index)
        × ((rel : Text)
            → contains rel (map (λ (e : Text × Meta). e.0) index)
              ≡ contains rel (corpus_files listing))
        × (run_command h g args ≡ graded_files (finished r [] 0))
        × ((o : OracleId) → (r o).failed ≡ 0)
  unfolding run_command run_loaded run_with run_setting
  golden_then_self_test can self_test reads outside =
      let (g, rows, index, r, agree, golden, read, listed, ran, clean) =
        self_tested (run_setting h files args policy) dumps dump_index h.load_index_json h.asset sha
          listing can (max_report_of args) (given_or args.filter []) in
      let reads' = sym (load_policy-outside h args files g agree outside) ∙ reads in
      (
        g,
        rows,
        index,
        r,
        golden,
        read,
        listed,
        rw (read, run_command) (rw (reads', self_test, run_with) (ap graded_files ran)),
        clean,
      )

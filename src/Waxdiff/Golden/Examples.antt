-- ===== src/Waxdiff/Golden/Examples.antt =====
-- Recording and the test of the harness by itself, at a small reference.
use wax_mb.Base.{
  ℕ, pos, Text, codes, true, false, ◌≡◌, refl, ap, Option, none, some, List, [], ◌∷◌, map, ◌==◌,
  list_eq, nat_eq, if◌then◌else◌, contains, get_or, sorted_by,
}
use wax_mb.Waxdiff.Process.{Run, Files, System, wax, impl_run}
use wax_mb.Waxdiff.Diagnostics.{
  Diagnostic, Loads, str, get, normalize_file, parse_jsonl, load_lines,
}
use wax_mb.Waxdiff.Records.{same, via_reference, Policy, Dirs, Meta}
use wax_mb.Waxdiff.Report.{
  Setting, Results, OracleId, oracle1, oracle2, oracle3, oracle4, finished, reference_present,
}
use wax_mb.Waxdiff.Golden.{classify_one}
use wax_mb.Waxdiff.Golden.Command.{
  count_rows, bucket_count, count_all, count_in, corpus_files, DumpIndex, recorded, cmd_golden,
  cmd_classify, loaded, load_index,
}
use wax_mb.Waxdiff.Golden.Recorded.{IsBlind, IsRecordable, entry_of}
use wax_mb.Waxdiff.Golden.SelfTest.{CanRecord}
use wax_mb.Waxdiff.Golden.WholeRun.{golden_then_self_test}
use wax_mb.Waxdiff.Policy.{PolicyFile, load_policy, scope_of, modes_of}
use wax_mb.Waxdiff.Main.{Harness, RunArgs, run_setting, run_command, graded_files}
use wax_mb.Waxdiff.Golden.Counted.{golden_prints_classify}

abbrev text_of : Option Text → Text
text_of none = []
text_of (some t) = t

-- It prints the file that is named first, and reports one diagnostic on a check.
abbrev run_of : Option Text → List Text → Run
run_of file argv = record {
  code = pos 0;
  out = text_of file;
  err = if contains (codes "check") argv then codes "{}\n" else [];
}

abbrev printer : System
printer = record {
  exec = λ files argv stdin. some (run_of (files (get_or argv 1 [])) argv);
  writes = λ files argv. [];
  has_systemd_run = false;
  has_wasm_tools = false;
  mem_cap = codes "1G";
  reference = codes "wax-ref";
  temporary = codes "tmp.wax";
  sha256 = λ t. t;
  decode = λ t. t;
  decode_strict = λ t. some t;
  encode = λ t. t;
}

abbrev dirs : Dirs
dirs = record { corpus = codes "c"; golden = codes "g" }

abbrev files : Files
files p =
    if p == codes "wax-ref"
    then some []
    else if p == codes "asset"
    then some []
    else if p == codes "policy"
    then some []
    else if p == codes "c/a.wax"
    then some (codes "fn f() {}\n")
    else none

abbrev loads : Loads
loads line = some ((codes "message", str line) ∷ [])

abbrev message : Diagnostic → Text
message d = elim (get d (codes "message")) [ str t ↦ t | _ ↦ [] ]

abbrev policy_file : PolicyFile
policy_file = record {
  scope = codes "full";
  scopes =
      (codes "full", λ b. record { oracle1 = same; oracle2 = same; oracle3 = same; oracle4 = same })
      ∷ [];
  gated_fields = codes "message" ∷ [];
  reported_fields = [];
}

abbrev policy : Policy
policy = record {
  buckets = λ b. record { oracle1 = same; oracle2 = same; oracle3 = same; oracle4 = same };
  gated = codes "message" ∷ [];
  reported = [];
  oracle2_route = via_reference;
  self_test = false;
}

abbrev args : RunArgs
args = record {
  impl = none;
  oracle = oracle1 ∷ oracle2 ∷ oracle3 ∷ oracle4 ∷ [];
  oracle2_route = none;
  filter = none;
  scope = none;
  self_test = true;
  max_report = none;
}

abbrev listing : List Text
listing = codes "a.wax" ∷ codes "notes.txt" ∷ []

abbrev index : List (Text × Meta)
index = entry_of printer dirs files (codes "a.wax") ∷ []

abbrev dump_index : DumpIndex
dump_index sha counts entries = codes "index"

abbrev harness : Harness
harness = record {
  system = printer;
  loads = loads;
  load_index_json = λ text. some index;
  load_policy_json = λ text. some policy_file;
  dirs = dirs;
  report = codes "r";
  policy_path = codes "policy";
  asset = codes "asset";
}

blind : IsBlind printer dirs (codes "c/a.wax")
unfolding wax
blind = record {
  reprints = λ f g agree. ap (λ (o : Option Text). run_of o []) (agree (codes "c/a.wax") refl);
  compiles = λ f g agree. ap (λ (o : Option Text). run_of o []) (agree (codes "c/a.wax") refl);
  checks = λ f g agree.
      ap (λ (o : Option Text). run_of o (codes "check" ∷ [])) (agree (codes "check") refl);
  reprints_temporary =
      λ f g agree. ap (λ (o : Option Text). run_of o []) (agree (codes "tmp.wax") refl);
}

recordable : IsRecordable printer loads message dirs files (codes "a.wax")
unfolding wax impl_run parse_jsonl load_lines normalize_file get
recordable = record {
  blind = blind;
  utf8 = λ code. refl;
  stable = λ code. (λ stable. refl, λ listed. (refl, refl));
  diagnostics = ((codes "message", str (codes "{}")) ∷ []) ∷ [];
  read = refl;
  dumped = ((refl, refl), tt);
}

abbrev setting : Setting
setting = run_setting harness files args policy

can_record :
    CanRecord setting message dump_index (λ text. some index) (codes "asset") (codes "sha") listing
unfolding corpus_files reference_present sorted_by run_setting
can_record = record {
  utf8 = λ t. refl;
  reads_back = λ c. refl;
  present = refl;
  reference_outside = refl;
  asset_outside = refl;
  distinct = ((λ e. cc, tt), (tt, tt));
  some_files = λ e. cc;
  recordable = (recordable, tt);
}

golden_then_self_test_example :
    (g : Files) × (rows : List (Text × ℕ)) × (index' : List (Text × Meta)) × (r : Results)
    × (cmd_golden printer loads message dirs dump_index (codes "asset") (codes "sha") files listing
        ≡ recorded g rows)
    × (load_index printer harness.load_index_json dirs g ≡ loaded index')
    × ((rel : Text)
        → contains rel (map (λ (e : Text × Meta). e.0) index')
          ≡ contains rel (corpus_files listing))
    × (run_command harness g args ≡ graded_files (finished r [] 0))
    × ((o : OracleId) → (r o).failed ≡ 0)
unfolding load_policy scope_of modes_of
golden_then_self_test_example =
    golden_then_self_test harness files args policy message dump_index (codes "sha") listing
      can_record refl refl refl

golden_prints_classify_example :
    (g : Files) × (rows : List (Text × ℕ)) × (cmd_golden printer loads message dirs dump_index
        (codes "asset")
        (codes "sha")
        files
        listing
      ≡ recorded g rows)
    × (cmd_classify printer dirs (codes "asset") files listing ≡ some rows)
unfolding run_setting
golden_prints_classify_example =
    golden_prints_classify setting message dump_index (λ text. some index) (codes "asset")
      (codes "sha") listing can_record

classified :
    cmd_classify printer dirs (codes "asset") files listing
    ≡ some (
        (codes "syntax-bad", 0)
        ∷ (codes "compiles-clean", 1)
        ∷ (codes "type-bad", 0)
        ∷ (codes "total", 1)
        ∷ [])
unfolding cmd_classify corpus_files classify_one wax reference_present count_rows bucket_count
    count_all count_in sorted_by
classified = refl

-- ===== src/Waxdiff/Examples.antt =====
-- The theorems of the harness at a small system, and tests of its definitions.
use wax_mb.Base.{
  ℕ, pos, Text, codes, Bool, true, false, ◌||◌, Subsequence, ◌<◌, ◌≡◌, ◌≤◌, ◌+◌, refl, arith,
  Option, none, some, List, [], ◌∷◌, ◌==◌, list_eq, nat_eq, contains, length, if◌then◌else◌,
}
use wax_mb.Waxdiff.Process.{Files, System, impl_run, wax}
use wax_mb.Waxdiff.Diagnostics.{Diagnostic, Loads, str, parse_jsonl, normalize_file, get}
use wax_mb.Waxdiff.Records.{
  compiles_clean, same, Modes, native, via_reference, Policy, Meta, fresh, pass, Dirs,
}
use wax_mb.Waxdiff.Reprint.{check_oracle1}
use wax_mb.Waxdiff.Reprint.Laws.{check_oracle1-passed}
use wax_mb.Waxdiff.Binary.{flatten_path, check_oracle2}
use wax_mb.Waxdiff.Binary.Laws.{check_oracle2-passed_native, check_oracle2-passed_via_reference}
use wax_mb.Waxdiff.Errors.{
  check_oracle3, span_exempt, load_want, load_got, grade_match, grade_gated, note_reported,
  exemption,
}
use wax_mb.Waxdiff.Errors.Laws.{check_oracle3-passed}
use wax_mb.Waxdiff.TextFormat.{check_oracle4}
use wax_mb.Waxdiff.TextFormat.Laws.{check_oracle4-passed}
use wax_mb.Waxdiff.Report.{
  Setting, oracle1, oracle4, Results, update, absorb, local_outcome, grade_file, grade_files,
  no_results, cmd_run,
}
use wax_mb.Waxdiff.Report.Totals.{grade_files_totals, cmd_run-status}
use wax_mb.Waxdiff.Fuzz.Minimize.{minimize, sweep}
use wax_mb.Waxdiff.Fuzz.Minimize.Laws.{minimize_total, IsMinimal}

-- The text of the first argument that names a file which is not empty.
abbrev first_text : Option Text → Text → Text
first_text none rest = rest
first_text (some []) rest = rest
first_text (some (c ∷ t)) rest = c ∷ t

abbrev contents : Files → List Text → Text
contents files [] = []
contents files (a ∷ argv) = first_text (files a) (contents files argv)

-- A program that prints the file it is given, and that reports one diagnostic on a check.
abbrev echo : System
echo = record {
  exec = λ files argv stdin. some (record {
    code = pos 0;
    out = contents files argv;
    err = if contains (codes "check") argv then codes "x" else [];
  });
  writes = λ files argv. [];
  has_systemd_run = false;
  has_wasm_tools = false;
  mem_cap = codes "1G";
  reference = codes "wax-ref";
  temporary = codes "tmp.wax";
  sha256 = λ t. t;
  decode = λ t. t;
  decode_strict = λ t. some t;
  encode = λ t. t;
}

abbrev dirs : Dirs
dirs = record { corpus = codes "c"; golden = codes "g" }

abbrev source : Text
source = codes "fn f() {}\n"

-- The wrapper of the reference and the binary that it runs are there.
abbrev files : Files
files p =
    if p == codes "wax-ref" || p == codes "asset"
    then some []
    else if p == codes "c/a.wax"
    then some source
    else if p == codes "g/a.reprint"
    then some source
    else if p == codes "g/a.diag.jsonl"
    then some (codes "x\n")
    else none

abbrev impl : List Text
impl = codes "wax-mb" ∷ []

abbrev modes : Modes
modes = record { oracle1 = same; oracle2 = same; oracle3 = same; oracle4 = same }

abbrev pub policy : Policy
policy = record {
  buckets = λ b. modes;
  gated = codes "severity" ∷ codes "startOffset" ∷ [];
  reported = codes "message" ∷ [];
  oracle2_route = native;
  self_test = false;
}

abbrev meta : Meta
meta = record {
  bucket = compiles_clean;
  reprint_code = pos 0;
  diag_code = pos 0;
  wasm_sha256 = some source;
}

abbrev loads : Loads
loads line = some ((codes "message", str line) ∷ [])

abbrev rel : Text
rel = codes "a.wax"

abbrev path : Text
path = codes "c/a.wax"

check_oracle1-passed_example :
    (check_oracle1 echo dirs files impl rel path meta fresh policy).passed ≡ 0 + 1
unfolding impl_run
check_oracle1-passed_example =
    (check_oracle1-passed echo dirs files impl rel path meta fresh policy source refl refl).1
      (refl, refl, (λ s. refl, λ s. (refl, refl)))

check_oracle2-passed_native_example :
    (check_oracle2 echo dirs (codes "r") files impl rel path meta fresh policy).passed ≡ 0 + 1
unfolding impl_run
check_oracle2-passed_native_example =
    (check_oracle2-passed_native echo dirs (codes "r") files impl rel path meta fresh policy 102
        (codes "n f() {}\n") refl refl refl).1
      (refl, refl)

abbrev policy_via : Policy
policy_via = record policy { oracle2_route = via_reference }

check_oracle2-passed_via_reference_example :
    (check_oracle2 echo dirs (codes "r") files impl rel path meta fresh policy_via).passed ≡ 0 + 1
unfolding impl_run wax flatten_path
check_oracle2-passed_via_reference_example =
    (check_oracle2-passed_via_reference echo dirs (codes "r") files impl rel path meta fresh
        policy_via 102 (codes "n f() {}\n") refl refl refl).1
      (refl, refl, refl)

check_oracle4-passed_example :
    (check_oracle4 echo files impl rel path meta fresh policy).passed ≡ 0 + 1
unfolding impl_run wax
check_oracle4-passed_example =
    (check_oracle4-passed echo files impl rel path meta fresh policy refl refl).1 (refl, refl)

abbrev reported : List Diagnostic
reported = ((codes "message", str (codes "x")) ∷ []) ∷ []

check_oracle3-passed_example : (pass fresh).passed ≡ fresh.passed + 1
unfolding check_oracle3 impl_run load_want load_got parse_jsonl grade_match exemption normalize_file
    get grade_gated note_reported
check_oracle3-passed_example =
    (check_oracle3-passed echo loads span_exempt dirs files impl rel path meta fresh policy reported
        reported (pass fresh) refl refl refl refl).1
      (refl, refl, refl, refl)

abbrev setting : Setting
setting = record {
  system = echo;
  loads = loads;
  exempt = span_exempt;
  dirs = dirs;
  report = codes "r";
  files = files;
  impl = impl;
  policy = policy;
  oracles = oracle1 ∷ oracle4 ∷ [];
}

-- The second file is not in the corpus.
abbrev index : List (Text × Meta)
index = (rel, meta) ∷ (codes "gone.wax", meta) ∷ []

abbrev results : Results
results = update (update no_results oracle1 (pass fresh)) oracle4 (pass fresh)

grade_files_totals_example :
    ((results oracle1).passed + (results oracle1).failed + (results oracle1).skipped ≡ 1)
    × (length (results oracle1).failures ≡ (results oracle1).failed)
unfolding grade_files grade_file absorb local_outcome check_oracle1 check_oracle4 impl_run wax
grade_files_totals_example = grade_files_totals setting index results oracle1 refl refl

cmd_run-status_example : ◌≡◌ {A = ℕ} 0 0
unfolding cmd_run grade_files grade_file absorb local_outcome check_oracle1 check_oracle4 impl_run
    wax
cmd_run-status_example =
    cmd_run-status setting (codes "asset") false 50 [] index results [] 0 (omega arith) refl

-- A mutant that fails as long as it has a quote.
abbrev has_quote : List Text → Bool
has_quote tokens = contains (codes "'") tokens

abbrev quoted : List Text
quoted = codes "fn" ∷ codes "'" ∷ codes "x" ∷ []

minimize_total_example :
    (kept : List Text) × (left : ℕ) × (minimize has_quote quoted 400 ≡ some (kept, left))
    × (has_quote kept ≡ true)
    × Subsequence kept quoted
    × (left ≤ 400)
    × (0 < left → IsMinimal has_quote kept)
minimize_total_example = minimize_total has_quote quoted 400 refl

-- Four attempts are enough here, and the quote alone is left.
minimize-quoted : minimize has_quote quoted 400 ≡ some (codes "'" ∷ [], 396)
unfolding minimize sweep
minimize-quoted = refl

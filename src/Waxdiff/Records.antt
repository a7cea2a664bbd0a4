-- ===== src/Waxdiff/Records.antt =====
-- What an oracle is told and what it records: the buckets, the policy (`load_policy`), `Failure` and
-- `Outcome`. The wording of a detail is a constructor that carries the values it is formatted from.
use wax_mb.Base.{ℕ, ◌+◌, ℤ, Text, Bool, Option, List, [], ◌∷◌, ◌++◌}
use wax_mb.Waxdiff.Diagnostics.{Value}

pub data Bucket : Type 0 where
  syntax_bad compiles_clean type_bad : Bucket

-- An expectation of test/oracle-policy.json; `same` is its word "match".
pub data Mode : Type 0 where
  skip same no_errors : Mode

pub record Modes : Type 0 where
  pub oracle1 : Mode
  pub oracle2 : Mode
  pub oracle3 : Mode
  pub oracle4 : Mode

pub data Route : Type 0 where
  via_reference native : Route

pub record Policy : Type 0 where
  pub buckets : Bucket → Modes
  pub gated : List Text
  pub reported : List Text
  pub oracle2_route : Route
  pub self_test : Bool

-- One file's entry in test/golden/index.json.
pub record Meta : Type 0 where
  pub bucket : Bucket
  pub reprint_code : ℤ
  pub diag_code : ℤ
  pub wasm_sha256 : Option Text

pub data Oracle : Type 0 where
  reprint idempotence wasm errors wat : Oracle

-- The verdicts of the two tiers of the ladder that do not gate.
pub data Tier : Type 0 where
  no_tools : Tier
  invalid : Text → Tier
  no_reference : Tier
  reference_exited : ℤ → Tier
  no_print : Tier
  equal : Tier
  differs : Text → Text → Tier

pub data Detail : Type 0 where
  exited : ℤ → Text → Detail
  text_diff : Text → Text → Detail
  now_stable : Detail
  binary_differs : Text → Text → Detail
  ladder : Text → Text → Tier → Detail
  does_not_compile : Text → Detail
  reported_errors : ℕ → Value → Detail
  exit_code : ℤ → ℤ → Detail
  diagnostic_count : ℕ → ℕ → Detail
  field_differs : ℕ → Text → Value → Value → Detail
  now_agrees : Detail
  non_json : Text → Detail

pub record Failure : Type 0 where
  pub file : Text
  pub oracle : Oracle
  pub detail : Detail

pub data Drift : Type 0 where
  tier_drift : Text → Tier → Drift
  span_drift : Text → ℕ → Text → Text → Value → Value → Drift
  field_drift : Text → ℕ → Text → Value → Value → Drift
  not_printed : Text → Text → Drift
  wat_drift : Text → Text → Text → Drift

pub record Outcome : Type 0 where
  pub passed : ℕ
  pub failed : ℕ
  pub skipped : ℕ
  pub failures : List Failure
  pub drift : List Drift

abbrev pub fresh : Outcome
fresh = record { passed = 0; failed = 0; skipped = 0; failures = []; drift = [] }

-- `out.passed += 1`, `out.skipped += 1`, and a failure counted with its entry
abbrev pub pass : Outcome → Outcome
pass out = record out { passed = out.passed + 1 }

abbrev pub skip_file : Outcome → Outcome
skip_file out = record out { skipped = out.skipped + 1 }

abbrev pub fail : Outcome → Failure → Outcome
fail out f = record out { failed = out.failed + 1; failures = out.failures ++ f ∷ [] }

abbrev pub note : Outcome → Drift → Outcome
note out d = record out { drift = out.drift ++ d ∷ [] }

-- CORPUS and GOLDEN, which `grade` rebinds.
pub record Dirs : Type 0 where
  pub corpus : Text
  pub golden : Text

-- `if policy["buckets"][...]["oracleN"] == "skip"`, and what is done otherwise
unfoldable pub unless_skipped : Mode → Outcome → Outcome → Outcome
unless_skipped skip skipped graded = skipped
unless_skipped _ skipped graded = graded

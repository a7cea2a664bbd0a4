-- ===== src/Waxdiff/Golden/Graded.antt =====
-- `run --self-test` over entries that are recorded.
use wax_mb.Base.{
  ℕ, zero, suc, pos, Text, ◌≡◌, ◌≢◌, ◌↔◌, refl, ap, sym, ◌∙◌, arith, Option, some, List, [], ◌∷◌,
  ◌==◌, eq_iff, list_eq, nat_eq, int_eq, if◌then◌else◌, Bool-cases, inl, inr, take, Every,
}
use wax_mb.Waxdiff.Process.{impl_run, Files, exists, System, wax, to_wax, to_wasm, check_json}
use wax_mb.Waxdiff.Records.{Mode, skip, same, no_errors, Meta, Outcome, Failure, Dirs}
use wax_mb.Waxdiff.Verdict.{IsClean}
use wax_mb.Waxdiff.Reprint.Laws.{IsStable}
use wax_mb.Waxdiff.Reprint.Clean.{check_oracle1-IsClean}
use wax_mb.Waxdiff.Binary.Clean.{check_oracle2-IsClean}
use wax_mb.Waxdiff.Errors.Clean.{check_oracle3-IsClean}
use wax_mb.Waxdiff.TextFormat.Clean.{check_oracle4-IsClean}
use wax_mb.Waxdiff.Report.{
  OracleId, oracle_eq, oracle1, oracle2, oracle3, oracle4, Setting, Results, corpus_path,
  local_outcome, combine, update, absorb, grade_file, grade_files, self_test_mode, self_test_policy,
  self_test_setting, failed_total, gating_failures, failure_report,
}
use wax_mb.Waxdiff.Golden.{Dumps, classify_one}
use wax_mb.Waxdiff.Golden.Recorded.{AgreeOutside, IsBlind, IsRecordable, IsRecorded}

-- What `classify_one` says of the exit codes and the hash
module _ (sys : System) (files : Files) (rel path : Text) where
  classify_one-wasm :
      (h : Text)
      → (classify_one sys files rel path).wasm_sha256 ≡ some h
      → ((wax sys files (to_wasm path)).code ≡ pos 0)
        × (sys.sha256 (wax sys files (to_wasm path)).out ≡ h)
  unfolding classify_one
  classify_one-wasm h e = ground (arith, eq_iff (wax sys files (to_wasm path)).code (pos 0))

  classify_one-diag_code :
      (classify_one sys files rel path).diag_code ≡ (wax sys files (check_json path)).code
  unfolding classify_one
  classify_one-diag_code = ground arith

IsStable-outside :
    (sys : System) (dirs : Dirs) (f g : Files) (path once : Text) (P : Type 0)
    → IsBlind sys dirs path
    → AgreeOutside dirs f g
    → IsStable sys f (sys.reference ∷ []) once ↔ P
    → IsStable sys g (sys.reference ∷ []) once ↔ P
unfolding impl_run wax
IsStable-outside sys dirs f g path once P blind agree h =
    let again =
      blind.reprints_temporary _ _ (λ q k.
        ap (λ (o : Option Text). if q == sys.temporary then some once else o) (agree q k)) in
    rw (← again) h

self_test-mode : (m : Mode) → self_test_mode m ≢ no_errors
self_test-mode skip e = cc
self_test-mode same e = cc
self_test-mode no_errors e = cc

-- The setting of the self-test, over the files `g`.
module _ (s : Setting) (dumps : Dumps) (files : Files) (rel : Text) (meta : Meta)
    (outside : AgreeOutside s.dirs files s.files)
    (can : IsRecordable s.system s.loads dumps s.dirs files rel)
    (r : IsRecorded s.system s.loads s.dirs files s.files (rel, meta)) where
  abbrev pub Fine : OracleId → Type 0
  Fine o =
      (out : Outcome) × (local_outcome (self_test_setting s) rel meta o ≡ some out) × IsClean out

  pub local_outcome-Fine : (o : OracleId) → Fine o
  unfolding local_outcome self_test_setting self_test_policy
  local_outcome-Fine oracle1 =
      let path = corpus_path s.dirs rel in
      let ran = sym (can.blind.reprints files s.files outside) in
      (
        _,
        refl,
        check_oracle1-IsClean s.system s.files rel path s.dirs meta (self_test_policy s.policy)
            (wax s.system files (to_wax path)) ran r.reprinted can.utf8
            (λ code.
              IsStable-outside s.system s.dirs files s.files path
                (wax s.system files (to_wax path)).out _ can.blind outside (can.stable code)),
      )
  local_outcome-Fine oracle2 =
      let path = corpus_path s.dirs rel in
      let same = ap (λ (m : Meta). m.wasm_sha256) r.indexed in
      (
        _,
        refl,
        check_oracle2-IsClean s.system s.dirs s.files rel path s.report meta
            (self_test_policy s.policy) (wax s.system files (to_wasm path)) refl
            (sym (can.blind.compiles files s.files outside))
            (λ h e. classify_one-wasm s.system files rel path h (sym same ∙ e)),
      )
  local_outcome-Fine oracle3 =
      let path = corpus_path s.dirs rel in
      check_oracle3-IsClean s.system s.loads s.exempt s.dirs s.files rel path meta
        (self_test_policy s.policy) r.diagnostics (wax s.system files (check_json path))
        (self_test_mode (s.policy.buckets meta.bucket).oracle3) refl
        (self_test-mode (s.policy.buckets meta.bucket).oracle3) refl
        (sym (can.blind.checks files s.files outside))
        (sym (
          ap (λ (m : Meta). m.diag_code) r.indexed
          ∙ classify_one-diag_code s.system files rel path))
        r.reported r.wanted
  local_outcome-Fine oracle4 = (_, refl, check_oracle4-IsClean s.system s.files rel _ meta _)

-- No oracle has a failure in its totals.
abbrev pub AllClean : Results → Type 0
AllClean r = (o : OracleId) → IsClean (r o)

combine-IsClean : (a b : Outcome) → IsClean a → IsClean b → IsClean (combine a b)
combine-IsClean a b h k = record {
  none_counted = omega (arith, h.none_counted, k.none_counted);
  none_listed = rw (h.none_listed, k.none_listed) refl;
}

update-AllClean :
    (r : Results) (o : OracleId) (out : Outcome)
    → AllClean r
    → IsClean out
    → AllClean (update r o (combine (r o) out))
update-AllClean r o out h k p = elim (Bool-cases (o == p)) [
  | inl e ↦ rw e (combine-IsClean (r o) out (h o) k)
  | inr e ↦ rw e (h p)
]

absorb-AllClean :
    (os : List OracleId) (local : OracleId → Option Outcome) (r : Results)
    → ((o : OracleId) → (out : Outcome) × (local o ≡ some out) × IsClean out)
    → AllClean r
    → (r' : Results) × (absorb os local r ≡ some r') × AllClean r'
unfolding absorb
absorb-AllClean [] local r fine h = (r, refl, h)
absorb-AllClean (o ∷ os) local r fine h =
    let (out, e, clean) = fine o in
    let (r', e', h') =
      absorb-AllClean os local (update r o (combine (r o) out)) fine
        (update-AllClean r o out h clean) in
    (r', rw e e', h')

module _ (s : Setting) where
  -- Every oracle ends at the file without a failure.
  abbrev pub EntryFine : Text × Meta → Type 0
  EntryFine e =
      (o : OracleId) → (out : Outcome) × (local_outcome s e.0 e.1 o ≡ some out) × IsClean out

  grade_file-AllClean :
      (rel : Text) (meta : Meta) (r : Results)
      → EntryFine (rel, meta)
      → AllClean r
      → (r' : Results) × (grade_file s rel meta r ≡ some r') × AllClean r'
  unfolding grade_file
  grade_file-AllClean rel meta r fine h =
      elim (Bool-cases (exists s.files (corpus_path s.dirs rel))) [
        | inl e ↦ rw e (absorb-AllClean s.oracles (local_outcome s rel meta) r fine h)
        | inr e ↦ rw e (r, refl, h)
      ]

  pub grade_files-AllClean :
      (index : List (Text × Meta)) (r : Results)
      → Every EntryFine index
      → AllClean r
      → (r' : Results) × (grade_files s index r ≡ some r') × AllClean r'
  unfolding grade_files
  grade_files-AllClean [] r fine h = (r, refl, h)
  grade_files-AllClean ((rel, meta) ∷ index) r (fine, fines) h =
      let (mid, e, k) = grade_file-AllClean rel meta r fine h in
      let (r', e', k') = grade_files-AllClean index mid fines k in (r', rw e e', k')

take-nil : (n : ℕ) → take {A = Failure} n [] ≡ []
take-nil zero = refl
take-nil (suc n) = refl

pub failed_total-AllClean : (os : List OracleId) (r : Results) → AllClean r → failed_total os r ≡ 0
unfolding failed_total
failed_total-AllClean [] r h = refl
failed_total-AllClean (o ∷ os) r h = rw ((h o).none_counted, failed_total-AllClean os r h) refl

pub failure_report-AllClean :
    (n : ℕ) (os : List OracleId) (r : Results) → AllClean r → failure_report n os r ≡ []
unfolding failure_report
failure_report-AllClean n [] r h = refl
failure_report-AllClean n (o ∷ os) r h =
    rw ((h o).none_listed, take-nil n, failure_report-AllClean n os r h) refl

pub gating-AllClean : (os : List OracleId) (r : Results) → AllClean r → gating_failures os r ≡ 0
unfolding gating_failures
gating-AllClean os r h = omega (arith, failed_total-AllClean os r h)

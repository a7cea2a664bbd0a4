-- ===== src/Waxdiff/Errors.antt =====
-- Oracle 3: `check_oracle3`, with `SPAN_FIELDS` and `SPAN_EXEMPT`.
pub mod Loop
pub mod Laws
pub mod Clean
use wax_mb.Base.{
  ℕ, ◌+◌, ℤ, Text, codes, Bool, true, false, not, ◌&&◌, Option, none, some, List, [], ◌∷◌, ◌++◌,
  map, ◌==◌, list_eq, nat_eq, int_eq, if◌then◌else◌, contains, remove_suffix, length, select,
}
use wax_mb.Waxdiff.Process.{Run, Files, System, impl_run, check_json}
use wax_mb.Waxdiff.Diagnostics.{
  Value, null, str, value_eq, Diagnostic, get, normalize_file, Loads, parse_jsonl,
}
use wax_mb.Waxdiff.Records.{
  Mode, skip, no_errors, same, Modes, Policy, Meta, Failure, Outcome, Dirs, errors, reported_errors,
  exit_code, diagnostic_count, field_differs, now_agrees, span_drift, field_drift, pass, skip_file,
  fail, note,
}

abbrev pub span_fields : List Text
span_fields =
    codes "startLine"
    ∷ codes "startColumn"
    ∷ codes "endLine"
    ∷ codes "endColumn"
    ∷ codes "startOffset"
    ∷ codes "endOffset"
    ∷ []

-- SPAN_EXEMPT, which `grade` extends for a mutant: a file and the reason that it carries.
abbrev pub Exemptions : Type 0
Exemptions = List (Text × Text)

abbrev pub span_exempt : Exemptions
span_exempt =
    (codes "docs/language__093.wax", codes "finding 9 (string span)")
    ∷ (codes "docs/language__095.wax", codes "finding 9 (string span)")
    ∷ (codes "fuzz/hint-attr-then-syntax-error.wax", codes "finding 12 (action timing)")
    ∷ (codes "fuzz/missing-params-then-syntax-error.wax", codes "finding 12 (action timing)")
    ∷ []

unfoldable pub exemption : Exemptions → Text → Option Text
exemption [] rel = none
exemption ((k, why) ∷ rest) rel = if k == rel then some why else exemption rest rel

-- How far the grading of the pairs has come: returned, or going on with `saw_span_divergence`.
pub data Grading : Type 0 where
  returned : Outcome → Grading
  going : Outcome → Bool → Grading

module _ (rel : Text) (why : Option Text) (i : ℕ) (w g : Diagnostic) where
  abbrev excused : Text → Bool
  excused f = elim why [ none ↦ false | some _ ↦ contains f span_fields ]

  abbrev reason : Text
  reason = elim why [ none ↦ [] | some r ↦ r ]

  -- the loop over `policy["gated"]`
  unfoldable pub grade_gated : List Text → Outcome → Bool → Grading
  grade_gated [] out saw = going out saw
  grade_gated (f ∷ fs) out saw = elim (get w f == get g f) [
    | true ↦ grade_gated fs out saw
    | false ↦ elim (excused f) [
      | true ↦ grade_gated fs (note out (span_drift rel i f reason (get w f) (get g f))) true
      | false ↦ returned (
          fail out (record {
            file = rel;
            oracle = errors;
            detail = field_differs i f (get g f) (get w f);
          }))
    ]
  ]

  -- the loop over `policy["reported"]`
  unfoldable pub note_reported : List Text → Outcome → Outcome
  note_reported [] out = out
  note_reported (f ∷ fs) out =
      note_reported fs
        (if get w f == get g f then out else note out (field_drift rel i f (get w f) (get g f)))

-- `for i, (w, g) in enumerate(zip(want, got))`
unfoldable pub grade_pairs :
    Text → Option Text → Policy → ℕ → List Diagnostic → List Diagnostic → Outcome → Bool → Grading
grade_pairs rel why policy i [] got out saw = going out saw
grade_pairs rel why policy i (w ∷ ws) [] out saw = going out saw
grade_pairs rel why policy i (w ∷ ws) (g ∷ gs) out saw =
    elim (grade_gated rel why i w g policy.gated out saw) [
      | returned out' ↦ returned out'
      | going out' saw' ↦
          grade_pairs rel why policy (i + 1) ws gs
            (note_reported rel why i w g policy.reported out') saw'
    ]

-- the staleness check of the exemption
finish : Text → Option Text → Policy → Grading → Outcome
finish rel why policy (returned out) = out
finish rel none policy (going out saw) = pass out
finish rel (some r) policy (going out saw) =
    if not saw && not policy.self_test
    then fail out (record { file = rel; oracle = errors; detail = now_agrees })
    else pass out

unfoldable pub is_error : Diagnostic → Bool
is_error d = get d (codes "severity") == str (codes "error")

abbrev pub first_message : List Diagnostic → Value
first_message [] = null
first_message (d ∷ ds) = get d (codes "message")

-- the mode "no-errors"
unfoldable pub grade_no_errors : Text → List Diagnostic → Outcome → Outcome
unfolding is_error
grade_no_errors rel got out =
    let found = select is_error got in
    if length found == 0
    then pass out
    else fail out (record {
      file = rel;
      oracle = errors;
      detail = reported_errors (length found) (first_message found);
    })

-- the mode "match"
unfoldable pub grade_match :
    Exemptions → Text → Meta → Policy → Run → List Diagnostic → List Diagnostic → Outcome → Outcome
unfolding grade_pairs finish
grade_match exempt rel meta policy got_run want got out =
    if not (got_run.code == meta.diag_code)
    then fail out
        (record { file = rel; oracle = errors; detail = exit_code got_run.code meta.diag_code })
    else if not (length got == length want)
    then fail out (record {
      file = rel;
      oracle = errors;
      detail = diagnostic_count (length got) (length want);
    })
    else finish rel (exemption exempt rel) policy
        (grade_pairs rel (exemption exempt rel) policy 0 want got out false)

abbrev pub diag_path : Dirs → Text → Text
diag_path dirs rel =
    dirs.golden ++ codes "/" ++ remove_suffix rel (codes ".wax") ++ codes ".diag.jsonl"

-- `parse_jsonl(want_path.read_text()) if want_path.exists() else []`
unfoldable pub load_want : System → Loads → Files → Text → Option (List Diagnostic)
load_want sys loads files path = elim (files path) [
  | none ↦ some []
  | some text ↦ parse_jsonl loads (sys.decode text)
]

abbrev pub grade_mode :
    Mode
    → Exemptions
    → Text
    → Meta
    → Policy
    → Run
    → List Diagnostic
    → List Diagnostic
    → Outcome
    → Outcome
grade_mode skip exempt rel meta policy got_run want got out = skip_file out
grade_mode no_errors exempt rel meta policy got_run want got out = grade_no_errors rel got out
grade_mode same exempt rel meta policy got_run want got out =
    grade_match exempt rel meta policy got_run want got out

-- The two sides that are compared; `none` is the JSONDecodeError of `parse_jsonl`.
unfoldable pub load_got : System → Loads → Run → Option (List Diagnostic)
load_got sys loads r = parse_jsonl loads (sys.decode r.err)

graded :
    (List Diagnostic → List Diagnostic → Outcome)
    → Option (List Diagnostic)
    → Option (List Diagnostic)
    → Option Outcome
graded f none got = none
graded f (some want) none = none
graded f (some want) (some got) = some (f (map normalize_file want) (map normalize_file got))

grade_errors :
    Mode
    → System
    → Loads
    → Exemptions
    → Dirs
    → Files
    → List Text
    → Text
    → Text
    → Meta
    → Outcome
    → Policy
    → Option Outcome
unfolding graded
grade_errors skip sys loads exempt dirs files impl rel path meta out policy = some (skip_file out)
grade_errors mode sys loads exempt dirs files impl rel path meta out policy =
    let got_run = impl_run sys files impl (check_json path) in
    graded (λ want got. grade_mode mode exempt rel meta policy got_run want got out)
      (load_want sys loads files (diag_path dirs rel)) (load_got sys loads got_run)

unfoldable pub check_oracle3 :
    System
    → Loads
    → Exemptions
    → Dirs
    → Files
    → List Text
    → Text
    → Text
    → Meta
    → Outcome
    → Policy
    → Option Outcome
unfolding grade_errors
check_oracle3 sys loads exempt dirs files impl rel path meta out policy =
    grade_errors (policy.buckets meta.bucket).oracle3 sys loads exempt dirs files impl rel path meta
      out policy

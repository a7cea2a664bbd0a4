-- ===== src/Waxdiff/Errors/Clean.antt =====
-- Oracle 3 at a file that is recorded, with the reference as the implementation.
use wax_mb.Base.{
  Text, true, or_true, ◌≡◌, ◌≢◌, refl, ap, sym, ◌∙◌, Option, some, List, [], ◌∷◌, map, eq_self,
  list_eq, nat_eq, int_eq, length-map, all,
}
use wax_mb.Waxdiff.Process.{Run, Files, System, wax, impl_run, impl_run-reference, check_json}
use wax_mb.Waxdiff.Diagnostics.{Diagnostic, Loads, parse_jsonl, normalize_file, get, value_eq}
use wax_mb.Waxdiff.Records.{
  Mode, skip, same, no_errors, Policy, Meta, Outcome, Dirs, fresh, skip_file,
}
use wax_mb.Waxdiff.Verdict.{IsClean, passed-IsClean, skip_file-IsClean}
use wax_mb.Waxdiff.Errors.{
  Exemptions, exemption, check_oracle3, diag_path, load_want, load_got, graded, grade_errors,
  grade_match,
}
use wax_mb.Waxdiff.Golden.Rows.{normalize_files_again}
use wax_mb.Waxdiff.Errors.Laws.{check_oracle3-passed, check_oracle3-CountsOnce}
use wax_mb.Waxdiff.Errors.Loop.{pairs_acceptable, acceptable}

all_agree :
    (why : Option Text) (d : Diagnostic) (fs : List Text) → all (acceptable why d d) fs ≡ true
all_agree why d [] = refl
all_agree why d (f ∷ fs) = rw (eq_self (get d f), all_agree why d fs) refl

pairs_agree :
    (why : Option Text) (gated : List Text) (ds : List Diagnostic)
    → pairs_acceptable why gated ds ds ≡ true
pairs_agree why gated [] = refl
pairs_agree why gated (d ∷ ds) = rw (all_agree why d gated, pairs_agree why gated ds) refl

graded-some :
    (f : List Diagnostic → List Diagnostic → Outcome) {want got : Option (List Diagnostic)}
    {w g : List Diagnostic}
    → want ≡ some w
    → got ≡ some g
    → graded f want got ≡ some (f (map normalize_file w) (map normalize_file g))
unfolding graded
graded-some f hw hg = rw (hw, hg, graded) refl

module _ (sys : System) (loads : Loads) (exempt : Exemptions) (dirs : Dirs) (g : Files)
    (rel path : Text) (meta : Meta) (policy : Policy) (ds : List Diagnostic) where
  load_got-reported :
      (run : Run) {r : Run}
      → run ≡ r
      → parse_jsonl loads (sys.decode r.err) ≡ some ds
      → load_got sys loads run ≡ some ds
  unfolding load_got
  load_got-reported run ran reported = rw ran reported

  -- Oracle 3 of the harness's test of itself: it ends, and without a failure.
  pub check_oracle3-IsClean :
      (r : Run) (m : Mode)
      → (policy.buckets meta.bucket).oracle3 ≡ m
      → m ≢ no_errors
      → policy.self_test ≡ true
      → wax sys g (check_json path) ≡ r
      → r.code ≡ meta.diag_code
      → parse_jsonl loads (sys.decode r.err) ≡ some ds
      → load_want sys loads g (diag_path dirs rel) ≡ some (map normalize_file ds)
      → (o : Outcome) × (check_oracle3 sys loads exempt dirs g
            (sys.reference ∷ [])
            rel
            path
            meta
            fresh
            policy
          ≡ some o)
        × IsClean o
  unfolding check_oracle3 grade_errors
  check_oracle3-IsClean r skip mode ne self_test ran code reported wanted =
      (skip_file fresh, rw mode refl, skip_file-IsClean)
  check_oracle3-IsClean r same mode ne self_test ran code reported wanted =
      let run = impl_run sys g (sys.reference ∷ []) (check_json path) in
      let ran' : run ≡ r = impl_run-reference sys g (check_json path) ∙ ran in
      let got : load_got sys loads run ≡ some ds = load_got-reported run ran' reported in
      let o =
        grade_match exempt rel meta policy run (map normalize_file (map normalize_file ds))
          (map normalize_file ds) fresh in
      let ends : check_oracle3 sys loads exempt dirs g (sys.reference ∷ []) rel path meta fresh
            policy
          ≡ some o =
        rw mode (
          graded-some (λ want got. grade_match exempt rel meta policy run want got fresh) wanted
            got) in
      let again = normalize_files_again ds in
      (
        o,
        ends,
        passed-IsClean o
            (check_oracle3-CountsOnce sys loads exempt dirs g (sys.reference ∷ []) rel path meta
              fresh policy o ends)
            ((check_oracle3-passed sys loads exempt dirs g (sys.reference ∷ []) rel path meta fresh
                policy (map normalize_file ds) ds o mode wanted got ends).1
              (
                ap (λ (x : Run). x.code) ran' ∙ code,
                sym (length-map normalize_file ds),
                rw again (pairs_agree (exemption exempt rel) policy.gated (map normalize_file ds)),
                rw (self_test, or_true) refl,
              )),
      )
  check_oracle3-IsClean r no_errors mode ne self_test ran code reported wanted = absurd (ne refl)

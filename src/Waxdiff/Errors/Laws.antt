-- ===== src/Waxdiff/Errors/Laws.antt =====
-- What `check_oracle3` decides.
use wax_mb.Base.{
  Text, ◌+◌, ◌≡◌, some_inj, subst, length-map, ◌↔◌, arith, eq_iff, List, list_eq, nat_eq, int_eq,
  Bool, true, false, Option, none, some, not, ◌||◌, length, map,
}
use wax_mb.Waxdiff.Process.{Run, Files, System, impl_run, check_json}
use wax_mb.Waxdiff.Diagnostics.{value_eq, Diagnostic, normalize_file, Loads}
use wax_mb.Waxdiff.Records.{Mode, skip, same, no_errors, Policy, Meta, Outcome, Dirs}
use wax_mb.Waxdiff.Verdict.{CountsOnce, CountsOnce-pass, CountsOnce-skip_file, verdict_rules}
use wax_mb.Waxdiff.Errors.{
  Exemptions, exemption, Grading, returned, going, finish, grade_no_errors, grade_match, grade_mode,
  diag_path, load_want, load_got, graded, grade_errors, check_oracle3,
}
use wax_mb.Waxdiff.Errors.Loop.{
  pairs_acceptable, pairs_differ, is_listed, GradingIs, grade_pairs-GradingIs, CountsOnce-after,
}

-- The exemption is not stale: an exempt file differs somewhere, or the harness tests itself.
abbrev pub fresh_exemption : Option Text → Policy → List Diagnostic → List Diagnostic → Bool
fresh_exemption why policy want got =
    not (is_listed why) || pairs_differ policy.gated want got || policy.self_test

finish-CountsOnce :
    (rel : Text) (why : Option Text) (policy : Policy) (fine saw : Bool) (out : Outcome)
    (g : Grading)
    → GradingIs fine saw out g
    → CountsOnce out (finish rel why policy g)
unfolding finish
finish-CountsOnce rel why policy fine saw out (returned o) h = h.1
finish-CountsOnce rel none policy fine saw out (going o s) h =
    CountsOnce-after out o _ h.2 (CountsOnce-pass o)
finish-CountsOnce rel (some r) policy fine saw out (going o s) h =
    CountsOnce-after out o _ h.2 (search verdict_rules)

finish-passed :
    (rel : Text) (why : Option Text) (policy : Policy) (fine saw : Bool) (out : Outcome)
    (g : Grading)
    → GradingIs fine saw out g
    → ((finish rel why policy g).passed ≡ out.passed + 1)
      ↔ ((fine ≡ true) × ((not (is_listed why) || saw || policy.self_test) ≡ true))
unfolding finish
finish-passed rel why policy fine saw out (returned o) h = ground arith
finish-passed rel none policy fine saw out (going o s) h = ground arith
finish-passed rel (some r) policy fine saw out (going o s) h = ground arith

module _ (exempt : Exemptions) (rel : Text) (meta : Meta) (policy : Policy) (run : Run)
    (want got : List Diagnostic) (out : Outcome) where
  grade_match-CountsOnce : CountsOnce out (grade_match exempt rel meta policy run want got out)
  unfolding grade_match
  grade_match-CountsOnce = search (
    verdict_rules,
    finish-CountsOnce rel (exemption exempt rel) policy _ _ out _
        (grade_pairs-GradingIs rel (exemption exempt rel) policy 0 want got out false),
  )

  grade_no_errors-CountsOnce : CountsOnce out (grade_no_errors rel got out)
  unfolding grade_no_errors
  grade_no_errors-CountsOnce = search verdict_rules

  -- In the mode "match" a file passes exactly if the exit codes agree, there are as many
  -- diagnostics as wanted, every gated field is acceptable and the exemption is not stale.
  pub grade_match-passed :
      ((grade_match exempt rel meta policy run want got out).passed ≡ out.passed + 1) ↔ (
        (run.code ≡ meta.diag_code)
        × (length got ≡ length want)
        × (pairs_acceptable (exemption exempt rel) policy.gated want got ≡ true)
        × (fresh_exemption (exemption exempt rel) policy want got ≡ true))
  unfolding grade_match
  grade_match-passed = ground (
    arith,
    eq_iff run.code meta.diag_code,
    eq_iff (length got) (length want),
    finish-passed rel (exemption exempt rel) policy _ _ out _
        (grade_pairs-GradingIs rel (exemption exempt rel) policy 0 want got out false),
  )

  grade_mode-CountsOnce :
      (m : Mode) → CountsOnce out (grade_mode m exempt rel meta policy run want got out)
  grade_mode-CountsOnce skip = search verdict_rules
  grade_mode-CountsOnce same = grade_match-CountsOnce
  grade_mode-CountsOnce no_errors = grade_no_errors-CountsOnce

graded-CountsOnce :
    (f : List Diagnostic → List Diagnostic → Outcome) (out : Outcome)
    (want got : Option (List Diagnostic)) (o : Outcome)
    → ((w g : List Diagnostic) → CountsOnce out (f w g))
    → graded f want got ≡ some o
    → CountsOnce out o
unfolding graded
graded-CountsOnce f out none got o c h = cc
graded-CountsOnce f out (some w) none o c h = cc
graded-CountsOnce f out (some w) (some g) o c h = subst (CountsOnce out) (some_inj h) (c _ _)

graded-eq :
    (f : List Diagnostic → List Diagnostic → Outcome) {want got : Option (List Diagnostic)}
    {w g : List Diagnostic} (o : Outcome)
    → want ≡ some w
    → got ≡ some g
    → graded f want got ≡ some o
    → f (map normalize_file w) (map normalize_file g) ≡ o
unfolding graded
graded-eq f o hw hg h = some_inj (rw (hw, hg, graded) at h)

grade_errors-CountsOnce :
    (sys : System) (loads : Loads) (exempt : Exemptions) (dirs : Dirs) (files : Files)
    (impl : List Text) (rel path : Text) (meta : Meta) (out : Outcome) (policy : Policy) (m : Mode)
    (o : Outcome)
    → grade_errors m sys loads exempt dirs files impl rel path meta out policy ≡ some o
    → CountsOnce out o
unfolding grade_errors
grade_errors-CountsOnce sys loads exempt dirs files impl rel path meta out policy skip o h =
    subst (CountsOnce out) (some_inj h) (CountsOnce-skip_file out)
grade_errors-CountsOnce sys loads exempt dirs files impl rel path meta out policy same o h =
    graded-CountsOnce _ out (load_want sys loads files (diag_path dirs rel))
      (load_got sys loads (impl_run sys files impl (check_json path))) o
      (λ w g.
        grade_match-CountsOnce exempt rel meta policy (impl_run sys files impl (check_json path)) w
          g out)
      h
grade_errors-CountsOnce sys loads exempt dirs files impl rel path meta out policy no_errors o h =
    graded-CountsOnce _ out (load_want sys loads files (diag_path dirs rel))
      (load_got sys loads (impl_run sys files impl (check_json path))) o
      (λ w g.
        grade_no_errors-CountsOnce exempt rel meta policy
          (impl_run sys files impl (check_json path)) w g out)
      h

module _ (sys : System) (loads : Loads) (exempt : Exemptions) (dirs : Dirs) (files : Files)
    (impl : List Text) (rel path : Text) (meta : Meta) (out : Outcome) (policy : Policy) where
  -- A run that does not raise counts its file once.
  pub check_oracle3-CountsOnce :
      (o : Outcome)
      → check_oracle3 sys loads exempt dirs files impl rel path meta out policy ≡ some o
      → CountsOnce out o
  unfolding check_oracle3
  check_oracle3-CountsOnce o h =
      grade_errors-CountsOnce sys loads exempt dirs files impl rel path meta out policy
        (policy.buckets meta.bucket).oracle3 o h

  -- Where oracle 3 asks for a match and both sides are JSON, the file passes exactly if the exit
  -- codes agree, there are as many diagnostics as wanted, every gated field of every pair agrees
  -- or is a span field of an exempt file, and an exempt file differs in some gated field (unless
  -- the harness tests itself).
  pub check_oracle3-passed :
      (want got : List Diagnostic) (o : Outcome)
      → (policy.buckets meta.bucket).oracle3 ≡ same
      → load_want sys loads files (diag_path dirs rel) ≡ some want
      → load_got sys loads (impl_run sys files impl (check_json path)) ≡ some got
      → check_oracle3 sys loads exempt dirs files impl rel path meta out policy ≡ some o
      → (o.passed ≡ out.passed + 1) ↔ (
          ((impl_run sys files impl (check_json path)).code ≡ meta.diag_code)
          × (length got ≡ length want)
          × (pairs_acceptable
                (exemption exempt rel)
                policy.gated
                (map normalize_file want)
                (map normalize_file got)
              ≡ true)
          × (fresh_exemption
                (exemption exempt rel)
                policy
                (map normalize_file want)
                (map normalize_file got)
              ≡ true))
  unfolding check_oracle3
  check_oracle3-passed want got o m w g h =
      let run = impl_run sys files impl (check_json path) in
      let h' : graded (λ want got. grade_match exempt rel meta policy run want got out)
            (load_want sys loads files (diag_path dirs rel)) (load_got sys loads run)
          ≡ some o =
        rw m at h in
      rw (← graded-eq (λ want got. grade_match exempt rel meta policy run want got out) o w g h') (
        simp length-map at (
          grade_match-passed exempt rel meta policy run (map normalize_file want)
            (map normalize_file got) out))

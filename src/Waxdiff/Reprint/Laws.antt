-- ===== src/Waxdiff/Reprint/Laws.antt =====
-- What `check_oracle1` decides.
use wax_mb.Base.{
  Option, none, pos, Text, ◌+◌, ◌≡◌, ◌↔◌, arith, eq_iff, List, list_eq, nat_eq, int_eq, false, some,
  contains, if◌then◌else◌,
}
use wax_mb.Waxdiff.Process.{Run, Files, System, write, impl_run, to_wax}
use wax_mb.Waxdiff.Records.{
  same, Policy, Meta, Outcome, Dirs, idempotence, now_stable, text_diff, pass,
}
use wax_mb.Waxdiff.Verdict.{CountsOnce, CountsOnce-pass, CountsOnce-fail, verdict_rules}
use wax_mb.Waxdiff.Reprint.{
  check_idempotent, compare_reprint, check_oracle1, non_idempotent_upstream, reprint_path,
  grade_reprint,
}

-- Formatting `once` again gives `once`.
abbrev pub IsStable : System → Files → List Text → Text → Type 0
IsStable sys files impl once =
    let twice = impl_run sys (write files sys.temporary once) impl (to_wax sys.temporary) in
    (twice.code ≡ pos 0) × (twice.out ≡ once)

module _ (sys : System) (files : Files) (impl : List Text) (rel : Text) (out : Outcome) where
  -- `check_idempotent` followed by the pass that its caller counts
  counted : Text → Outcome
  unfolding check_idempotent
  counted once =
      let (o, stable) = check_idempotent sys files impl rel once out in if stable then pass o else o

  counted-CountsOnce : (once : Text) → CountsOnce out (counted once)
  unfolding counted
  counted-CountsOnce once =
      let twice = impl_run sys (write files sys.temporary once) impl (to_wax sys.temporary) in
      ground (
        arith,
        CountsOnce-pass out,
        CountsOnce-fail out (record { file = rel; oracle = idempotence; detail = now_stable }),
        CountsOnce-fail out
            (record { file = rel; oracle = idempotence; detail = text_diff once twice.out }),
      )

  compare_reprint-CountsOnce :
      (path : Text) (got : Run) (want : Text)
      → CountsOnce out (compare_reprint sys files impl rel path out got want)
  unfolding compare_reprint counted
  compare_reprint-CountsOnce path got want = search (verdict_rules, counted-CountsOnce got.out)

  grade_reprint-CountsOnce :
      (path : Text) (golden : Option Text)
      → CountsOnce out (grade_reprint sys files impl rel path out golden)
  unfolding grade_reprint
  grade_reprint-CountsOnce path none = search verdict_rules
  grade_reprint-CountsOnce path (some want) = compare_reprint-CountsOnce path _ want

module _ (sys : System) (dirs : Dirs) (files : Files) (impl : List Text) (rel path : Text)
    (meta : Meta) (out : Outcome) (policy : Policy) where
  pub check_oracle1-CountsOnce :
      CountsOnce out (check_oracle1 sys dirs files impl rel path meta out policy)
  unfolding check_oracle1
  check_oracle1-CountsOnce = search (verdict_rules, grade_reprint-CountsOnce)

  -- Where oracle 1 is in force and the golden reprint is there, the file passes exactly if the
  -- implementation exits 0, prints the golden, and is stable on it exactly if the file is not
  -- listed as unstable upstream.
  pub check_oracle1-passed :
      (want : Text)
      → (policy.buckets meta.bucket).oracle1 ≡ same
      → files (reprint_path dirs rel) ≡ some want
      → ((check_oracle1 sys dirs files impl rel path meta out policy).passed ≡ out.passed + 1) ↔ (
          ((impl_run sys files impl (to_wax path)).code ≡ pos 0)
          × ((impl_run sys files impl (to_wax path)).out ≡ want)
          × (IsStable sys files impl want ↔ (contains rel non_idempotent_upstream ≡ false)))
  unfolding check_oracle1 check_idempotent
  check_oracle1-passed want m golden =
      let got = impl_run sys files impl (to_wax path) in
      let twice = impl_run sys (write files sys.temporary want) impl (to_wax sys.temporary) in
      rw (m, golden)
        (ground (
          arith,
          eq_iff got.out want,
          eq_iff twice.out want,
          eq_iff twice.code (pos 0),
          eq_iff got.code (pos 0),
        ))

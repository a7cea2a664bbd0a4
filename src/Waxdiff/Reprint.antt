-- ===== src/Waxdiff/Reprint.antt =====
-- Oracle 1: `check_oracle1` and `_check_idempotent`.
pub mod Laws
pub mod Clean
use wax_mb.Base.{
  ℤ, pos, Text, codes, Bool, true, false, not, ◌&&◌, Option, none, some, List, [], ◌∷◌, ◌++◌, ◌==◌,
  list_eq, nat_eq, int_eq, if◌then◌else◌, contains, remove_suffix,
}
use wax_mb.Waxdiff.Process.{Run, Files, write, System, impl_run, to_wax}
use wax_mb.Waxdiff.Records.{
  unless_skipped, Modes, Policy, Meta, Failure, Outcome, Dirs, reprint, idempotence, exited,
  text_diff, now_stable, pass, skip_file, fail,
}

abbrev pub non_idempotent_upstream : List Text
non_idempotent_upstream =
    codes "cram/custom-page-sizes__huge-pow2.wax" ∷ codes "docs/language__130_checked.wax" ∷ []

abbrev pub reprint_path : Dirs → Text → Text
reprint_path dirs rel =
    dirs.golden ++ codes "/" ++ remove_suffix rel (codes ".wax") ++ codes ".reprint"

-- The outcome, and whether the caller goes on to count a pass.
module _ (sys : System) where
  pub check_idempotent : Files → List Text → Text → Text → Outcome → Outcome × Bool
  check_idempotent files impl rel once out =
      let twice = impl_run sys (write files sys.temporary once) impl (to_wax sys.temporary) in
      let stable = twice.code == pos 0 && twice.out == once in
      let expected_unstable = contains rel non_idempotent_upstream in
      if stable && expected_unstable
      then (fail out (record { file = rel; oracle = idempotence; detail = now_stable }), false)
      else if not stable && not expected_unstable
      then (
        fail out (record { file = rel; oracle = idempotence; detail = text_diff once twice.out }),
        false,
      )
      else (out, true)

  compare_reprint : Files → List Text → Text → Text → Outcome → Run → Text → Outcome
  unfolding check_idempotent
  compare_reprint files impl rel path out got want =
      if not (got.code == pos 0)
      then fail out
          (record { file = rel; oracle = reprint; detail = exited got.code (sys.decode got.err) })
      else if not (got.out == want)
      then fail out (record { file = rel; oracle = reprint; detail = text_diff want got.out })
      else let (out', stable) = check_idempotent files impl rel got.out out in
        if stable then pass out' else out'

  grade_reprint : Files → List Text → Text → Text → Outcome → Option Text → Outcome
  grade_reprint files impl rel path out none = skip_file out
  grade_reprint files impl rel path out (some want) =
      compare_reprint files impl rel path out (impl_run sys files impl (to_wax path)) want

  unfoldable pub check_oracle1 :
      Dirs → Files → List Text → Text → Text → Meta → Outcome → Policy → Outcome
  unfolding grade_reprint compare_reprint unless_skipped
  check_oracle1 dirs files impl rel path meta out policy =
      unless_skipped (policy.buckets meta.bucket).oracle1 (skip_file out)
        (grade_reprint files impl rel path out (files (reprint_path dirs rel)))

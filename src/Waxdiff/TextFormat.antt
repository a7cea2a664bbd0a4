-- ===== src/Waxdiff/TextFormat.antt =====
-- Oracle 4: `check_oracle4`, which has no golden behind it.
pub mod Laws
pub mod Clean
use wax_mb.Base.{
  ℤ, pos, Text, codes, Bool, true, false, not, Option, none, some, List, [], ◌∷◌, ◌++◌, ◌==◌,
  list_eq, nat_eq, int_eq, if◌then◌else◌, strip,
}
use wax_mb.Waxdiff.Process.{Run, Files, System, wax, impl_run, to_wat}
use wax_mb.Waxdiff.Records.{
  unless_skipped, Modes, Policy, Meta, Failure, Outcome, wat, exited, text_diff, not_printed,
  wat_drift, pass, skip_file, fail, note,
}

module _ (sys : System) where
  compare_wat : Text → Run → Run → Outcome → Outcome
  compare_wat rel theirs ours out =
      let detail = strip (sys.decode ours.err) in
      if not (theirs.code == pos 0)
      then skip_file out
      else if not (ours.code == pos 0)
      then note (fail out (record { file = rel; oracle = wat; detail = exited ours.code detail }))
          (not_printed rel detail)
      else if not (ours.out == theirs.out)
      then note
          (fail out (record { file = rel; oracle = wat; detail = text_diff theirs.out ours.out }))
          (wat_drift rel theirs.out ours.out)
      else pass out

  unfoldable pub check_oracle4 : Files → List Text → Text → Text → Meta → Outcome → Policy → Outcome
  unfolding compare_wat unless_skipped
  check_oracle4 files impl rel path meta out policy =
      unless_skipped (policy.buckets meta.bucket).oracle4 (skip_file out)
        (compare_wat rel (wax sys files (to_wat path)) (impl_run sys files impl (to_wat path)) out)

-- ===== src/Waxdiff/TextFormat/Laws.antt =====
-- What `check_oracle4` decides.
use wax_mb.Base.{pos, Text, ◌+◌, ◌≡◌, ◌↔◌, arith, eq_iff, List, list_eq, nat_eq, int_eq}
use wax_mb.Waxdiff.Process.{Files, System, wax, impl_run, to_wat}
use wax_mb.Waxdiff.Records.{same, Policy, Meta, Outcome}
use wax_mb.Waxdiff.Verdict.{CountsOnce, verdict_rules}
use wax_mb.Waxdiff.TextFormat.{check_oracle4}

module _ (sys : System) (files : Files) (impl : List Text) (rel path : Text) (meta : Meta)
    (out : Outcome) (policy : Policy) where
  pub check_oracle4-CountsOnce :
      CountsOnce out (check_oracle4 sys files impl rel path meta out policy)
  unfolding check_oracle4
  check_oracle4-CountsOnce = search verdict_rules depth 9

  -- Where oracle 4 is in force and the reference prints the file, the file passes exactly if the
  -- implementation exits 0 and prints the same text.
  pub check_oracle4-passed :
      (policy.buckets meta.bucket).oracle4 ≡ same
      → (wax sys files (to_wat path)).code ≡ pos 0
      → ((check_oracle4 sys files impl rel path meta out policy).passed ≡ out.passed + 1) ↔ (
          ((impl_run sys files impl (to_wat path)).code ≡ pos 0)
          × ((impl_run sys files impl (to_wat path)).out ≡ (wax sys files (to_wat path)).out))
  unfolding check_oracle4
  check_oracle4-passed m r = ground (
    arith,
    eq_iff (impl_run sys files impl (to_wat path)).out (wax sys files (to_wat path)).out,
    eq_iff (impl_run sys files impl (to_wat path)).code (pos 0),
  )

-- ===== src/Waxdiff/TextFormat/Clean.antt =====
-- Oracle 4 with the reference as the implementation.
use wax_mb.Base.{pos, Text, [], ◌∷◌, ◌==◌, eq_self, list_eq, nat_eq, int_eq, Bool-cases, inl, inr}
use wax_mb.Waxdiff.Process.{Run, Files, System, wax, impl_run, impl_run-reference, to_wat}
use wax_mb.Waxdiff.Diagnostics.{value_eq}
use wax_mb.Waxdiff.Records.{Policy, Meta, fresh}
use wax_mb.Waxdiff.Verdict.{IsClean, skip_file-IsClean, pass-IsClean, unless_skipped-IsClean}
use wax_mb.Waxdiff.TextFormat.{compare_wat, check_oracle4}

same-IsClean : (sys : System) (rel : Text) (r : Run) → IsClean (compare_wat sys rel r r fresh)
unfolding compare_wat
same-IsClean sys rel r = elim (Bool-cases (r.code == pos 0)) [
  | inl e ↦ rw (e, eq_self r.out) pass-IsClean
  | inr e ↦ rw e skip_file-IsClean
]

pub check_oracle4-IsClean :
    (sys : System) (g : Files) (rel path : Text) (meta : Meta) (policy : Policy)
    → IsClean (check_oracle4 sys g (sys.reference ∷ []) rel path meta fresh policy)
unfolding check_oracle4
check_oracle4-IsClean sys g rel path meta policy =
    unless_skipped-IsClean (policy.buckets meta.bucket).oracle4
      (compare_wat sys rel (wax sys g (to_wat path))
        (impl_run sys g (sys.reference ∷ []) (to_wat path)) fresh)
      (rw (impl_run-reference sys g (to_wat path)) (same-IsClean sys rel (wax sys g (to_wat path))))

-- ===== src/Waxdiff/Reprint/Clean.antt =====
-- Oracle 1 at a file that is recorded, with the reference as the implementation.
use wax_mb.Base.{
  pos, Text, false, ◌≡◌, ◌↔◌, refl, ap, ◌∙◌, arith, none, some, List, [], ◌∷◌, ◌==◌, eq_iff,
  eq_self, list_eq, nat_eq, int_eq, if◌then◌else◌, Bool-cases, inl, inr, contains,
}
use wax_mb.Waxdiff.Process.{Run, Files, write, System, wax, impl_run, impl_run-reference, to_wax}
use wax_mb.Waxdiff.Diagnostics.{value_eq}
use wax_mb.Waxdiff.Records.{Policy, Meta, Dirs, fresh}
use wax_mb.Waxdiff.Verdict.{IsClean, skip_file-IsClean, pass-IsClean, unless_skipped-IsClean}
use wax_mb.Waxdiff.Reprint.{
  check_idempotent, compare_reprint, grade_reprint, check_oracle1, reprint_path,
  non_idempotent_upstream,
}
use wax_mb.Waxdiff.Reprint.Laws.{IsStable}

module _ (sys : System) (g : Files) (rel path : Text) where
  abbrev reference : List Text
  reference = sys.reference ∷ []

  compare_reprint-IsClean :
      (got : Run) (want : Text)
      → got.code ≡ pos 0
      → got.out ≡ want
      → IsStable sys g reference want ↔ (contains rel non_idempotent_upstream ≡ false)
      → IsClean (compare_reprint sys g reference rel path fresh got want)
  unfolding compare_reprint check_idempotent
  compare_reprint-IsClean got want code out stable =
      let twice = impl_run sys (write g sys.temporary want) reference (to_wax sys.temporary) in
      rw (code, out)
        (ground
          (arith, eq_self want, eq_iff twice.out want, eq_iff twice.code (pos 0), pass-IsClean))

  -- Oracle 1, from the golden reprint and what the reference does now.
  pub check_oracle1-IsClean :
      (dirs : Dirs) (meta : Meta) (policy : Policy) (r : Run)
      → wax sys g (to_wax path) ≡ r
      → g (reprint_path dirs rel)
        ≡ (if r.code == pos 0 then some (sys.encode (sys.decode r.out)) else none)
      → (r.code ≡ pos 0 → sys.encode (sys.decode r.out) ≡ r.out)
      → (r.code ≡ pos 0
          → IsStable sys g reference r.out ↔ (contains rel non_idempotent_upstream ≡ false))
      → IsClean (check_oracle1 sys dirs g reference rel path meta fresh policy)
  unfolding check_oracle1
  check_oracle1-IsClean dirs meta policy r ran golden utf8 stable =
      unless_skipped-IsClean (policy.buckets meta.bucket).oracle1
        (grade_reprint sys g reference rel path fresh (g (reprint_path dirs rel)))
        (elim (Bool-cases (r.code == pos 0)) [
          | inl e ↦
              let code = (eq_iff r.code (pos 0)).0 e in
              let want : g (reprint_path dirs rel) ≡ some r.out =
                golden ∙ (rw e refl) ∙ ap some (utf8 code) in
              let same_run = impl_run-reference sys g (to_wax path) ∙ ran in
              rw (want, grade_reprint)
                (compare_reprint-IsClean _ r.out (ap (λ (x : Run). x.code) same_run ∙ code)
                  (ap (λ (x : Run). x.out) same_run) (stable code))
          | inr e ↦
              let want : g (reprint_path dirs rel) ≡ none = golden ∙ (rw e refl) in
              rw (want, grade_reprint) skip_file-IsClean
        ])

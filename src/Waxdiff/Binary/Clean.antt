-- ===== src/Waxdiff/Binary/Clean.antt =====
-- Oracle 2 at a file that is recorded, with the reference as the implementation.
use wax_mb.Base.{
  pos, Text, ◌≡◌, refl, ◌∙◌, Option, none, some, List, [], ◌∷◌, eq_self, list_eq, nat_eq, int_eq,
}
use wax_mb.Waxdiff.Process.{Run, Files, System, wax, impl_run-reference, to_wasm}
use wax_mb.Waxdiff.Diagnostics.{value_eq}
use wax_mb.Waxdiff.Records.{Policy, Meta, Dirs, fresh, native}
use wax_mb.Waxdiff.Verdict.{IsClean, skip_file-IsClean, pass-IsClean, unless_skipped-IsClean}
use wax_mb.Waxdiff.Binary.{climb, check_native, grade_binary, check_oracle2}

module _ (sys : System) (dirs : Dirs) (g : Files) (rel path : Text) where
  abbrev reference : List Text
  reference = sys.reference ∷ []

  climb-IsClean :
      (got want : Text) → sys.sha256 got ≡ want → IsClean (climb sys dirs g rel got want fresh).0
  unfolding climb
  climb-IsClean got want h = rw (h, eq_self want) pass-IsClean

  check_native-IsClean :
      (want : Text) (built : Run)
      → wax sys g (to_wasm path) ≡ built
      → built.code ≡ pos 0
      → sys.sha256 built.out ≡ want
      → IsClean (check_native sys dirs g reference rel path want fresh)
  unfolding check_native
  check_native-IsClean want built ran code sha =
      let same_run = impl_run-reference sys g (to_wasm path) ∙ ran in
      rw (same_run, code) (climb-IsClean built.out want sha)

  grade_binary-IsClean :
      (report : Text) (built : Run) (sha : Option Text)
      → wax sys g (to_wasm path) ≡ built
      → ((h : Text) → sha ≡ some h → (built.code ≡ pos 0) × (sys.sha256 built.out ≡ h))
      → IsClean (grade_binary sys dirs report g reference rel path native fresh sha)
  unfolding grade_binary
  grade_binary-IsClean report built none ran hash = skip_file-IsClean
  grade_binary-IsClean report built (some []) ran hash = skip_file-IsClean
  grade_binary-IsClean report built (some (c ∷ s)) ran hash =
      let (code, sha) = hash (c ∷ s) refl in check_native-IsClean (c ∷ s) built ran code sha

  -- Oracle 2 on the native route, from the golden hash and what the reference does now.
  pub check_oracle2-IsClean :
      (report : Text) (meta : Meta) (policy : Policy) (built : Run)
      → policy.oracle2_route ≡ native
      → wax sys g (to_wasm path) ≡ built
      → ((h : Text) → meta.wasm_sha256 ≡ some h → (built.code ≡ pos 0) × (sys.sha256 built.out ≡ h))
      → IsClean (check_oracle2 sys dirs report g reference rel path meta fresh policy)
  unfolding check_oracle2
  check_oracle2-IsClean report meta policy built route ran hash =
      unless_skipped-IsClean (policy.buckets meta.bucket).oracle2
        (grade_binary sys dirs report g reference rel path policy.oracle2_route fresh
          meta.wasm_sha256)
        (rw route (grade_binary-IsClean report built meta.wasm_sha256 ran hash))

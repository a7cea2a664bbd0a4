-- ===== src/Waxdiff/Binary.antt =====
-- Oracle 2: `check_oracle2`, the ladder of tiers (`_ladder`) and `_stripped_wat`.
pub mod Laws
pub mod Clean
use wax_mb.Base.{
  ℤ, pos, Text, codes, Bool, true, false, not, Option, none, some, List, [], ◌∷◌, ◌++◌, ◌==◌,
  list_eq, nat_eq, int_eq, if◌then◌else◌,
}
use wax_mb.Waxdiff.Process.{Run, Files, write, exists, System, run, wax, impl_run, to_wax, to_wasm}
use wax_mb.Waxdiff.Records.{
  unless_skipped, Modes, Policy, Meta, Failure, Outcome, Dirs, Route, via_reference, native, wasm,
  exited, binary_differs, ladder, does_not_compile, Tier, no_tools, invalid, no_reference,
  reference_exited, no_print, equal, differs, tier_drift, pass, skip_file, fail, note,
}

-- `rel.replace("/", "__")` under REPORT / "tmp"
unfoldable pub flatten_path : Text → Text
flatten_path [] = []
flatten_path (c ∷ s) = (if c == 47 then codes "__" else c ∷ []) ++ flatten_path s

module _ (sys : System) where
  pub wasm_tools : Files → Option Text → List Text → Run
  wasm_tools files stdin args = run sys files false stdin (codes "wasm-tools" ∷ args)

  pub stripped_wat : Files → Text → Option Text
  unfolding wasm_tools
  stripped_wat files binary =
      let src = sys.temporary in
      let dst = sys.temporary ++ codes ".stripped" in
      let before = write files src binary in
      let argv = codes "wasm-tools" ∷ codes "strip" ∷ codes "--all" ∷ src ∷ codes "-o" ∷ dst ∷ [] in
      let stripped = run sys before false none argv in
      let after = write before dst (sys.writes before argv) in
      let printed = wasm_tools after none (codes "print" ∷ dst ∷ []) in
      if not (stripped.code == pos 0)
      then none
      else if printed.code == pos 0
      then some printed.out
      else none

  -- T1, on the two texts
  abbrev tier_of : Option Text → Option Text → Tier
  tier_of none theirs = no_print
  tier_of (some ours) none = no_print
  tier_of (some ours) (some theirs) = if ours == theirs then equal else differs theirs ours

  -- T0 and T1, for bytes that missed the hash
  pub tiers : Dirs → Files → Text → Text → Tier
  unfolding stripped_wat
  tiers dirs files rel got =
      let valid =
        wasm_tools files (some got)
          (codes "validate" ∷ codes "--features" ∷ codes "all" ∷ codes "-" ∷ []) in
      let ref = wax sys files (to_wasm (dirs.corpus ++ codes "/" ++ rel)) in
      if not sys.has_wasm_tools
      then no_tools
      else if not (valid.code == pos 0)
      then invalid (sys.decode valid.err)
      else if not (exists files sys.reference)
      then no_reference
      else if not (ref.code == pos 0)
      then reference_exited ref.code
      else tier_of (stripped_wat files got) (stripped_wat files ref.out)

  -- the two verdicts that are noted as drift
  abbrev pub drift_of : Text → Tier → Outcome → Outcome
  drift_of rel (invalid e) out = note out (tier_drift rel (invalid e))
  drift_of rel equal out = note out (tier_drift rel equal)
  drift_of rel _ out = out

  pub climb : Dirs → Files → Text → Text → Text → Outcome → Outcome × Bool
  unfolding tiers
  climb dirs files rel got want_sha out =
      let tier = tiers dirs files rel got in
      if sys.sha256 got == want_sha then (pass out, true) else (
        drift_of rel tier (
            fail out (record {
              file = rel;
              oracle = wasm;
              detail = ladder want_sha (sys.sha256 got) tier;
            })),
        false,
      )

  pub check_native : Dirs → Files → List Text → Text → Text → Text → Outcome → Outcome
  unfolding climb
  check_native dirs files impl rel path want_sha out =
      let built = impl_run sys files impl (to_wasm path) in
      if not (built.code == pos 0)
      then fail out
          (record { file = rel; oracle = wasm; detail = exited built.code (sys.decode built.err) })
      else (climb dirs files rel built.out want_sha out).0

  -- `mid`, the file under test/report/tmp that holds our reprint
  pub check_via_reference : Files → List Text → Text → Text → Text → Text → Outcome → Outcome
  check_via_reference files impl rel path mid want_sha out =
      let printed = impl_run sys files impl (to_wax path) in
      let built = wax sys (write files mid printed.out) (to_wasm mid) in
      if not (printed.code == pos 0)
      then fail out (record { file = rel; oracle = wasm; detail = exited printed.code [] })
      else if not (built.code == pos 0)
      then fail out
          (record { file = rel; oracle = wasm; detail = does_not_compile (sys.decode built.err) })
      else if not (sys.sha256 built.out == want_sha)
      then fail out (record {
        file = rel;
        oracle = wasm;
        detail = binary_differs want_sha (sys.sha256 built.out);
      })
      else pass out

  -- `not want_sha` holds of a missing hash and of an empty one.
  grade_binary :
      Dirs → Text → Files → List Text → Text → Text → Route → Outcome → Option Text → Outcome
  grade_binary dirs report files impl rel path route out none = skip_file out
  grade_binary dirs report files impl rel path route out (some []) = skip_file out
  grade_binary dirs report files impl rel path native out (some (c ∷ s)) =
      check_native dirs files impl rel path (c ∷ s) out
  grade_binary dirs report files impl rel path via_reference out (some (c ∷ s)) =
      check_via_reference files impl rel path (report ++ codes "/tmp/" ++ flatten_path rel) (c ∷ s)
        out

  unfoldable pub check_oracle2 :
      Dirs → Text → Files → List Text → Text → Text → Meta → Outcome → Policy → Outcome
  unfolding grade_binary check_native check_via_reference unless_skipped
  check_oracle2 dirs report files impl rel path meta out policy =
      unless_skipped (policy.buckets meta.bucket).oracle2 (skip_file out)
        (grade_binary dirs report files impl rel path policy.oracle2_route out meta.wasm_sha256)

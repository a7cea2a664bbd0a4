-- ===== src/Waxdiff/Fuzz/Grade.antt =====
-- `grade` and `_reference_reproduces_instability`.
use wax_mb.Base.{
  pos, is_positive, int_eq, Text, codes, Bool, true, false, not, ◌&&◌, Option, none, some, List, [],
  ◌∷◌, ◌++◌, ◌==◌, list_eq, nat_eq, if◌then◌else◌, ◌>>=◌, contains, any, select, strip,
}
use wax_mb.Waxdiff.Process.{Run, Files, write, System, wax, impl_run, to_wax, check_json}
use wax_mb.Waxdiff.Diagnostics.{Loads, parse_jsonl}
use wax_mb.Waxdiff.Records.{
  Policy, Meta, Failure, idempotence, errors, non_json, Outcome, fresh, Dirs,
}
use wax_mb.Waxdiff.Reprint.{check_oracle1}
use wax_mb.Waxdiff.Binary.{check_oracle2}
use wax_mb.Waxdiff.Errors.{Exemptions, check_oracle3, diag_path}
use wax_mb.Waxdiff.Golden.{Dumps, classify_one, write_golden}
use wax_mb.Waxdiff.Report.{OracleId, oracle1, oracle2, oracle3, oracle_eq}
use wax_mb.Waxdiff.Fuzz.Findings.{is_finding9, is_finding12}

module _ (sys : System) where
  abbrev same_end : Run → Run → Run → Bool
  same_end once ours theirs =
      if not (ours.code == theirs.code)
      then false
      else if not (ours.code == pos 0)
      then is_positive ours.code
        && ours.err == theirs.err
        && not (strip ours.err == codes "waxdiff: timed out")
      else not (ours.out == once.out) && theirs.out == ours.out

  pub reproduces_instability : Files → List Text → Text → Bool
  reproduces_instability files impl path =
      let once = impl_run sys files impl (to_wax path) in
      let after = write files sys.temporary once.out in
      if not (once.code == pos 0)
      then false
      else same_end once (impl_run sys after impl (to_wax sys.temporary))
          (wax sys after (to_wax sys.temporary))

abbrev is_idempotence : Failure → Bool
is_idempotence f = elim f.oracle [ idempotence ↦ true | _ ↦ false ]

abbrev pub mutant : Text
mutant = codes "mutant.wax"

-- The exemption that a mutant is given while it is graded.
pub mutant_exempt : Exemptions → Bool → Bool → Exemptions
mutant_exempt exempt true is12 = (mutant, codes "finding 9 (string span)") ∷ exempt
mutant_exempt exempt false true = (mutant, codes "finding 12 (action timing)") ∷ exempt
mutant_exempt exempt false false = exempt

-- What does not change from mutant to mutant; `dirs` is the scratch directory.
pub record Bench : Type 0 where
  pub system : System
  pub loads : Loads
  pub dumps : Dumps
  pub exempt : Exemptions
  pub dirs : Dirs
  pub report : Text
  pub impl : List Text
  pub policy : Policy
  pub oracles : List OracleId

module _ (b : Bench) where
  open b use {system, loads, dumps, exempt, dirs, report, impl, policy, oracles}

  abbrev pub mutant_path : Text
  mutant_path = dirs.corpus ++ codes "/" ++ mutant

  -- The calls of the three oracles on one `Outcome`.
  pub grade_oracles : Exemptions → Files → Meta → Option Outcome
  grade_oracles exempt' files meta =
      let out1 =
        if contains oracle1 oracles
        then check_oracle1 system dirs files impl mutant mutant_path meta fresh policy
        else fresh in
      let out2 =
        if contains oracle2 oracles
        then check_oracle2 system dirs report files impl mutant mutant_path meta out1 policy
        else out1 in
      if contains oracle3 oracles
      then check_oracle3 system loads exempt' dirs files impl mutant mutant_path meta out2 policy
      else some out2

  -- An idempotence failure that the reference shares is dropped.
  pub excuse : Files → List Failure → List Failure
  unfolding reproduces_instability
  excuse files failures =
      if any is_idempotence failures && reproduces_instability system files impl mutant_path
      then select (λ f. not (is_idempotence f)) failures
      else failures

  finish : Exemptions → Files → Meta → Option (List Failure)
  unfolding grade_oracles excuse
  finish exempt' files meta = do
    out ← grade_oracles exempt' files meta
    some (excuse files out.failures)

  -- The mutant against its golden diagnostics, whose file is there.
  with_golden : Text → Files → Meta → Text → Option (List Failure)
  unfolding finish
  with_golden src files meta golden =
      let text = system.decode (impl_run system files impl (check_json mutant_path)).err in
      do
        want ← parse_jsonl loads (system.decode golden)
        elim (parse_jsonl loads text) [
          | none ↦ some (record { file = mutant; oracle = errors; detail = non_json text } ∷ [])
          | some got ↦ do
            is9 ← is_finding9 (system.encode src) want got policy
            is12 ← (if is9 then some false else is_finding12 want got policy)
            finish (mutant_exempt exempt is9 is12) files meta
        ]

  grade_from : Text → Option (Files × Meta) → Option (List Failure)
  unfolding with_golden
  grade_from src none = some []
  grade_from src (some (files, meta)) = elim (files (diag_path dirs mutant)) [
    | none ↦ finish exempt files meta
    | some golden ↦ with_golden src files meta golden
  ]

  -- `none` is an exception that `grade` does not catch. A mutant on which the reference does not
  -- print JSON is no find.
  unfoldable pub grade : Files → Text → Option (List Failure)
  unfolding grade_from
  grade files src =
      let start = write files mutant_path (system.encode src) in
      grade_from src
        (write_golden system loads dumps dirs start (classify_one system start mutant mutant_path))

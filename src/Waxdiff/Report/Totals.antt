-- ===== src/Waxdiff/Report/Totals.antt =====
-- The totals of `cmd_run` account for every file, and its exit status is that of the gating oracles.
use wax_mb.Base.{
  ℕ, suc, ◌+◌, ◌*◌, ◌≤◌, Text, ◌≡◌, ◌↔◌, refl, ap, subst, arith, Bool, true, false, ◌||◌, ◌&&◌, not,
  Option, none, some, some_inj, >>=-eq-some, List, [], ◌∷◌, ◌==◌, eq_iff, nat_eq, length,
  length-append, if◌then◌else◌, Bool-cases, inl, inr, contains,
}
use native.Mathlib.Nat.{add_assoc, mul-one, mul-add}
use wax_mb.Waxdiff.Process.{exists}
use wax_mb.Waxdiff.Records.{Meta, Outcome, Failure, fresh}
use wax_mb.Waxdiff.Verdict.{CountsOnce}
use wax_mb.Waxdiff.Reprint.Laws.{check_oracle1-CountsOnce}
use wax_mb.Waxdiff.Binary.Laws.{check_oracle2-CountsOnce}
use wax_mb.Waxdiff.Errors.Laws.{check_oracle3-CountsOnce}
use wax_mb.Waxdiff.TextFormat.Laws.{check_oracle4-CountsOnce}
use wax_mb.Waxdiff.Report.{
  OracleId, oracle1, oracle2, oracle3, oracle4, oracle_eq, cmd_run, Setting, Results, corpus_path,
  local_outcome, combine, update, absorb, grade_file, grade_files, no_results, failed_total,
  gating_failures, ended, self_test_setting, reference_missing, finished,
}

local_outcome-CountsOnce :
    (s : Setting) (rel : Text) (meta : Meta) (o : OracleId) (out : Outcome)
    → local_outcome s rel meta o ≡ some out
    → CountsOnce fresh out
unfolding local_outcome
local_outcome-CountsOnce s rel meta oracle1 out h =
    subst (CountsOnce fresh) (some_inj h)
      (check_oracle1-CountsOnce s.system s.dirs s.files s.impl rel _ meta fresh s.policy)
local_outcome-CountsOnce s rel meta oracle2 out h =
    subst (CountsOnce fresh) (some_inj h)
      (check_oracle2-CountsOnce s.system s.dirs s.report s.files s.impl rel _ meta fresh s.policy)
local_outcome-CountsOnce s rel meta oracle3 out h =
    check_oracle3-CountsOnce s.system s.loads s.exempt s.dirs s.files s.impl rel _ meta fresh
      s.policy out h
local_outcome-CountsOnce s rel meta oracle4 out h =
    subst (CountsOnce fresh) (some_inj h)
      (check_oracle4-CountsOnce s.system s.files s.impl rel _ meta fresh s.policy)

abbrev pub graded : Outcome → ℕ
graded out = out.passed + out.failed + out.skipped

-- How often an oracle is listed, and how many files of the index are in the corpus.
abbrev pub occurrences : OracleId → List OracleId → ℕ
occurrences o [] = 0
occurrences o (p ∷ os) = if p == o then suc (occurrences o os) else occurrences o os

abbrev pub present : Setting → List (Text × Meta) → ℕ
present s [] = 0
present s ((rel, meta) ∷ rest) =
    if exists s.files (corpus_path s.dirs rel) then suc (present s rest) else present s rest

-- Every count is of a graded file, and every failure counted is written down.
pub record Accounts (n : ℕ) (out : Outcome) : Type 0 where
  pub total : graded out ≡ n
  pub recorded : length out.failures ≡ out.failed

combine-Accounts :
    (n : ℕ) (a b : Outcome) → Accounts n a → CountsOnce fresh b → Accounts (n + 1) (combine a b)
combine-Accounts n a b h c = omega (arith, length-append a.failures b.failures)

-- The oracle that is added to gains a file, and no other changes.
update-Accounts :
    (o p : OracleId) (n : ℕ) (r : Results) (out : Outcome)
    → Accounts n (r o)
    → CountsOnce fresh out
    → Accounts (n + (if p == o then 1 else 0)) (update r p (combine (r p) out) o)
update-Accounts o p n r out h c = elim (Bool-cases (p == o)) [
  | inl e ↦ rw (e, (eq_iff p o).0 e) (combine-Accounts n (r o) out h c)
  | inr e ↦ rw e (omega arith)
]

occurrences-cons :
    (o p : OracleId) (os : List OracleId)
    → occurrences o (p ∷ os) ≡ (if p == o then 1 else 0) + occurrences o os
occurrences-cons o p os = ground arith

module _ (s : Setting) (rel : Text) (meta : Meta) (o : OracleId) where
  absorb-Accounts :
      (n : ℕ) (os : List OracleId) (r r' : Results)
      → Accounts n (r o)
      → absorb os (local_outcome s rel meta) r ≡ some r'
      → Accounts (n + occurrences o os) (r' o)
  unfolding absorb
  absorb-Accounts n [] r r' h e =
      subst (λ (t : Results). Accounts (n + 0) (t o)) (some_inj e) (omega arith)
  absorb-Accounts n (p ∷ os) r r' h e =
      let (out, q, e') = >>=-eq-some (local_outcome s rel meta p) _ e in
      rw (occurrences-cons o p os, ← add_assoc)
        (absorb-Accounts (n + (if p == o then 1 else 0)) os (update r p (combine (r p) out)) r'
          (update-Accounts o p n r out h (local_outcome-CountsOnce s rel meta p out q)) e')

  grade_file-Accounts :
      (n : ℕ) (r r' : Results)
      → Accounts n (r o)
      → grade_file s rel meta r ≡ some r'
      → Accounts (n + occurrences o s.oracles * present s ((rel, meta) ∷ [])) (r' o)
  unfolding grade_file
  grade_file-Accounts n r r' h e = elim (Bool-cases (exists s.files (corpus_path s.dirs rel))) [
    | inl q ↦ rw q (rw (mul-one) (absorb-Accounts n s.oracles r r' h (rw q at e)))
    | inr q ↦ rw q (
        subst (λ (t : Results). Accounts (n + occurrences o s.oracles * 0) (t o))
          (some_inj (let e' : some r ≡ some r' = rw q at e in e')) (omega arith))
  ]

present-cons :
    (s : Setting) (rel : Text) (meta : Meta) (rest : List (Text × Meta))
    → present s ((rel, meta) ∷ rest) ≡ present s ((rel, meta) ∷ []) + present s rest
present-cons s rel meta rest = ground arith

grade_files-Accounts :
    (s : Setting) (o : OracleId) (n : ℕ) (index : List (Text × Meta)) (r r' : Results)
    → Accounts n (r o)
    → grade_files s index r ≡ some r'
    → Accounts (n + occurrences o s.oracles * present s index) (r' o)
unfolding grade_files
grade_files-Accounts s o n [] r r' h e =
    subst (λ (t : Results). Accounts (n + occurrences o s.oracles * 0) (t o)) (some_inj e)
      (omega arith)
grade_files-Accounts s o n ((rel, meta) ∷ rest) r r' h e =
    let (mid, q, e') = >>=-eq-some (grade_file s rel meta r) _ e in
    rw (present-cons s rel meta rest, mul-add, ← add_assoc)
      (grade_files-Accounts s o (n + occurrences o s.oracles * present s ((rel, meta) ∷ [])) rest
        mid r' (grade_file-Accounts s rel meta o n r mid h q) e')

-- For an oracle that is listed once, the totals of a run that raises nothing count every file of
-- the index that is in the corpus exactly once, and list as many failures as they count.
pub grade_files_totals :
    (s : Setting) (index : List (Text × Meta)) (r : Results) (o : OracleId)
    → occurrences o s.oracles ≡ 1
    → grade_files s index no_results ≡ some r
    → ((r o).passed + (r o).failed + (r o).skipped ≡ present s index)
      × (length (r o).failures ≡ (r o).failed)
grade_files_totals s index r o once e =
    let h : Accounts (0 + occurrences o s.oracles * present s index) (r o) =
      grade_files-Accounts s o 0 index no_results r (omega arith) e in
    let h' : Accounts (0 + 1 * present s index) (r o) = rw once at h in (omega arith, h'.recorded)

-- The oracles whose failures end the run with status 1.
abbrev pub is_gating : OracleId → Bool
is_gating oracle4 = false
is_gating _ = true

abbrev pub gating_failed : List OracleId → Results → Bool
gating_failed [] r = false
gating_failed (o ∷ os) r = (is_gating o && not ((r o).failed == 0)) || gating_failed os r

gating_sum : List OracleId → Results → ℕ
gating_sum [] r = 0
gating_sum (o ∷ os) r = (if is_gating o then (r o).failed else 0) + gating_sum os r

gating_sum-zero :
    (os : List OracleId) (r : Results) → (gating_sum os r ≡ 0) ↔ (gating_failed os r ≡ false)
unfolding gating_sum
gating_sum-zero [] r = ground arith
gating_sum-zero (o ∷ os) r = ground (arith, gating_sum-zero os r)

failed_total-eq :
    (os : List OracleId) (r : Results)
    → failed_total os r ≡ gating_sum os r + occurrences oracle4 os * (r oracle4).failed
unfolding gating_sum failed_total
failed_total-eq [] r = omega arith
failed_total-eq (oracle1 ∷ os) r = omega (arith, failed_total-eq os r)
failed_total-eq (oracle2 ∷ os) r = omega (arith, failed_total-eq os r)
failed_total-eq (oracle3 ∷ os) r = omega (arith, failed_total-eq os r)
failed_total-eq (oracle4 ∷ os) r = omega (arith, failed_total-eq os r)

occurs :
    (o : OracleId) (os : List OracleId)
    → occurrences o os ≤ 1
    → occurrences o os ≡ (if contains o os then 1 else 0)
occurs o [] h = refl
occurs o (p ∷ os) h = elim (Bool-cases (p == o)) [
  | inl e ↦ ground (arith, occurs o os, eq_iff p o, eq_iff o p)
  | inr e ↦ ground (arith, occurs o os, eq_iff p o, eq_iff o p)
]

gating_failures-eq :
    (os : List OracleId) (r : Results)
    → occurrences oracle4 os ≤ 1
    → gating_failures os r ≡ gating_sum os r
unfolding gating_failures
gating_failures-eq os r h = elim (Bool-cases (contains oracle4 os)) [
  | inl e ↦ rw e (
      omega (
        arith,
        failed_total-eq os r,
        ap (λ (n : ℕ). n * (r oracle4).failed) (rw e at (occurs oracle4 os h)),
      ))
  | inr e ↦ rw e (
      omega (
        arith,
        failed_total-eq os r,
        ap (λ (n : ℕ). n * (r oracle4).failed) (rw e at (occurs oracle4 os h)),
      ))
]

ended-status :
    (max_report : ℕ) (os : List OracleId) (res : Option Results) (r : Results)
    (report : List Failure) (status : ℕ)
    → occurrences oracle4 os ≤ 1
    → ended max_report os res ≡ finished r report status
    → status ≡ (if gating_failed os r then 1 else 0)
unfolding ended
ended-status max_report os none r report status h e = cc
ended-status max_report os (some r0) r report status h e =
    ground (arith, gating_failures-eq os r h, gating_sum-zero os r)

guarded-status :
    (s : Setting) (missing : Bool) (max_report : ℕ) (index : List (Text × Meta)) (r : Results)
    (report : List Failure) (status : ℕ)
    → occurrences oracle4 s.oracles ≤ 1
    → (if missing
        then reference_missing
        else ended max_report s.oracles (grade_files s index no_results))
      ≡ finished r report status
    → status ≡ (if gating_failed s.oracles r then 1 else 0)
guarded-status s true max_report index r report status h e = cc
guarded-status s false max_report index r report status h e =
    ended-status max_report s.oracles _ r report status h e

-- A run that finishes, with oracle 4 listed at most once, has status 1 if oracle 1, 2 or 3 is
-- listed and has a failure, and status 0 otherwise, whatever oracle 4 found.
pub cmd_run-status :
    (s : Setting) (asset : Text) (self_test : Bool) (max_report : ℕ) (pattern : Text)
    (index : List (Text × Meta)) (r : Results) (report : List Failure) (status : ℕ)
    → occurrences oracle4 s.oracles ≤ 1
    → cmd_run s asset self_test max_report pattern index ≡ finished r report status
    → status ≡ (if gating_failed s.oracles r then 1 else 0)
unfolding cmd_run
cmd_run-status s asset true max_report pattern index r report status h e =
    guarded-status (self_test_setting s) _ max_report _ r report status h e
cmd_run-status s asset false max_report pattern index r report status h e =
    guarded-status s _ max_report _ r report status h e

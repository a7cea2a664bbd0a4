-- ===== src/Waxdiff/Verdict.antt =====
-- What every oracle owes to the totals of `cmd_run`, with a rule for each way to end a grading.
use wax_mb.Base.{
  List, refl, ◌+◌, ◌≤◌, ◌≡◌, length, length-append, arith, Bool, true, false, [], ◌∷◌,
  if◌then◌else◌,
}
use wax_mb.Waxdiff.Records.{
  Outcome, Failure, Drift, Mode, fresh, skip, same, no_errors, pass, skip_file, fail, note,
  unless_skipped,
}

-- One file was graded: one of the three counters went up by one and the other two stayed, and a
-- failure was written down exactly if one was counted.
pub record CountsOnce (out out' : Outcome) : Type 0 where
  pub one : out'.passed + out'.failed + out'.skipped ≡ out.passed + out.failed + out.skipped + 1
  pub passed_grows : out.passed ≤ out'.passed
  pub failed_grows : out.failed ≤ out'.failed
  pub skipped_grows : out.skipped ≤ out'.skipped
  pub recorded : length out'.failures + out.failed ≡ length out.failures + out'.failed

pub CountsOnce-pass : (out : Outcome) → CountsOnce out (pass out)
CountsOnce-pass out = omega arith

pub CountsOnce-skip_file : (out : Outcome) → CountsOnce out (skip_file out)
CountsOnce-skip_file out = omega arith

pub CountsOnce-fail : (out : Outcome) (f : Failure) → CountsOnce out (fail out f)
CountsOnce-fail out f = omega (arith, length-append out.failures (f ∷ []))

module _ (out : Outcome) where
  pub CountsOnce-note : (o : Outcome) (d : Drift) → CountsOnce out o → CountsOnce out (note o d)
  CountsOnce-note o d h = omega arith

  pub CountsOnce-if :
      (b : Bool) (x y : Outcome)
      → (b ≡ true → CountsOnce out x)
      → (b ≡ false → CountsOnce out y)
      → CountsOnce out (if b then x else y)
  CountsOnce-if true x y hx hy = hx refl
  CountsOnce-if false x y hx hy = hy refl

  pub CountsOnce-unless_skipped :
      (m : Mode) (x y : Outcome)
      → CountsOnce out x
      → CountsOnce out y
      → CountsOnce out (unless_skipped m x y)
  unfolding unless_skipped
  CountsOnce-unless_skipped skip x y hx hy = hx
  CountsOnce-unless_skipped same x y hx hy = hy
  CountsOnce-unless_skipped no_errors x y hx hy = hy

pub ruleset verdict_rules = (
  CountsOnce-pass, CountsOnce-skip_file, CountsOnce-fail, CountsOnce-note, CountsOnce-if,
  CountsOnce-unless_skipped,
)

-- No failure was counted, and none written down.
pub record IsClean (out : Outcome) : Type 0 where
  pub none_counted : out.failed ≡ 0
  pub none_listed : out.failures ≡ []

nil_of_length : (fs : List Failure) → length fs ≡ 0 → fs ≡ []
nil_of_length [] h = refl
nil_of_length (f ∷ fs) h = absurd (omega arith)

pub passed-IsClean : (o : Outcome) → CountsOnce fresh o → o.passed ≡ 0 + 1 → IsClean o
passed-IsClean o c h =
    let n : o.failed ≡ 0 = omega (arith, c.one) in
    record { none_counted = n; none_listed = nil_of_length o.failures (omega (arith, c.recorded)) }

pub skip_file-IsClean : IsClean (skip_file fresh)
skip_file-IsClean = record { none_counted = refl; none_listed = refl }

pub pass-IsClean : IsClean (pass fresh)
pass-IsClean = record { none_counted = refl; none_listed = refl }

pub unless_skipped-IsClean :
    (m : Mode) (o : Outcome) → IsClean o → IsClean (unless_skipped m (skip_file fresh) o)
unfolding unless_skipped
unless_skipped-IsClean skip o h = skip_file-IsClean
unless_skipped-IsClean same o h = h
unless_skipped-IsClean no_errors o h = h

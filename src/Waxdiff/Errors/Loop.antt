-- ===== src/Waxdiff/Errors/Loop.antt =====
-- The loops of `check_oracle3` over the pairs of diagnostics and over their fields.
use wax_mb.Base.{
  or_true, or_false, ℕ, Text, ◌+◌, ◌≡◌, refl, ap, sym, arith, List, [], ◌∷◌, list_eq, nat_eq,
  int_eq, Bool, true, false, Option, none, some, not, ◌&&◌, ◌||◌, ◌==◌, if◌then◌else◌, all, any,
  contains, length,
}
use wax_mb.Waxdiff.Diagnostics.{value_eq, Diagnostic, get}
use wax_mb.Waxdiff.Records.{Policy, Failure, Drift, Outcome, fail, note, span_drift, field_drift}
use wax_mb.Waxdiff.Verdict.{CountsOnce, CountsOnce-fail}
use wax_mb.Waxdiff.Errors.{
  span_fields, Grading, returned, going, grade_gated, excused, reason, note_reported, grade_pairs,
}

abbrev pub differs_at : Diagnostic → Diagnostic → Text → Bool
differs_at w g f = not (get w f == get g f)

abbrev pub is_listed : Option Text → Bool
is_listed none = false
is_listed (some why) = true

-- A gated field agrees, or the file is exempt and the field is one of the span fields.
abbrev pub acceptable : Option Text → Diagnostic → Diagnostic → Text → Bool
acceptable why w g f = not (differs_at w g f) || (is_listed why && contains f span_fields)

abbrev pub pairs_acceptable : Option Text → List Text → List Diagnostic → List Diagnostic → Bool
pairs_acceptable why gated [] got = true
pairs_acceptable why gated (w ∷ ws) [] = true
pairs_acceptable why gated (w ∷ ws) (g ∷ gs) =
    all (acceptable why w g) gated && pairs_acceptable why gated ws gs

abbrev pub pairs_differ : List Text → List Diagnostic → List Diagnostic → Bool
pairs_differ gated [] got = false
pairs_differ gated (w ∷ ws) [] = false
pairs_differ gated (w ∷ ws) (g ∷ gs) = any (differs_at w g) gated || pairs_differ gated ws gs

or_assoc : (a b c : Bool) → (a || (b || c)) ≡ ((a || b) || c)
or_assoc a b c = ground arith

-- Only drift was noted.
pub record SameCounts (a b : Outcome) : Type 0 where
  pub passed : b.passed ≡ a.passed
  pub failed : b.failed ≡ a.failed
  pub skipped : b.skipped ≡ a.skipped
  pub failures : b.failures ≡ a.failures

SameCounts-trans : (a b c : Outcome) → SameCounts a b → SameCounts b c → SameCounts a c
SameCounts-trans a b c h k = ground arith

abbrev pub GradingIs : Bool → Bool → Outcome → Grading → Type 0
GradingIs fine saw out (returned o) = (fine ≡ false) × CountsOnce out o × (o.passed ≡ out.passed)
GradingIs fine saw out (going o s) = (fine ≡ true) × (s ≡ saw) × SameCounts out o

pub CountsOnce-after : (a b o : Outcome) → SameCounts a b → CountsOnce b o → CountsOnce a o
CountsOnce-after a b o s c =
    omega (arith, ap (λ (l : List Failure). length l) s.failures, s.passed, s.failed, s.skipped)

GradingIs-after :
    (fine saw : Bool) (a b : Outcome) (r : Grading)
    → SameCounts a b
    → GradingIs fine saw b r
    → GradingIs fine saw a r
GradingIs-after fine saw a b (returned o) s h =
    (h.0, CountsOnce-after a b o s h.1, omega (arith, s.passed))
GradingIs-after fine saw a b (going o s') s h = ground arith

-- One field: it agrees, or it is excused, or the grading returns.
gated_step :
    (agree ex fine diff saw : Bool) (out : Outcome) (f : Failure) (d : Drift) (r r' : Grading)
    → GradingIs fine (saw || diff) out r
    → GradingIs fine true (note out d) r'
    → GradingIs
        ((not (not agree) || ex) && fine)
        (saw || (not agree || diff))
        out
        (elim agree [ true ↦ r | false ↦ elim ex [ true ↦ r' | false ↦ returned (fail out f) ] ])
gated_step true ex fine diff saw out f d r r' h h' = h
gated_step false true fine diff saw out f d r r' h h' =
    rw (or_true saw) (GradingIs-after fine true out (note out d) r' (ground arith) h')
gated_step false false fine diff saw out f d r r' h h' = (refl, CountsOnce-fail out f, refl)

excused-eq :
    (rel : Text) (why : Option Text) (i : ℕ) (w g : Diagnostic) (f : Text)
    → excused rel why i w g f ≡ (is_listed why && contains f span_fields)
excused-eq rel none i w g f = refl
excused-eq rel (some r) i w g f = refl

module _ (rel : Text) (why : Option Text) (i : ℕ) (w g : Diagnostic) where
  grade_gated-GradingIs :
      (fs : List Text) (out : Outcome) (saw : Bool)
      → GradingIs
          (all (acceptable why w g) fs)
          (saw || any (differs_at w g) fs)
          out
          (grade_gated rel why i w g fs out saw)
  unfolding grade_gated
  grade_gated-GradingIs [] out saw = (refl, sym (or_false saw), ground arith)
  grade_gated-GradingIs (f ∷ fs) out saw = rw (← excused-eq rel why i w g f) (
      gated_step (get w f == get g f) (excused rel why i w g f) (all (acceptable why w g) fs)
        (any (differs_at w g) fs) saw out _
        (span_drift rel i f (reason rel why i w g) (get w f) (get g f)) _ _
        (grade_gated-GradingIs fs out saw) (grade_gated-GradingIs fs _ true))

  note_reported-SameCounts :
      (fs : List Text) (out : Outcome) → SameCounts out (note_reported rel why i w g fs out)
  unfolding note_reported
  note_reported-SameCounts [] out = ground arith
  note_reported-SameCounts (f ∷ fs) out = ground (
    arith,
    note_reported-SameCounts fs
        (if get w f == get g f then out else note out (field_drift rel i f (get w f) (get g f))),
  )

and_false : (a b : Bool) → a ≡ false → (a && b) ≡ false
and_false a b h = ground arith

pair_step :
    (rel : Text) (why : Option Text) (policy : Policy) (i : ℕ) (w g : Diagnostic)
    (ws gs : List Diagnostic) (out : Outcome) (saw : Bool) (r : Grading)
    → GradingIs
        (all (acceptable why w g) policy.gated)
        (saw || any (differs_at w g) policy.gated)
        out
        r
    → ((o : Outcome) (s : Bool)
        → GradingIs
            (pairs_acceptable why policy.gated ws gs)
            (s || pairs_differ policy.gated ws gs)
            (note_reported rel why i w g policy.reported o)
            (grade_pairs rel why policy
              (i + 1)
              ws
              gs
              (note_reported rel why i w g policy.reported o)
              s))
    → GradingIs
        (pairs_acceptable why policy.gated (w ∷ ws) (g ∷ gs))
        (saw || pairs_differ policy.gated (w ∷ ws) (g ∷ gs))
        out
        (elim r [
          | returned out' ↦ returned out'
          | going out' saw' ↦
              grade_pairs rel why policy
                (i + 1)
                ws
                gs
                (note_reported rel why i w g policy.reported out')
                saw'
        ])
pair_step rel why policy i w g ws gs out saw (returned o) (fine, counts, same_passed) next =
    (and_false _ _ fine, counts, same_passed)
pair_step rel why policy i w g ws gs out saw (going o s) (fine, e, s') next =
    rw (fine, or_assoc saw, ← e)
      (GradingIs-after _ _ out (note_reported rel why i w g policy.reported o) _
        (SameCounts-trans out o _ s' (note_reported-SameCounts rel why i w g policy.reported o))
        (next o s))

pub grade_pairs-GradingIs :
    (rel : Text) (why : Option Text) (policy : Policy) (i : ℕ) (ws gs : List Diagnostic)
    (out : Outcome) (saw : Bool)
    → GradingIs
        (pairs_acceptable why policy.gated ws gs)
        (saw || pairs_differ policy.gated ws gs)
        out
        (grade_pairs rel why policy i ws gs out saw)
unfolding grade_pairs
grade_pairs-GradingIs rel why policy i [] gs out saw = (refl, sym (or_false saw), ground arith)
grade_pairs-GradingIs rel why policy i (w ∷ ws) [] out saw =
    (refl, sym (or_false saw), ground arith)
grade_pairs-GradingIs rel why policy i (w ∷ ws) (g ∷ gs) out saw =
    pair_step rel why policy i w g ws gs out saw _
      (grade_gated-GradingIs rel why i w g policy.gated out saw)
      (λ o s.
        grade_pairs-GradingIs rel why policy (i + 1) ws gs
          (note_reported rel why i w g policy.reported o) s)

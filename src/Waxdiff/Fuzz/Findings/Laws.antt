-- ===== src/Waxdiff/Fuzz/Findings/Laws.antt =====
-- What the two shapes promise to `grade` and to `check_oracle3`.
use wax_mb.Base.{
  int_eq, Text, Bool, true, false, not, ◌||◌, ◌≡◌, refl, arith, Option, some, >>=-eq-some, List, [],
  ◌∷◌, ◌++◌, ◌==◌, list_eq, nat_eq, eq_iff, Bool-cases, inl, inr, if◌then◌else◌, length, all, any,
  contains, contains-append, all_of_contains, all_intro, any_mono,
}
use wax_mb.Waxdiff.Diagnostics.{value_eq, Diagnostic, get, get_absent}
use wax_mb.Waxdiff.Records.{Policy}
use wax_mb.Waxdiff.Errors.{span_fields}
use wax_mb.Waxdiff.Errors.Loop.{acceptable, differs_at, pairs_acceptable, pairs_differ}
use wax_mb.Waxdiff.Fuzz.Findings.{
  keys, agrees_at, core_agrees, spans_differ, finding9_pair, finding9_pairs, is_finding9,
}

-- A check over the fields that either diagnostic has is a check over all fields.
pub core_agrees-acceptable :
    (gated : List Text) (w g : Diagnostic) (why k : Text)
    → core_agrees gated w g ≡ true
    → contains k gated ≡ true
    → acceptable (some why) w g k ≡ true
unfolding core_agrees
core_agrees-acceptable gated w g why k h m = elim (Bool-cases (contains k (keys w ++ keys g))) [
  | inl here ↦ ground (arith, all_of_contains (agrees_at gated w g) k (keys w ++ keys g) h here)
  | inr gone ↦
      let parts : (contains k (keys w) || contains k (keys g)) ≡ false =
        rw contains-append at gone in
      ground (arith, get_absent w k, get_absent g k, eq_iff (get w k) (get g k))
]

finding9_pair-true :
    (raw : Text) (gated : List Text) (w g : Diagnostic)
    → finding9_pair raw gated w g ≡ some true
    → (core_agrees gated w g ≡ true) × (spans_differ w g ≡ true)
unfolding finding9_pair
finding9_pair-true raw gated w g h = ground arith

-- All span fields are gated.
abbrev pub gates_spans : List Text → Bool
gates_spans gated = all (λ f. contains f gated) span_fields

finding9_pair-graded :
    (raw : Text) (gated : List Text) (w g : Diagnostic) (why : Text)
    → gates_spans gated ≡ true
    → finding9_pair raw gated w g ≡ some true
    → (all (acceptable (some why) w g) gated ≡ true) × (any (differs_at w g) gated ≡ true)
finding9_pair-graded raw gated w g why s h =
    let (core, spans) = finding9_pair-true raw gated w g h in
    (
      all_intro (acceptable (some why) w g) gated
          (λ k m. core_agrees-acceptable gated w g why k core m),
      any_mono (differs_at w g) span_fields gated s (unfold spans_differ in spans),
    )

-- What a round of the loop has shown if the loop returns True.
both_true :
    (pair pairs : Option Bool) (same : Bool)
    → pair ≡ some same
    → (elim same [ true ↦ pairs | false ↦ some false ]) ≡ some true
    → (pair ≡ some true) × (pairs ≡ some true)
both_true pair pairs true e rest = (e, rest)
both_true pair pairs false e rest = ground arith

finding9_pairs-graded :
    (raw : Text) (gated : List Text) (why : Text)
    → gates_spans gated ≡ true
    → (ws gs : List Diagnostic) → finding9_pairs raw gated ws gs ≡ some true
    → pairs_acceptable (some why) gated ws gs ≡ true
unfolding finding9_pairs
finding9_pairs-graded raw gated why s [] gs h = refl
finding9_pairs-graded raw gated why s (w ∷ ws) [] h = refl
finding9_pairs-graded raw gated why s (w ∷ ws) (g ∷ gs) h =
    let (same, e, rest) = >>=-eq-some (finding9_pair raw gated w g) _ h in
    let (pair, pairs) =
      both_true (finding9_pair raw gated w g) (finding9_pairs raw gated ws gs) same e rest in
    rw
      (
        (finding9_pair-graded raw gated w g why s pair).0,
        finding9_pairs-graded raw gated why s ws gs pairs,
      )
      refl

-- The first pair of a list that passes differs in a gated field.
finding9_pairs-differ :
    (raw : Text) (gated : List Text)
    → gates_spans gated ≡ true
    → (w : Diagnostic) (ws : List Diagnostic) (g : Diagnostic) (gs : List Diagnostic)
    → finding9_pairs raw gated (w ∷ ws) (g ∷ gs) ≡ some true
    → pairs_differ gated (w ∷ ws) (g ∷ gs) ≡ true
unfolding finding9_pairs
finding9_pairs-differ raw gated s w ws g gs h =
    let (same, e, rest) = >>=-eq-some (finding9_pair raw gated w g) _ h in
    let (pair, pairs) =
      both_true (finding9_pair raw gated w g) (finding9_pairs raw gated ws gs) same e rest in
    rw ((finding9_pair-graded raw gated w g [] s pair).1) refl

guarded :
    (want got : List Diagnostic) (rest : Option Bool)
    → (if not (length want == length got) || length want == 0 then some false else rest) ≡ some true
    → (length got ≡ length want) × (rest ≡ some true)
guarded want got rest h = ground arith

-- If all span fields are gated, diagnostics of the shape of finding 9 are as many on both sides,
-- agree in every gated field up to the exemption of span fields, and do differ in a gated field:
-- an exemption given for that shape excuses the mutant and is not reported as stale.
pub is_finding9-excused :
    (raw : Text) (want got : List Diagnostic) (policy : Policy) (why : Text)
    → gates_spans policy.gated ≡ true
    → is_finding9 raw want got policy ≡ some true
    → (length got ≡ length want)
      × (pairs_acceptable (some why) policy.gated want got ≡ true)
      × (pairs_differ policy.gated want got ≡ true)
unfolding is_finding9
is_finding9-excused raw [] got policy why s h = ground arith
is_finding9-excused raw (w ∷ ws) [] policy why s h = ground arith
is_finding9-excused raw (w ∷ ws) (g ∷ gs) policy why s h =
    let (size, pairs) = guarded (w ∷ ws) (g ∷ gs) _ h in
    (
      size,
      finding9_pairs-graded raw policy.gated why s (w ∷ ws) (g ∷ gs) pairs,
      finding9_pairs-differ raw policy.gated s w ws g gs pairs,
    )

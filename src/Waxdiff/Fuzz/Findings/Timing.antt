-- ===== src/Waxdiff/Fuzz/Findings/Timing.antt =====
-- What the shape of finding 12 promises to `check_oracle3`.
use wax_mb.Base.{
  int_eq, Text, Bool, true, false, not, ◌≡◌, refl, sym, ◌∙◌, arith, some, List, [], ◌∷◌, list_eq,
  nat_eq, Bool-cases, inl, inr, all, any, contains, all_intro, any_mono, any_of_contains, or_false,
}
use wax_mb.Waxdiff.Diagnostics.{value_eq, Diagnostic}
use wax_mb.Waxdiff.Records.{Policy}
use wax_mb.Waxdiff.Errors.{span_fields}
use wax_mb.Waxdiff.Errors.Loop.{acceptable, differs_at, pairs_acceptable, pairs_differ}
use wax_mb.Waxdiff.Fuzz.Findings.{core_agrees, spans_differ, finding12_pair, is_finding12}
use wax_mb.Waxdiff.Fuzz.Findings.Laws.{core_agrees-acceptable, gates_spans}

finding12_pair-core :
    (gated : List Text) (w g : Diagnostic)
    → finding12_pair gated w g ≡ some true
    → core_agrees gated w g ≡ true
unfolding finding12_pair
finding12_pair-core gated w g h = ground arith

any_none : (p : Text → Bool) (xs : List Text) → all (λ x. not (p x)) xs ≡ true → any p xs ≡ false
any_none p [] h = refl
any_none p (x ∷ xs) h = ground (arith, any_none p xs)

-- Apart from the span fields, nothing that is gated differs.
differs-spans :
    (gated : List Text) (w g : Diagnostic)
    → gates_spans gated ≡ true
    → core_agrees gated w g ≡ true
    → any (differs_at w g) gated ≡ spans_differ w g
unfolding spans_differ
differs-spans gated w g s core = elim (Bool-cases (any (differs_at w g) span_fields)) [
  | inl moved ↦ any_mono (differs_at w g) span_fields gated s moved ∙ sym moved
  | inr fixed ↦
      any_none (differs_at w g) gated (
        all_intro (λ k. not (differs_at w g k)) gated
          (λ k m. elim (Bool-cases (differs_at w g k)) [
            | inr same ↦ rw same refl
            | inl other ↦
                let listed : contains k span_fields ≡ true =
                  ground (arith, core_agrees-acceptable gated w g [] k core m) in
                let moved : any (differs_at w g) span_fields ≡ true =
                  any_of_contains (differs_at w g) k span_fields other listed in
                cc
          ]))
      ∙ sym fixed
]

-- If all span fields are gated, a diagnostic on each side of the shape of finding 12 agree in every
-- gated field up to the exemption of span fields, and differ in a gated field exactly if their span
-- fields differ: an exemption given for the shape is reported as stale where they do not.
pub is_finding12-excused :
    (w g : Diagnostic) (policy : Policy) (why : Text)
    → gates_spans policy.gated ≡ true
    → is_finding12 (w ∷ []) (g ∷ []) policy ≡ some true
    → (pairs_acceptable (some why) policy.gated (w ∷ []) (g ∷ []) ≡ true)
      × (pairs_differ policy.gated (w ∷ []) (g ∷ []) ≡ spans_differ w g)
unfolding is_finding12
is_finding12-excused w g policy why s h =
    let core = finding12_pair-core policy.gated w g h in
    (
      rw
          (all_intro (acceptable (some why) w g) policy.gated
            (λ k m. core_agrees-acceptable policy.gated w g why k core m))
          refl,
      or_false (any (differs_at w g) policy.gated) ∙ differs-spans policy.gated w g s core,
    )

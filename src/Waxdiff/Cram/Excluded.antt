-- ===== src/Waxdiff/Cram/Excluded.antt =====
-- Which tests `cmd_classify_cram` excludes, and the reason that it gives.
use mathlib.Core.List.{Memᴰ}
use mathlib.Core.List.Memᴰ.{
  head, tail, cases_cons, not-nil, append_left, append_right, append_cases, of_map, map as mem_map,
}
use wax_mb.Base.{
  Text, codes, true, false, Option, none, some, none-ne-some, some_inj, List, [], ◌∷◌, ◌≡◌, ◌↔◌,
  ◌⊎◌, refl, sym, ◌∙◌, ap, subst, list_eq, nat_eq, has_substring, Bool-cases, inl, inr,
  Option-cases, map,
}
use wax_mb.Waxdiff.Cram.{Reason, outside, cram_commands}
use wax_mb.Waxdiff.Cram.Scope.{
  cram_reason, reasons_of, test_reasons, reason_text, text_less, least, select_test, Selection,
  classify,
}
use wax_mb.Waxdiff.Cram.Wordings.{least-IsLeast, least-only}

-- The reason is one of a command of the test, or the test has the text `../`.
abbrev pub HasReason : Text → Reason → Type 0
HasReason text r =
    ((cmd : Text) × Memᴰ cmd (cram_commands text) × (cram_reason cmd ≡ some r))
    ⊎ ((has_substring text (codes "../") ≡ true) × (r ≡ outside))

-- The wording is that of a reason of the test, and the first of them in the order of texts.
pub IsFirstReason : (Text → Text) → Text → Text → Type 0
IsFirstReason repr text why =
    ((r : Reason) × HasReason text r × (reason_text repr r ≡ why))
    × ((r : Reason) → HasReason text r → text_less (reason_text repr r) why ≡ false)

reason_command :
    (cs : List Text) (r : Reason)
    → Memᴰ r (reasons_of cs)
    → (cmd : Text) × Memᴰ cmd cs × (cram_reason cmd ≡ some r)
unfolding reasons_of
reason_command [] r m = absurd (not-nil m)
reason_command (c ∷ cs) r m = elim (Option-cases (cram_reason c)) [
  | inl e ↦ let (cmd, k, h) = reason_command cs r (rw e at m) in (cmd, tail k, h)
  | inr (r', e) ↦ elim (cases_cons (rw e at m)) [
    | inl q ↦ (c, head refl, e ∙ ap some (sym q))
    | inr m' ↦ let (cmd, k, h) = reason_command cs r m' in (cmd, tail k, h)
  ]
]

command_reason :
    (cs : List Text) (cmd : Text) (r : Reason)
    → Memᴰ cmd cs
    → cram_reason cmd ≡ some r
    → Memᴰ r (reasons_of cs)
unfolding reasons_of
command_reason [] cmd r m h = absurd (not-nil m)
command_reason (c ∷ cs) cmd r m h = elim (cases_cons m) [
  | inl q ↦ rw (ap cram_reason (sym q) ∙ h) (head refl)
  | inr m' ↦ elim (Option-cases (cram_reason c)) [
    | inl e ↦ rw e (command_reason cs cmd r m' h)
    | inr (r', e) ↦ rw e (tail (command_reason cs cmd r m' h))
  ]
]

test_reason : (text : Text) (r : Reason) → Memᴰ r (test_reasons text) ↔ HasReason text r
unfolding test_reasons
test_reason text r = (
  λ m. elim (append_cases (reasons_of (cram_commands text)) m) [
    | inl here ↦ inl (reason_command (cram_commands text) r here)
    | inr there ↦ elim (Bool-cases (has_substring text (codes "../"))) [
      | inl e ↦ elim (cases_cons (rw e at there)) [
        | inl q ↦ inr (e, q)
        | inr m' ↦ absurd (not-nil m')
      ]
      | inr e ↦ absurd (not-nil (rw e at there))
    ]
  ],
  λ h. elim h [
    | inl (cmd, m, e) ↦ append_left _ (command_reason (cram_commands text) cmd r m e)
    | inr (e, q) ↦ append_right (reasons_of (cram_commands text)) (rw e (head q))
  ],
)

-- The first of the wordings, where the test has a reason at all
IsFirstReason-least :
    (repr : Text → Text) (text why : Text) (r : Reason) (rs : List Reason)
    → test_reasons text ≡ r ∷ rs
    → IsFirstReason repr text why ↔ (why ≡ least (reason_text repr r) (map (reason_text repr) rs))
unfolding IsFirstReason
IsFirstReason-least repr text why r rs e = (
  λ h.
      let ((r', has, worded), smallest) = h in
      least-only (reason_text repr r) why (map (reason_text repr) rs) (
        subst (λ t. Memᴰ t (map (reason_text repr) (r ∷ rs))) worded
            (mem_map (reason_text repr) (subst (λ l. Memᴰ r' l) e ((test_reason text r').1 has))),
        λ o m.
            let (r'', k, q) = of_map (reason_text repr) (r ∷ rs) m in
            subst (λ t. text_less t why ≡ false) q
              (smallest r'' ((test_reason text r'').0 (subst (λ l. Memᴰ r'' l) (sym e) k))),
      ),
  λ q.
      let (m, smallest) = least-IsLeast (reason_text repr r) (map (reason_text repr) rs) in
      let (r', k, worded) = of_map (reason_text repr) (r ∷ rs) m in
      (
        (r', (test_reason text r').0 (subst (λ l. Memᴰ r' l) (sym e) k), worded ∙ sym q),
        λ r'' has. rw q (
            smallest (reason_text repr r'') (
              mem_map (reason_text repr)
                (subst (λ l. Memᴰ r'' l) e ((test_reason text r'').1 has)))),
      ),
)

no-IsFirstReason :
    (repr : Text → Text) (text why : Text) → test_reasons text ≡ [] → ¬ IsFirstReason repr text why
unfolding IsFirstReason
no-IsFirstReason repr text why e ((r, has, worded), smallest) =
    not-nil (subst (λ l. Memᴰ r l) e ((test_reason text r).1 has))

-- A directory, with its run.t if it has one
abbrev Listed : Type 0
Listed = Text × Option Text

abbrev IsExcluded : (Text → Text) → List Listed → Text → Text → Type 0
IsExcluded repr dirs name why =
    (text : Text) × Memᴰ (name, some text) dirs × IsFirstReason repr text why

-- One round of the loop, given its reasons
excluded_round :
    (repr : Text → Text) (name why d text : Text) (dirs : List Listed) (rest : Selection)
    (rs : List Reason)
    → test_reasons text ≡ rs
    → Memᴰ (name, why) rest.excluded ↔ IsExcluded repr dirs name why
    → Memᴰ (name, why) (select_test repr d rs rest).excluded
      ↔ IsExcluded repr ((d, some text) ∷ dirs) name why
excluded_round repr name why d text dirs rest [] e ih = (
  λ m. let (x, k, h) = ih.0 m in (x, tail k, h),
  λ r.
      let (x, k, h) = r in
      elim (cases_cons k) [
        | inl q ↦
            let same : x ≡ text = some_inj (ap (λ (p : Listed). p.1) q) in
            absurd (no-IsFirstReason repr text why e (subst (λ t. IsFirstReason repr t why) same h))
        | inr k' ↦ ih.1 (x, k', h)
      ],
)
excluded_round repr name why d text dirs rest (r ∷ rs) e ih =
    let first = IsFirstReason-least repr text why r rs e in
    (
      λ m. elim (cases_cons m) [
        | inl q ↦
            let same : name ≡ d = ap (λ (p : Text × Text). p.0) q in
            (
              text,
              head (ap (λ (n : Text). (n, some text)) same),
              first.1 (ap (λ (p : Text × Text). p.1) q),
            )
        | inr m' ↦ let (x, k, h) = ih.0 m' in (x, tail k, h)
      ],
      λ s.
          let (x, k, h) = s in
          elim (cases_cons k) [
            | inl q ↦
                let same : x ≡ text = some_inj (ap (λ (p : Listed). p.1) q) in
                let named : name ≡ d = ap (λ (p : Listed). p.0) q in
                head (
                  ap (λ (n : Text). (n, why)) named
                  ∙ ap (λ (t : Text). (d, t))
                      (first.0 (subst (λ t. IsFirstReason repr t why) same h)))
            | inr k' ↦ tail (ih.1 (x, k', h))
          ],
    )

-- A test is excluded with a reason exactly if its directory is listed with a run.t that has that
-- reason, as the wording of what keeps a command of it out of scope or, where it has the text `../`,
-- of that, and no reason of it comes before that one in the order of texts.
pub classify_excluded :
    (repr : Text → Text) (dirs : List (Text × Option Text)) (name why : Text)
    → Memᴰ (name, why) (classify repr dirs).excluded
      ↔ ((text : Text) × Memᴰ (name, some text) dirs × IsFirstReason repr text why)
unfolding classify
classify_excluded repr [] name why = (λ m. absurd (not-nil m), λ r. absurd (not-nil r.1))
classify_excluded repr ((d, none) ∷ dirs) name why = (
  λ m. let (x, k, h) = (classify_excluded repr dirs name why).0 m in (x, tail k, h),
  λ r.
      let (x, k, h) = r in
      elim (cases_cons k) [
        | inl q ↦ absurd (none-ne-some (sym (ap (λ (p : Listed). p.1) q)))
        | inr k' ↦ (classify_excluded repr dirs name why).1 (x, k', h)
      ],
)
classify_excluded repr ((d, some text) ∷ dirs) name why =
    excluded_round repr name why d text dirs (classify repr dirs) (test_reasons text) refl
      (classify_excluded repr dirs name why)

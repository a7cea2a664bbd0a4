-- ===== src/Waxdiff/Cram/Selected.antt =====
-- Which tests `cmd_classify_cram` includes, and what it makes of a command's continuation lines.
use mathlib.Core.List.{Memᴰ}
use mathlib.Core.List.Memᴰ.{head, tail, cases_cons, not-nil}
use wax_mb.Base.{
  Text, codes, Bool, true, false, Option, none, some, none-ne-some, some_inj, List, [], ◌∷◌, ◌++◌,
  ◌≡◌, ◌≢◌, ◌↔◌, refl, sym, ◌∙◌, ap, subst, ◌==◌, list_eq, nat_eq, if◌then◌else◌, has_char,
  has_substring, Bool-cases, inl, inr, arith, Option-cases,
}
use wax_mb.Waxdiff.Cram.{Reason, outside, cram_commands}
use wax_mb.Waxdiff.Cram.Scope.{
  first_line, cram_reason, reasons_of, test_reasons, select_test, Selection, classify,
}
use wax_mb.Waxdiff.Cram.Laws.{RunsInScope, cram_reason-RunsInScope}

-- Every command of a test is in scope, and the test stays in its directory.
pub IsRunnable : Text → Type 0
IsRunnable text =
    ((cmd : Text) → Memᴰ cmd (cram_commands text) → RunsInScope cmd)
    × (has_substring text (codes "../") ≡ false)

cons-ne-nil : {r : Reason} {rs : List Reason} → (r ∷ rs) ≢ []
cons-ne-nil h = cc

reasons_of-nil :
    (cs : List Text) → reasons_of cs ≡ [] → (cmd : Text) → Memᴰ cmd cs → RunsInScope cmd
unfolding reasons_of
reasons_of-nil [] h cmd m = elim m [ ]
reasons_of-nil (c ∷ cs) h cmd m = elim (Option-cases (cram_reason c)) [
  | inr found ↦ absurd (cons-ne-nil (rw found.1 at h))
  | inl free ↦ elim (cases_cons m) [
    | inl q ↦ rw q ((cram_reason-RunsInScope c).0 free)
    | inr m' ↦ reasons_of-nil cs (rw free at h) cmd m'
  ]
]

nil-reasons_of :
    (cs : List Text) → ((cmd : Text) → Memᴰ cmd cs → RunsInScope cmd) → reasons_of cs ≡ []
unfolding reasons_of
nil-reasons_of [] h = refl
nil-reasons_of (c ∷ cs) h =
    rw
      ((cram_reason-RunsInScope c).1 (h c (head refl)), nil-reasons_of cs (λ cmd m. h cmd (tail m)))
      refl

append_nil :
    (rs : List Reason) (b : Bool)
    → (rs ++ (if b then outside ∷ [] else [])) ≡ []
    → (rs ≡ []) × (b ≡ false)
append_nil [] true h = absurd (cons-ne-nil h)
append_nil [] false h = (refl, refl)
append_nil (r ∷ rs) b h = absurd (cons-ne-nil h)

test_reasons-nil : (text : Text) → (test_reasons text ≡ []) ↔ IsRunnable text
unfolding test_reasons IsRunnable
test_reasons-nil text = (
  λ h.
      let parts =
        append_nil (reasons_of (cram_commands text)) (has_substring text (codes "../")) h in
      (reasons_of-nil (cram_commands text) parts.0, parts.1),
  λ h. rw (nil-reasons_of (cram_commands text) h.0, h.1) refl,
)

-- A directory, with its run.t if it has one.
abbrev pub Listed : Type 0
Listed = Text × Option Text

no_file : {name d text : Text} → ◌≢◌ {A = Listed} (name, some text) (d, none)
no_file h = absurd (none-ne-some (sym (ap (λ (p : Listed). p.1) h)))

same_name :
    {name d text : Text} {o : Option Text} → ◌≡◌ {A = Listed} (name, some text) (d, o) → name ≡ d
same_name h = ap (λ (p : Listed). p.0) h

same_text :
    {name d text text' : Text} → ◌≡◌ {A = Listed} (name, some text) (d, some text') → text ≡ text'
same_text h = some_inj (ap (λ (p : Listed). p.1) h)

-- One round of the loop, given its reasons.
included_round :
    (repr : Text → Text) (name d text : Text) (dirs : List (Text × Option Text)) (rest : Selection)
    (rs : List Reason)
    → test_reasons text ≡ rs
    → Memᴰ name rest.included ↔ ((x : Text) × Memᴰ (name, some x) dirs × IsRunnable x)
    → Memᴰ name (select_test repr d rs rest).included
      ↔ ((x : Text) × Memᴰ (name, some x) ((d, some text) ∷ dirs) × IsRunnable x)
included_round repr name d text dirs rest [] e ih = (
  λ m. elim (cases_cons m) [
    | inl q ↦ (text, head (rw q refl), (test_reasons-nil text).0 e)
    | inr m' ↦ let r = ih.0 m' in (r.0, tail r.1, r.2)
  ],
  λ r. elim (cases_cons r.1) [ inl q ↦ head (same_name q) | inr m ↦ tail (ih.1 (r.0, m, r.2)) ],
)
included_round repr name d text dirs rest (why ∷ rs) e ih = (
  λ m. let r = ih.0 m in (r.0, tail r.1, r.2),
  λ r. elim (cases_cons r.1) [
    | inl q ↦
        absurd
          (cons-ne-nil (sym e ∙ (test_reasons-nil text).1 (subst IsRunnable (same_text q) r.2)))
    | inr m ↦ ih.1 (r.0, m, r.2)
  ],
)

-- A test is included exactly if its directory is listed with a run.t all of whose commands are in
-- scope and that nowhere has the text `../`.
pub classify_included :
    (repr : Text → Text) (dirs : List (Text × Option Text)) (name : Text)
    → Memᴰ name (classify repr dirs).included
      ↔ ((text : Text) × Memᴰ (name, some text) dirs × IsRunnable text)
unfolding classify
classify_included repr [] name = (λ m. absurd (not-nil m), λ r. absurd (not-nil r.1))
classify_included repr ((d, none) ∷ dirs) name = (
  λ m. let r = (classify_included repr dirs name).0 m in (r.0, tail r.1, r.2),
  λ r. elim (cases_cons r.1) [
    | inl q ↦ absurd (no_file q)
    | inr m ↦ (classify_included repr dirs name).1 (r.0, m, r.2)
  ],
)
classify_included repr ((d, some text) ∷ dirs) name =
    included_round repr name d text dirs (classify repr dirs) (test_reasons text) refl
      (classify_included repr dirs name)

first_line_append :
    (line more : Text) → has_char b'\n' line ≡ false → first_line (line ++ b'\n' ∷ more) ≡ line
unfolding first_line
first_line_append [] more h = refl
first_line_append (c ∷ line) more h = elim (Bool-cases (c == b'\n')) [
  | inl ends ↦ ground arith
  | inr goes ↦ rw goes (ap (λ (l : Text). c ∷ l) (first_line_append line more (rw goes at h)))
]

first_line_whole : (line : Text) → has_char b'\n' line ≡ false → first_line line ≡ line
unfolding first_line
first_line_whole [] h = refl
first_line_whole (c ∷ line) h = elim (Bool-cases (c == b'\n')) [
  | inl ends ↦ ground arith
  | inr goes ↦ rw goes (ap (λ (l : Text). c ∷ l) (first_line_whole line (rw goes at h)))
]

-- The continuation lines of a command are not looked at: whatever flags of wax they give, the
-- command is judged by its first line.
pub cram_reason_continued :
    (line more : Text)
    → has_char b'\n' line ≡ false
    → cram_reason (line ++ b'\n' ∷ more) ≡ cram_reason line
unfolding cram_reason
cram_reason_continued line more h = rw (first_line_append line more h, first_line_whole line h) refl

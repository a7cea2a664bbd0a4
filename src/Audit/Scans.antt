-- ===== src/Audit/Scans.antt =====
-- What the two searches of the audit find in a text.
use wax_mb.Base.{
  ℕ, ◌≡◌, ◌≢◌, ◌↔◌, ◌⊎◌, refl, ap, sym, ◌∙◌, subst, Text, true, Option, none, some, some_inj,
  none-ne-some, List, [], ◌∷◌, ◌++◌, ◌==◌, eq_iff, list_eq, nat_eq, length, contains, all, drop,
  drop-append, starts_with, starts_with-append, starts_with-split, Bool-cases, inl, inr, or_true,
}
use wax_mb.Grammar.Parse.{is_word}
use wax_mb.Waxdiff.Fuzz.Tokens.{span}
use wax_mb.Waxdiff.Fuzz.Tokens.Spans.{stops, span-whole, all-span, stops-span, split_of_span}
use wax_mb.Audit.{name_of, opens_call, add_some, alias_hits, call_hits}

-- A name that `[A-Za-z0-9_]+` matches
abbrev pub IsIdentifier : Text → Type 0
IsIdentifier x = (all is_word x ≡ true) × (x ≢ [])

-- The name stands behind the mark, and ends there.
abbrev pub StandsBehind : Text → Text → Text → Type 0
StandsBehind mark x text =
    (before : Text) × (after : Text) × (text ≡ before ++ (mark ++ (x ++ after)))
    × IsIdentifier x
    × (stops is_word after ≡ true)

-- The text calls a method of that name.
abbrev pub Calls : Text → Text → Type 0
Calls x text =
    (before : Text) × (after : Text) × (text ≡ before ++ (b'.' ∷ (x ++ (b'(' ∷ after))))
    × IsIdentifier x

pub contains-add_some :
    (x : Text) (o : Option Text) (xs : List Text)
    → (contains x (add_some o xs) ≡ true) ↔ ((o ≡ some x) ⊎ (contains x xs ≡ true))
contains-add_some x none xs =
    (λ h. inr h, λ k. elim k [ inl q ↦ absurd (none-ne-some q) | inr h ↦ h ])
contains-add_some x (some y) xs = elim (Bool-cases (contains y xs)) [
  | inl there ↦ rw there (
    λ h. inr h,
    λ k. elim k [ inl q ↦ subst (λ z. contains z xs ≡ true) (some_inj q) there | inr h ↦ h ],
  )
  | inr new ↦ rw new (
    λ h. elim (Bool-cases (x == y)) [
      | inl e ↦ inl (ap some (sym ((eq_iff x y).0 e)))
      | inr e ↦ inr (rw e at h)
    ],
    λ k. elim k [
      | inl q ↦ rw ((eq_iff x y).1 (sym (some_inj q))) refl
      | inr h ↦ rw h (or_true (x == y))
    ],
  )
]

name_of-some : (w rest x : Text) → name_of (w, rest) ≡ some x → (w ≡ x) × (x ≢ [])
name_of-some [] rest x h = absurd (none-ne-some h)
name_of-some (c ∷ w) rest x h = (some_inj h, λ e. let k = some_inj h ∙ e in cc)

some-name_of : (x rest : Text) → x ≢ [] → name_of (x, rest) ≡ some x
some-name_of [] rest h = absurd (h refl)
some-name_of (c ∷ x) rest h = refl

opens_call-some :
    (w rest x : Text)
    → opens_call (w, rest) ≡ some x
    → (after : Text) × (w ≡ x) × (x ≢ []) × (rest ≡ b'(' ∷ after)
opens_call-some [] rest x h = absurd (none-ne-some h)
opens_call-some (c ∷ w) [] x h = absurd (none-ne-some h)
opens_call-some (c ∷ w) (p ∷ rest) x h = elim (Bool-cases (p == b'(')) [
  | inr other ↦ absurd (none-ne-some (rw other at h))
  | inl opens ↦
      let same = some_inj (rw opens at h) in
      (rest, same, λ e. let k = same ∙ e in cc, ap (λ (q : ℕ). q ∷ rest) ((eq_iff p b'(').0 opens))
]

some-opens_call : (x after : Text) → x ≢ [] → opens_call (x, b'(' ∷ after) ≡ some x
some-opens_call [] after h = absurd (h refl)
some-opens_call (c ∷ x) after h = refl

nil_append : (a b : Text) → [] ≡ a ++ b → b ≡ []
nil_append [] b h = sym h
nil_append (c ∷ a) b h = cc

pub alias_hits-behind :
    (mark x text : Text) → contains x (alias_hits mark text) ≡ true → StandsBehind mark x text
unfolding alias_hits
alias_hits-behind mark x [] h = cc
alias_hits-behind mark x (c ∷ s) h =
    let later : contains x (alias_hits mark s) ≡ true → StandsBehind mark x (c ∷ s) = λ k.
      let (before, after, e, w, ends) = alias_hits-behind mark x s k in
      (c ∷ before, after, ap (λ (t : Text). c ∷ t) e, w, ends) in
    elim (Bool-cases (starts_with (c ∷ s) mark)) [
      | inr other ↦ later (rw other at h)
      | inl marked ↦
          let behind = drop (length mark) (c ∷ s) in
          let (w, rest) = span is_word behind in
          elim ((contains-add_some x (name_of (w, rest)) (alias_hits mark s)).0 (rw marked at h)) [
            | inr k ↦ later k
            | inl found ↦
                let (same, some_char) = name_of-some w rest x found in
                (
                  [],
                  rest,
                  starts_with-split (c ∷ s) mark marked
                      ∙ ap (λ (t : Text). mark ++ t)
                          (split_of_span is_word behind w rest refl
                            ∙ ap (λ (t : Text). t ++ rest) same),
                  (subst (λ t. all is_word t ≡ true) same (all-span is_word behind), some_char),
                  stops-span is_word behind,
                )
          ]
    ]

pub behind-alias_hits :
    (mark x before after text : Text)
    → text ≡ before ++ (mark ++ (x ++ after))
    → IsIdentifier x
    → stops is_word after ≡ true
    → contains x (alias_hits mark text) ≡ true
unfolding alias_hits
behind-alias_hits mark x before after [] e (w, n) k =
    absurd
      (n (append-nil_left x after (nil_append mark (x ++ after) (sym (nil_append before _ e)))))
  where
    append-nil_left : (a b : Text) → a ++ b ≡ [] → a ≡ []
    append-nil_left [] b h = refl
    append-nil_left (c ∷ a) b h = cc
behind-alias_hits mark x [] after (c ∷ s) e (w, n) k =
    let starts : starts_with (c ∷ s) mark ≡ true = rw e (starts_with-append mark (x ++ after)) in
    let found : name_of (span is_word (drop (length mark) (c ∷ s))) ≡ some x =
      ap (λ (t : Text). name_of (span is_word t))
        (ap (drop (length mark)) e ∙ drop-append mark (x ++ after))
      ∙ ap name_of (span-whole is_word x after w k)
      ∙ some-name_of x after n in
    rw starts ((contains-add_some x _ (alias_hits mark s)).1 (inl found))
behind-alias_hits mark x (b ∷ before) after (c ∷ s) e iw k =
    let later = behind-alias_hits mark x before after s (ap (drop 1) e) iw k in
    elim (Bool-cases (starts_with (c ∷ s) mark)) [
      | inl marked ↦ rw marked ((contains-add_some x _ (alias_hits mark s)).1 (inr later))
      | inr other ↦ rw other later
    ]

pub call_hits-called : (x text : Text) → contains x (call_hits text) ≡ true → Calls x text
unfolding call_hits
call_hits-called x [] h = cc
call_hits-called x (c ∷ s) h =
    let later : contains x (call_hits s) ≡ true → Calls x (c ∷ s) = λ k.
      let (before, after, e, w) = call_hits-called x s k in
      (c ∷ before, after, ap (λ (t : Text). c ∷ t) e, w) in
    elim (Bool-cases (c == b'.')) [
      | inr other ↦ later (rw other at h)
      | inl point ↦
          let (w, rest) = span is_word s in
          elim ((contains-add_some x (opens_call (w, rest)) (call_hits s)).0 (rw point at h)) [
            | inr k ↦ later k
            | inl found ↦
                let (after, same, some_char, opens) = opens_call-some w rest x found in
                (
                  [],
                  after,
                  ap (λ (q : ℕ). q ∷ s) ((eq_iff c b'.').0 point)
                      ∙ ap (λ (t : Text). b'.' ∷ t)
                          (split_of_span is_word s w rest refl
                            ∙ ap (λ (t : Text). t ++ rest) same
                            ∙ ap (λ (t : Text). x ++ t) opens),
                  (subst (λ t. all is_word t ≡ true) same (all-span is_word s), some_char),
                )
          ]
    ]

pub called-call_hits :
    (x before after text : Text)
    → text ≡ before ++ (b'.' ∷ (x ++ (b'(' ∷ after)))
    → IsIdentifier x
    → contains x (call_hits text) ≡ true
unfolding call_hits
called-call_hits x before after [] e (w, n) =
    let k = nil_append before (b'.' ∷ (x ++ (b'(' ∷ after))) e in cc
called-call_hits x [] after (c ∷ s) e (w, n) =
    let point : c ≡ b'.' = ap (λ (t : Text). first_of t) e in
    let found : opens_call (span is_word s) ≡ some x =
      ap (λ (t : Text). opens_call (span is_word t)) (ap (drop 1) e)
      ∙ ap opens_call (span-whole is_word x (b'(' ∷ after) w refl)
      ∙ some-opens_call x after n in
    rw ((eq_iff c b'.').1 point) ((contains-add_some x _ (call_hits s)).1 (inl found))
  where
    first_of : Text → ℕ
    first_of [] = 0
    first_of (c ∷ t) = c
called-call_hits x (b ∷ before) after (c ∷ s) e iw =
    let later = called-call_hits x before after s (ap (drop 1) e) iw in
    elim (Bool-cases (c == b'.')) [
      | inl point ↦ rw point ((contains-add_some x _ (call_hits s)).1 (inr later))
      | inr other ↦ rw other later
    ]

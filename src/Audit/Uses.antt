-- ===== src/Audit/Uses.antt =====
-- What it is for an importer to use a name, said of the text of its sources.
use mathlib.Core.List.{Memᴰ}
use mathlib.Core.List.Memᴰ.{head, tail, cases_cons, not-nil}
use wax_mb.Base.{
  ◌≡◌, ◌≢◌, ◌↔◌, ◌⊎◌, refl, ap, sym, ◌∙◌, subst, arith, Text, codes, true, Option, none, some,
  some_inj, none-ne-some, List, [], ◌∷◌, ◌++◌, ◌==◌, eq_iff, eq_self, list_eq, nat_eq, contains,
  contains-append, Bool-cases, inl, inr, or_true, splitlines,
}
use wax_mb.Audit.{
  Package, public_name, names_in, public_names, aliases_for, alias_hits, hits_of, used_under,
  used_by,
}
use wax_mb.Audit.Scans.{
  StandsBehind, Calls, contains-add_some, alias_hits-behind, behind-alias_hits, call_hits-called,
  called-call_hits,
}

-- Another package that imports the package mentions the name behind what it calls the package, or
-- calls a method of that name.
pub Uses : Text → Package → Package → Text → Type 0
Uses pkg d imp x =
    (imp.dir ≢ d.dir)
    × ((a : Text) × (contains a (aliases_for pkg imp.config) ≡ true)
        × (StandsBehind (codes "@" ++ a ++ codes ".") x imp.text ⊎ Calls x imp.text))

-- A line of the interface declares the name.
pub Promises : Option Text → Text → Type 0
Promises interface x =
    (mbti : Text) × (interface ≡ some mbti)
    × ((line : Text) × Memᴰ line (splitlines mbti) × (public_name line ≡ some x))

-- What stands behind one of the names of the package, or is called
abbrev Hit : List Text → Text → Text → Type 0
Hit aliases text x =
    ((a : Text) × (contains a aliases ≡ true) × StandsBehind (codes "@" ++ a ++ codes ".") x text)
    ⊎ Calls x text

hits_of-Hit :
    (aliases : List Text) (text x : Text)
    → (contains x (hits_of aliases text) ≡ true) ↔ Hit aliases text x
hits_of-Hit [] text x = (
  λ h. inr (call_hits-called x text h),
  λ k. elim k [
    | inl (a, m, s) ↦ cc
    | inr (before, after, e, w) ↦ called-call_hits x before after text e w
  ],
)
hits_of-Hit (a ∷ aliases) text x =
    let mark = codes "@" ++ a ++ codes "." in
    let split = contains-append x (alias_hits mark text) (hits_of aliases text) in
    let rest = hits_of-Hit aliases text x in
    (
      λ h. elim (Bool-cases (contains x (alias_hits mark text))) [
        | inl here ↦ inl (a, rw (eq_self a) refl, alias_hits-behind mark x text here)
        | inr not_here ↦ elim (rest.0 (ground (arith, split, h, not_here))) [
          | inl (b, m, s) ↦ inl (b, rw m (or_true (b == a)), s)
          | inr called ↦ inr called
        ]
      ],
      λ k. split ∙ elim k [
        | inr called ↦ rw (rest.1 (inr called)) (or_true (contains x (alias_hits mark text)))
        | inl (b, m, s) ↦ elim (Bool-cases (b == a)) [
          | inl same ↦
              let (before, after, e, w, ends) =
                subst (λ c. StandsBehind (codes "@" ++ c ++ codes ".") x text) ((eq_iff b a).0 same)
                  s in
              rw (behind-alias_hits mark x before after text e w ends) refl
          | inr other ↦
              rw (rest.1 (inl (b, rw other at m, s))) (or_true (contains x (alias_hits mark text)))
        ]
      ],
    )

used_under-Hit :
    (aliases : List Text) (text x : Text)
    → (contains x (used_under aliases text) ≡ true) ↔ (
        (a : Text) × (contains a aliases ≡ true)
        × (StandsBehind (codes "@" ++ a ++ codes ".") x text ⊎ Calls x text))
used_under-Hit [] text x = (λ h. cc, λ k. let m = k.1 in cc)
used_under-Hit (a ∷ aliases) text x =
    let hits = hits_of-Hit (a ∷ aliases) text x in
    (
      λ h. elim (hits.0 h) [
        | inl (b, m, s) ↦ (b, m, inl s)
        | inr called ↦ (a, rw (eq_self a) refl, inr called)
      ],
      λ k.
          let (b, m, used_there) = k in
          hits.1 (elim used_there [ inl s ↦ inl (b, m, s) | inr called ↦ inr called ]),
    )

pub used_by-Uses :
    (pkg x : Text) (d imp : Package) → (contains x (used_by pkg d imp) ≡ true) ↔ Uses pkg d imp x
unfolding used_by Uses
used_by-Uses pkg x d imp =
    let under = used_under-Hit (aliases_for pkg imp.config) imp.text x in
    elim (Bool-cases (imp.dir == d.dir)) [
      | inl itself ↦ rw itself (λ h. cc, λ k. absurd (k.0 ((eq_iff imp.dir d.dir).0 itself)))
      | inr other ↦
          rw other
            (λ h. (λ e. let k = (eq_iff imp.dir d.dir).1 e in cc, under.0 h), λ k. under.1 k.1)
    ]

names_in-line :
    (lines : List Text) (x : Text)
    → (contains x (names_in lines) ≡ true)
      ↔ ((line : Text) × Memᴰ line lines × (public_name line ≡ some x))
unfolding names_in
names_in-line [] x = (λ h. cc, λ k. absurd (not-nil k.1))
names_in-line (line ∷ lines) x =
    let added = contains-add_some x (public_name line) (names_in lines) in
    let rest = names_in-line lines x in
    (
      λ h. elim (added.0 h) [
        | inl here ↦ (line, head refl, here)
        | inr later ↦ let (l, m, e) = rest.0 later in (l, tail m, e)
      ],
      λ k.
          let (l, m, e) = k in
          added.1 (elim (cases_cons m) [
            | inl q ↦ inl (ap public_name (sym q) ∙ e)
            | inr m' ↦ inr (rest.1 (l, m', e))
          ]),
    )

pub public_names-Promises :
    (interface : Option Text) (x : Text)
    → (contains x (public_names interface) ≡ true) ↔ Promises interface x
unfolding public_names Promises
public_names-Promises none x = (λ h. cc, λ k. absurd (none-ne-some k.1))
public_names-Promises (some mbti) x =
    let lines = names_in-line (splitlines mbti) x in
    (
      λ h. (mbti, refl, lines.0 h),
      λ k.
          let (m, e, line) = k in
          lines.1 (
            subst (λ t. (l : Text) × Memᴰ l (splitlines t) × (public_name l ≡ some x))
              (sym (some_inj e)) line),
    )

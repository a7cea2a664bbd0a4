-- ===== src/Messages/Reductions/Laws.antt =====
-- The reductions that are written are those that are declared.
use mathlib.Core.List.{Memᴰ}
use mathlib.Core.List.Memᴰ.{head, tail, cases_cons, not-nil}
use wax_mb.Base.{
  or_true, ℕ, ◌≡◌, ◌↔◌, ◌⊎◌, refl, ap, sym, ◌∙◌, subst, arith, Text, true, ◌||◌, none, some,
  some_inj, none-ne-some, List, [], ◌∷◌, ◌==◌, eq_iff, list_eq, nat_eq, >>=-eq-some, split,
  Option-cases, Bool-cases, inl, inr,
}
use wax_mb.Messages.Reductions.Denoted.{
  IsNonterminal, AllDistinct, nonterminal-of, nonterminal-some, ids_of-AllDistinct,
}
use wax_mb.Messages.Reductions.{
  Automaton, Ids, nonterminal, out_set, declared_from, ids_of, on_error_reduce_ids, on_error_reduce,
}

on_error_reduce-set :
    (id : ℕ) (d : Text) (out : List (ℕ × Text)) (symbol : ℕ)
    → on_error_reduce (out_set id d out) symbol ≡ (id == symbol || on_error_reduce out symbol)
unfolding out_set on_error_reduce
on_error_reduce-set id d [] symbol = refl
on_error_reduce-set id d ((j, e) ∷ out) symbol = ground (arith, on_error_reduce-set id d out symbol)

-- One of the declared symbols denotes that nonterminal and no other.
abbrev pub IsDeclared : Automaton → Ids → List Text → ℕ → Type 0
IsDeclared a ids ds symbol = (d : Text) × Memᴰ d ds × IsNonterminal a ids d symbol

module _ (a : Automaton) (ids : Ids) (distinct : AllDistinct ids) where
  -- What the loop adds, if it does not stop.
  declared_from-answers :
      (ds : List Text) (out out' : List (ℕ × Text)) (symbol : ℕ)
      → declared_from a ids out ds ≡ some out'
      → (on_error_reduce out' symbol ≡ true)
        ↔ ((on_error_reduce out symbol ≡ true) ⊎ IsDeclared a ids ds symbol)
  unfolding declared_from
  declared_from-answers [] out out' symbol h =
      let same : on_error_reduce out' symbol ≡ on_error_reduce out symbol =
        ap (λ o. on_error_reduce o symbol) (sym (some_inj h)) in
      (
        λ k. inl (sym same ∙ k),
        λ k. elim k [ inl before ↦ same ∙ before | inr (d, m, n) ↦ absurd (not-nil m) ],
      )
  declared_from-answers (d ∷ ds) out out' symbol h =
      let (id, e, rest) = >>=-eq-some (nonterminal a ids d) _ h in
      let set = on_error_reduce-set id d out symbol in
      let later = declared_from-answers ds (out_set id d out) out' symbol rest in
      let denotes = nonterminal-of a ids distinct d id e in
      (
        λ k. elim (later.0 k) [
          | inr (d', m, n) ↦ inr (d', tail m, n)
          | inl here ↦ elim (Bool-cases (id == symbol)) [
            | inl same ↦
                inr
                  (d, head refl, subst (IsNonterminal a ids d) ((eq_iff id symbol).0 same) denotes)
            | inr other ↦ inl (ground (arith, set, here, other))
          ]
        ],
        λ k. later.1 (elim k [
          | inl before ↦ inl (set ∙ rw before (or_true (id == symbol)))
          | inr (d', m, n) ↦ elim (cases_cons m) [
            | inr m' ↦ inr (d', m', n)
            | inl q ↦
                let first : id ≡ symbol = some_inj (
                  sym e
                  ∙ ap (nonterminal a ids) (sym q)
                  ∙ nonterminal-some a ids distinct d' symbol n) in
                inl (set ∙ rw ((eq_iff id symbol).1 first) refl)
          ]
        ]),
      )

  declared_from-ends :
      (ds : List Text) (out : List (ℕ × Text))
      → (declared_from a ids out ds ≡ none)
        ↔ ((d : Text) × Memᴰ d ds × ((id : ℕ) → ¬ IsNonterminal a ids d id))
  unfolding declared_from
  declared_from-ends [] out = (λ h. absurd (none-ne-some (sym h)), λ r. absurd (not-nil r.1))
  declared_from-ends (d ∷ ds) out = elim (Option-cases (nonterminal a ids d)) [
    | inl e ↦ rw e (
      λ h. (d, head refl, λ id n. none-ne-some (sym e ∙ nonterminal-some a ids distinct d id n)),
      λ r. refl,
    )
    | inr (id, e) ↦
        let later = declared_from-ends ds (out_set id d out) in
        rw e (
          λ h. let r = later.0 h in (r.0, tail r.1, r.2),
          λ r. elim (cases_cons r.1) [
            | inl q ↦ absurd (
                r.2 id (
                  subst (λ x. IsNonterminal a ids x id) (sym q)
                    (nonterminal-of a ids distinct d id e)))
            | inr m ↦ later.1 (r.0, m, r.2)
          ],
        )
  ]

-- If the generator does not stop, the function that it writes is true of exactly the nonterminals
-- that some declared symbol denotes, and denotes alone: a plain symbol denotes the nonterminals of
-- its rule, and a rule that is applied to an element denotes the nonterminals of our rule of that
-- kind which are instances over the one nonterminal of the element.
pub on_error_reduce_ids-answers :
    (a : Automaton) (rules : List Text) (actions : List (Text × ℕ × ℕ)) (declaration : Text)
    (out : List (ℕ × Text))
    → on_error_reduce_ids a rules actions declaration ≡ some out
    → (ids : Ids) × (ids_of a rules actions ≡ some ids)
      × ((symbol : ℕ)
          → (on_error_reduce out symbol ≡ true) ↔ IsDeclared a ids (split declaration) symbol)
unfolding on_error_reduce_ids on_error_reduce
on_error_reduce_ids-answers a rules actions declaration out h =
    let (ids, e, rest) =
      >>=-eq-some (ids_of a rules actions) (λ i. declared_from a i [] (split declaration)) h in
    let distinct = ids_of-AllDistinct a rules actions ids e in
    let answers =
      λ (symbol : ℕ). declared_from-answers a ids distinct (split declaration) [] out symbol rest in
    (
      ids,
      e,
      λ symbol. (
        λ k. elim ((answers symbol).0 k) [ inl none_yet ↦ cc | inr declared ↦ declared ],
        λ k. (answers symbol).1 (inr k),
      ),
    )

-- Where the rules of the actions are found, the generator stops exactly if some declared symbol
-- denotes no nonterminal, or more than one.
pub on_error_reduce_ids-stops :
    (a : Automaton) (rules : List Text) (actions : List (Text × ℕ × ℕ)) (declaration : Text)
    (ids : Ids)
    → ids_of a rules actions ≡ some ids
    → (on_error_reduce_ids a rules actions declaration ≡ none)
      ↔ ((d : Text) × Memᴰ d (split declaration) × ((id : ℕ) → ¬ IsNonterminal a ids d id))
unfolding on_error_reduce_ids
on_error_reduce_ids-stops a rules actions declaration ids e =
    rw e
      (declared_from-ends a ids (ids_of-AllDistinct a rules actions ids e) (split declaration) [])

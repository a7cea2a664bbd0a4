-- ===== src/Messages/Reductions/Denoted.antt =====
-- Which nonterminal a declared symbol denotes, said without the loop of `on_error_reduce_ids`.
use wax_mb.Base.{
  ℕ, ◌≡◌, ◌≢◌, refl, ap, sym, ◌∙◌, arith, Text, true, false, Option, none, some, some_inj,
  none-ne-some, List, [], ◌∷◌, ◌==◌, eq_self, list_eq, nat_eq, ◌>>=◌, >>=-eq-some, contains,
  contains-select, select, select-IsDistinct, split_and, IsDistinct, Every, Bool-cases, inl, inr,
  subst, if◌then◌else◌,
}
use wax_mb.Messages.Reductions.{
  Automaton, Ids, ids_get, ids_add, rule_at, line_of, add_named, ids_from, ids_of, applied, generic,
  generic_of, is_instance, the_one, nonterminal, found_of,
}

-- The set has that id and no other.
abbrev pub IsOnly : ℕ → List ℕ → Type 0
IsOnly id xs = (contains id xs ≡ true) × ((j : ℕ) → contains j xs ≡ true → j ≡ id)

module _ (a : Automaton) (ids : Ids) where
  -- A plain symbol denotes each nonterminal of its rule. A rule applied to an element denotes each
  -- nonterminal of our rule of that kind that is an instance over the one nonterminal of the element.
  abbrev pub Denoted : ℕ → Text → Option (Text × Text) → Type 0
  Denoted id d none = contains id (ids_get ids d) ≡ true
  Denoted id d (some (rule, x)) =
      (e : ℕ) × (ours : Text) × IsOnly e (ids_get ids x)
      × (generic_of rule generic ≡ some ours)
      × (contains id (ids_get ids ours) ≡ true)
      × (is_instance a e id ≡ true)

  -- The symbol denotes that nonterminal and no other.
  pub IsNonterminal : Text → ℕ → Type 0
  IsNonterminal d id = Denoted id d (applied d) × ((j : ℕ) → Denoted j d (applied d) → j ≡ id)

the_one-IsOnly : (xs : List ℕ) (id : ℕ) → the_one xs ≡ some id → IsOnly id xs
the_one-IsOnly [] id h = absurd (none-ne-some h)
the_one-IsOnly (x ∷ []) id h =
    let same = some_inj h in (ground (arith, same), λ j k. ground (arith, same))
the_one-IsOnly (x ∷ y ∷ xs) id h = absurd (none-ne-some h)

IsOnly-the_one : (xs : List ℕ) (id : ℕ) → IsDistinct xs → IsOnly id xs → the_one xs ≡ some id
IsOnly-the_one [] id d (h, k) = cc
IsOnly-the_one (x ∷ []) id d (h, k) = ap some (k x (rw (eq_self x) refl))
IsOnly-the_one (x ∷ y ∷ xs) id ((differ, ds), d) (h, k) =
    let first : x ≡ id = k x (rw (eq_self x) refl) in
    let second : y ≡ id = k y (ground (arith, eq_self y)) in absurd (differ (first ∙ sym second))

-- No set of the dict has an id twice.
abbrev pub AllDistinct : Ids → Type 0
AllDistinct ids = Every (λ (e : Text × List ℕ). IsDistinct e.1) ids

ids_get-IsDistinct : (ids : Ids) (k : Text) → AllDistinct ids → IsDistinct (ids_get ids k)
ids_get-IsDistinct [] k h = tt
ids_get-IsDistinct ((j, xs) ∷ rest) k (h, hs) = elim (Bool-cases (j == k)) [
  | inl e ↦ rw e h
  | inr e ↦ rw e (ids_get-IsDistinct rest k hs)
]

differs_all : (id : ℕ) (xs : List ℕ) → contains id xs ≡ false → Every (λ (y : ℕ). id ≢ y) xs
differs_all id [] h = tt
differs_all id (x ∷ xs) h = (λ q. ground (arith, q), differs_all id xs (ground arith))

add-IsDistinct :
    (id : ℕ) (xs : List ℕ) → IsDistinct xs → IsDistinct (if contains id xs then xs else id ∷ xs)
add-IsDistinct id xs h = elim (Bool-cases (contains id xs)) [
  | inl e ↦ rw e h
  | inr e ↦ rw e (differs_all id xs e, h)
]

ids_add-AllDistinct :
    (name : Text) (id : ℕ) (ids : Ids) → AllDistinct ids → AllDistinct (ids_add name id ids)
unfolding ids_add
ids_add-AllDistinct name id [] h = ((tt, tt), tt)
ids_add-AllDistinct name id ((j, xs) ∷ rest) (h, hs) = elim (Bool-cases (j == name)) [
  | inl e ↦ rw e (add-IsDistinct id xs h, hs)
  | inr e ↦ rw e (h, ids_add-AllDistinct name id rest hs)
]

module _ (a : Automaton) (rules : List Text) (actions : List (Text × ℕ × ℕ)) where
  add_named-AllDistinct :
      (id : ℕ) (line : Option ℕ) (ids ids' : Ids)
      → add_named a rules actions id line ids ≡ some ids'
      → AllDistinct ids
      → AllDistinct ids'
  add_named-AllDistinct id none ids ids' h d = subst AllDistinct (some_inj h) d
  add_named-AllDistinct id (some line) ids ids' h d =
      let (name, e, q) = >>=-eq-some (rule_at rules line) _ h in
      subst AllDistinct (some_inj q) (ids_add-AllDistinct name id ids d)

  ids_from-AllDistinct :
      (ps : List ℕ) (ids ids' : Ids)
      → ids_from a rules actions ps ids ≡ some ids'
      → AllDistinct ids
      → AllDistinct ids'
  unfolding ids_from
  ids_from-AllDistinct [] ids ids' h d = subst AllDistinct (some_inj h) d
  ids_from-AllDistinct (p ∷ ps) ids ids' h d =
      let (mid, e, q) =
        >>=-eq-some (add_named a rules actions (a.lhs p) (line_of actions (a.act p)) ids) _ h in
      ids_from-AllDistinct ps mid ids' q
        (add_named-AllDistinct (a.lhs p) (line_of actions (a.act p)) ids mid e d)

  pub ids_of-AllDistinct : (ids : Ids) → ids_of a rules actions ≡ some ids → AllDistinct ids
  unfolding ids_of
  ids_of-AllDistinct ids h = ids_from-AllDistinct _ [] ids h tt

module _ (a : Automaton) (ids : Ids) (distinct : AllDistinct ids) where
  pub nonterminal-of :
      (d : Text) (id : ℕ) → nonterminal a ids d ≡ some id → IsNonterminal a ids d id
  unfolding nonterminal IsNonterminal
  nonterminal-of d id h = go (applied d) h
    where
      go :
          (o : Option (Text × Text))
          → (found_of a ids d o >>= the_one) ≡ some id
          → Denoted a ids id d o × ((j : ℕ) → Denoted a ids j d o → j ≡ id)
      go none h = the_one-IsOnly (ids_get ids d) id h
      go (some (rule, x)) h =
          let (found, e, one) = >>=-eq-some (found_of a ids d (some (rule, x))) the_one h in
          let (element, only, e') = >>=-eq-some (the_one (ids_get ids x)) _ e in
          let (ours, g, e'') = >>=-eq-some (generic_of rule generic) _ e' in
          let is_element = the_one-IsOnly (ids_get ids x) element only in
          let over = λ (l : ℕ). is_instance a element l in
          let (here, alone) =
            the_one-IsOnly (select over (ids_get ids ours)) id (ap the_one (some_inj e'') ∙ one) in
          let (listed, instance_of) =
            split_and (contains id (ids_get ids ours)) (over id)
              (sym (contains-select over id (ids_get ids ours)) ∙ here) in
          (
            (element, ours, is_element, g, listed, instance_of),
            λ j k.
                let (element', ours', is_element', g', listed', instance_of') = k in
                let same : element' ≡ element = is_element.1 element' is_element'.0 in
                let same_rule : ours' ≡ ours = some_inj (sym g' ∙ g) in
                alone j (
                  contains-select over j (ids_get ids ours)
                  ∙ rw
                      (
                        subst (λ o. contains j (ids_get ids o) ≡ true) same_rule listed',
                        subst (λ l. is_instance a l j ≡ true) same instance_of',
                      )
                      refl),
          )

  pub nonterminal-some :
      (d : Text) (id : ℕ) → IsNonterminal a ids d id → nonterminal a ids d ≡ some id
  unfolding nonterminal IsNonterminal
  nonterminal-some d id h = go (applied d) h
    where
      go :
          (o : Option (Text × Text))
          → Denoted a ids id d o × ((j : ℕ) → Denoted a ids j d o → j ≡ id)
          → (found_of a ids d o >>= the_one) ≡ some id
      go none h = IsOnly-the_one (ids_get ids d) id (ids_get-IsDistinct ids d distinct) h
      go (some (rule, x)) ((element, ours, is_element, g, listed, instance_of), alone) =
          let over = λ (l : ℕ). is_instance a element l in
          rw
            (
              IsOnly-the_one (ids_get ids x) element (ids_get-IsDistinct ids x distinct) is_element,
              g,
            )
            (IsOnly-the_one (select over (ids_get ids ours)) id
              (select-IsDistinct over (ids_get ids ours) (ids_get-IsDistinct ids ours distinct))
              (
                contains-select over id (ids_get ids ours) ∙ rw (listed, instance_of) refl,
                λ j k.
                    let (listed', instance_of') =
                      split_and (contains j (ids_get ids ours)) (over j)
                        (sym (contains-select over j (ids_get ids ours)) ∙ k) in
                    alone j (element, ours, is_element, g, listed', instance_of'),
              ))

-- ===== src/Messages/Table/Groups.antt =====
-- The groups of `build`: which items stand under which key.
use mathlib.Core.List.{Memᴰ}
use mathlib.Core.List.Memᴰ.{head, tail, append_cases, cases_cons, cast, not-nil}
use wax_mb.Base.{
  ℕ, ◌≡◌, refl, arith, Text, Bool, List, [], ◌∷◌, ◌++◌, ◌==◌, ◌||◌, Eq, eq_iff, Bool-cases, true,
  false, inl, inr, list_eq, nat_eq, sym, ◌∙◌, ap, select, append_assoc, append-nil, if◌then◌else◌,
}
use wax_mb.Messages.Key.{key_of}
use wax_mb.Messages.Table.Entries.{differs, apart_of, apart_sym}
use wax_mb.Messages.Table.{Items, add_to_group, group_from}

module _ {V : Type 0} where
  -- The items of a list that have a key.
  unfoldable pub matching : Items V → ℕ → Text → Items V
  matching items depth k = select (λ (item : List ℕ × V). key_of item.0 depth == k) items

  -- The group of a key, empty if it has none.
  unfoldable pub group_of : Text → List (Text × Items V) → Items V
  group_of k [] = []
  group_of k ((j, group) ∷ groups) = if j == k then group else group_of k groups

  unfoldable pub has_group : Text → List (Text × Items V) → Bool
  has_group k [] = false
  has_group k ((j, group) ∷ groups) = j == k || has_group k groups

  -- Groups of distinct keys, each of items from a list that have the key.
  unfoldable pub IsGrouping : ℕ → Items V → List (Text × Items V) → Type 0
  unfolding has_group
  IsGrouping depth items [] = ℕ
  IsGrouping depth items ((k, group) ∷ groups) =
      ((item : List ℕ × V) → Memᴰ item group → Memᴰ item items × (key_of item.0 depth ≡ k))
      × (has_group k groups ≡ false)
      × IsGrouping depth items groups

module _ {V : Type 0} ⦃e : Eq V⦄ where
  has_group-add :
      (j k : Text) (item : List ℕ × V) (groups : List (Text × Items V))
      → has_group j (add_to_group k item groups) ≡ (k == j || has_group j groups)
  unfolding has_group add_to_group
  has_group-add j k item [] = refl
  has_group-add j k item ((i, group) ∷ groups) = elim (Bool-cases (i == k)) [
    | inl same ↦ rw (same, has_group, (eq_iff i k).0 same) (ground arith)
    | inr apart ↦ rw (apart, has_group, has_group-add j k item groups) (ground arith)
  ]

  group_of-add :
      (j k : Text) (item : List ℕ × V) (groups : List (Text × Items V))
      → group_of j (add_to_group k item groups)
        ≡ group_of j groups ++ (if k == j then item ∷ [] else [])
  unfolding group_of add_to_group
  group_of-add j k item [] = refl
  group_of-add j k item ((i, group) ∷ groups) = elim (Bool-cases (i == k)) [
    | inl same ↦ elim (Bool-cases (i == j)) [
      | inl here ↦ rw (same, group_of, here, ← (eq_iff i k).0 same, here) refl
      | inr there ↦ rw (same, group_of, there, ← (eq_iff i k).0 same, there) (sym (append-nil _))
    ]
    | inr apart ↦ elim (Bool-cases (i == j)) [
      | inl here ↦
          let other : (k == j) ≡ false =
            differs k j (λ q. apart_of i k apart ((eq_iff i j).0 here ∙ sym q)) in
          rw (apart, group_of, here, other) (sym (append-nil _))
      | inr there ↦ rw (apart, group_of, there) (group_of-add j k item groups)
    ]
  ]

  pub group_of-from :
      (j : Text) (depth : ℕ) (items : Items V) (groups : List (Text × Items V))
      → group_of j (group_from depth items groups) ≡ group_of j groups ++ matching items depth j
  unfolding group_of group_from matching
  group_of-from j depth [] groups = sym (append-nil _)
  group_of-from j depth ((stack, v) ∷ items) groups =
      group_of-from j depth items (add_to_group (key_of stack depth) (stack, v) groups)
      ∙ rw group_of-add (elim (Bool-cases (key_of stack depth == j)) [
        | inl here ↦ rw (here, append_assoc) refl
        | inr there ↦ rw (there, append-nil) refl
      ])

module _ {V : Type 0} where
  pub item_of_matching :
      {item : List ℕ × V} (items : Items V) (depth : ℕ) (k : Text)
      → Memᴰ item (matching items depth k)
      → Memᴰ item items × (key_of item.0 depth ≡ k)
  unfolding matching
  item_of_matching [] depth k m = elim m [ ]
  item_of_matching {item} (x ∷ items) depth k m = elim (Bool-cases (key_of x.0 depth == k)) [
    | inl here ↦ elim (cases_cons (rw here at m)) [
      | inl q ↦ (
        head q,
        ap (λ (i : List ℕ × V). key_of i.0 depth) q ∙ (eq_iff (key_of x.0 depth) k).0 here,
      )
      | inr m' ↦ let r = item_of_matching items depth k m' in (tail r.0, r.1)
    ]
    | inr there ↦ let r = item_of_matching items depth k (rw there at m) in (tail r.0, r.1)
  ]

  pub matching_of_item :
      {item : List ℕ × V} (items : Items V) (depth : ℕ) (k : Text)
      → Memᴰ item items
      → key_of item.0 depth ≡ k
      → Memᴰ item (matching items depth k)
  unfolding matching
  matching_of_item [] depth k m h = elim m [ ]
  matching_of_item (x ∷ items) depth k (head q) h =
      let here : (key_of x.0 depth == k) ≡ true =
        (eq_iff (key_of x.0 depth) k).1 (ap (λ (i : List ℕ × V). key_of i.0 depth) (sym q) ∙ h) in
      rw here (head q)
  matching_of_item (x ∷ items) depth k (tail m) h = elim (Bool-cases (key_of x.0 depth == k)) [
    | inl here ↦ rw here (tail (matching_of_item items depth k m h))
    | inr there ↦ rw there (matching_of_item items depth k m h)
  ]

module _ {V : Type 0} ⦃e : Eq V⦄ where
  IsGrouping-add :
      (depth : ℕ) (items : Items V) (item : List ℕ × V) (groups : List (Text × Items V))
      → Memᴰ item items
      → IsGrouping depth items groups
      → IsGrouping depth items (add_to_group (key_of item.0 depth) item groups)
  unfolding add_to_group IsGrouping has_group
  IsGrouping-add depth items item [] m g = (
    λ x p. elim (cases_cons p) [
      | inl q ↦ (cast q m, ap (λ (i : List ℕ × V). key_of i.0 depth) q)
      | inr p' ↦ absurd (not-nil p')
    ],
    refl,
    0,
  )
  IsGrouping-add depth items item ((i, group) ∷ groups) m g =
      elim (Bool-cases (i == key_of item.0 depth)) [
        | inl same ↦ rw same (
          λ x p. elim (append_cases group p) [
            | inl p' ↦ g.0 x p'
            | inr p' ↦ elim (cases_cons p') [
              | inl q ↦ (
                cast q m,
                ap (λ (j : List ℕ × V). key_of j.0 depth) q
                    ∙ sym ((eq_iff i (key_of item.0 depth)).0 same),
              )
              | inr p'' ↦ absurd (not-nil p'')
            ]
          ],
          g.1,
          g.2,
        )
        | inr apart ↦
            let other : (key_of item.0 depth == i) ≡ false =
              apart_sym i (key_of item.0 depth) apart in
            rw apart (
              g.0,
              rw (has_group-add i (key_of item.0 depth) item groups, other) g.1,
              IsGrouping-add depth items item groups m g.2,
            )
      ]

  pub group_from-IsGrouping :
      (depth : ℕ) (items rest : Items V) (groups : List (Text × Items V))
      → ((item : List ℕ × V) → Memᴰ item rest → Memᴰ item items)
      → IsGrouping depth items groups
      → IsGrouping depth items (group_from depth rest groups)
  unfolding group_from
  group_from-IsGrouping depth items [] groups sub g = g
  group_from-IsGrouping depth items ((stack, v) ∷ rest) groups sub g =
      group_from-IsGrouping depth items rest (add_to_group (key_of stack depth) (stack, v) groups)
        (λ x m. sub x (tail m))
        (IsGrouping-add depth items (stack, v) groups (sub (stack, v) (head refl)) g)

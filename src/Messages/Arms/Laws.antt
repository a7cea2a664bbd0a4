-- ===== src/Messages/Arms/Laws.antt =====
-- What the generated arms answer.
use wax_mb.Base.{
  subst, ℕ, zero, suc, ◌+◌, ◌≡◌, refl, ap, sym, ◌∙◌, Text, Bool, true, false, Option, none, some,
  none-ne-some, List, [], ◌∷◌, ◌++◌, append_assoc, Eq, ◌==◌, list_eq, nat_eq, eq_iff, if◌then◌else◌,
  Bool-cases, inl, inr,
}
use wax_mb.Messages.Key.{key_of}
use wax_mb.Messages.Table.{
  Table, Items, table_get, table_set, unanimous, has_deeper, place, visit, build, group_from,
  longest, walk, guarded, lookup, table_of,
}
use wax_mb.Messages.Table.Entries.{differs, apart_of, table_get-set_other}
use wax_mb.Messages.Arms.{escaped, mbt_string, key_before, insert_arm, sorted_arms}

-- A string literal of MoonBit whose only escapes are those of the backslash and of the quote, up to
-- the quote that ends it: what it stands for, and what follows it.
abbrev pub with_char : ℕ → Option (Text × Text) → Option (Text × Text)
with_char c none = none
with_char c (some (s, rest)) = some (c ∷ s, rest)

unfoldable pub read_string : Text → Option (Text × Text)
read_string [] = none
read_string (c ∷ []) = if c == b'"' then some ([], []) else none
read_string (c ∷ d ∷ s) =
    let after_two = read_string s in
    let after_one = read_string (d ∷ s) in
    if c == b'"'
    then some ([], d ∷ s)
    else if c == b'\\'
    then with_char d after_two
    else with_char c after_one

abbrev pub literal : Text → Option (Text × Text)
literal [] = none
literal (c ∷ s) = if c == b'"' then read_string s else none

read_string-plain :
    (c : ℕ) (x s rest : Text)
    → (c == b'\\') ≡ false
    → (c == b'"') ≡ false
    → read_string x ≡ some (s, rest)
    → read_string (c ∷ x) ≡ some (c ∷ s, rest)
unfolding read_string
read_string-plain c [] s rest h k e = cc
read_string-plain c (d ∷ x) s rest h k e = rw (k, h, e) refl

read_string-escaped : (s rest : Text) → read_string (escaped s ++ b'"' ∷ rest) ≡ some (s, rest)
unfolding read_string escaped
read_string-escaped [] [] = refl
read_string-escaped [] (r ∷ rest) = refl
read_string-escaped (c ∷ s) rest =
    let ih = read_string-escaped s rest in
    elim (Bool-cases (c == b'\\')) [
      | inl slash ↦ rw slash (ap (with_char c) ih)
      | inr other ↦ elim (Bool-cases (c == b'"')) [
        | inl quote ↦ rw (other, quote) (ap (with_char c) ih)
        | inr plain ↦
            rw (other, plain) (read_string-plain c (escaped s ++ b'"' ∷ rest) s rest other plain ih)
      ]
    ]

-- A text that is written as a string literal is read back as it was, whatever follows the literal.
pub mbt_string-read : (s rest : Text) → literal (mbt_string s ++ rest) ≡ some (s, rest)
unfolding mbt_string
mbt_string-read s rest =
    ap read_string (append_assoc (escaped s) (b'"' ∷ []) rest) ∙ read_string-escaped s rest

module _ {V : Type 0} where
  -- No key stands twice in the table.
  pub IsDistinct : Table V → Type 0
  IsDistinct [] = Unit
  IsDistinct ((k, v) ∷ t) = (table_get t k ≡ none) × IsDistinct t

  abbrev found : Text → Text → Option V → Option (Option V) → Option (Option V)
  found j k v other = if j == k then some v else other

  table_get-insert :
      (j k : Text) (v : Option V) (t : Table V)
      → table_get t j ≡ none
      → table_get (insert_arm (j, v) t) k ≡ found j k v (table_get t k)
  unfolding insert_arm table_get
  table_get-insert j k v [] h = refl
  table_get-insert j k v ((i, w) ∷ t) h = elim (Bool-cases (i == j)) [
    | inl same ↦ absurd (none-ne-some (sym (rw same at h)))
    | inr apart ↦ elim (Bool-cases (key_before j i)) [
      | inl first ↦ rw first refl
      | inr later ↦ elim (Bool-cases (i == k)) [
        | inl here ↦
            rw (later, table_get, here)
              (rw (differs j k (λ q. apart_of i j apart ((eq_iff i k).0 here ∙ sym q))) refl)
        | inr there ↦ rw (later, table_get, there) (table_get-insert j k v t (rw apart at h))
      ]
    ]
  ]

  -- The order of the arms does not matter.
  table_get-sorted :
      (t : Table V) (k : Text) → IsDistinct t → table_get (sorted_arms t) k ≡ table_get t k
  unfolding sorted_arms IsDistinct table_get
  table_get-sorted [] k h = refl
  table_get-sorted ((j, v) ∷ t) k (h, hs) =
      table_get-insert j k v (sorted_arms t) (table_get-sorted t j hs ∙ h)
      ∙ rw (table_get-sorted t k hs) refl

  set-IsDistinct :
      (t : Table V) (k : Text) (v : Option V) → IsDistinct t → IsDistinct (table_set t k v)
  unfolding IsDistinct table_set table_get
  set-IsDistinct [] k v h = (refl, tt)
  set-IsDistinct ((j, w) ∷ t) k v (h, hs) = elim (Bool-cases (j == k)) [
    | inl same ↦ rw same (subst (λ x. table_get t x ≡ none) ((eq_iff j k).0 same) h, hs)
    | inr apart ↦
        rw apart (
          table_get-set_other t j k v (λ q. apart_of j k apart (sym q)) ∙ h,
          set-IsDistinct t k v hs,
        )
  ]

  module _ ⦃e : Eq V⦄ (deeper : Items V → Table V → Table V × ℕ)
      (keeps : (group : Items V) (out : Table V)
        → IsDistinct out
        → IsDistinct (deeper group out).0) where
    place-IsDistinct :
        (key : Text) (group : Items V) (out : Table V) (v : Option V) (more : Bool)
        → IsDistinct out
        → IsDistinct (place deeper key group out v more).0
    place-IsDistinct key group out (some v) more h = set-IsDistinct out key (some v) h
    place-IsDistinct key group out none false h = h
    place-IsDistinct key group out none true h =
        keeps group (table_set out key none) (set-IsDistinct out key none h)

    visit-IsDistinct :
        (depth : ℕ) (groups : List (Text × Items V)) (out : Table V) (dropped : ℕ)
        → IsDistinct out
        → IsDistinct (visit deeper depth groups out dropped).0
    unfolding visit
    visit-IsDistinct depth [] out dropped h = h
    visit-IsDistinct depth ((key, group) ∷ groups) out dropped h =
        let placed = place deeper key group out (unanimous group) (has_deeper depth group) in
        visit-IsDistinct depth groups placed.0 (dropped + placed.1)
          (place-IsDistinct key group out (unanimous group) (has_deeper depth group) h)

  build-IsDistinct :
      ⦃e : Eq V⦄
      → (fuel : ℕ) (items : Items V) (depth : ℕ) (out : Table V) → IsDistinct out
      → IsDistinct (build fuel items depth out).0
  unfolding build
  build-IsDistinct zero items depth out h =
      visit-IsDistinct (λ group out'. (out', 0)) (λ group out' k. k) depth
        (group_from depth items []) out 0 h
  build-IsDistinct (suc fuel) items depth out h =
      visit-IsDistinct (λ group out'. build fuel group (depth + 1) out')
        (λ group out' k. build-IsDistinct fuel group (depth + 1) out' k) depth
        (group_from depth items []) out 0 h

  walk-sorted :
      (t : Table V) (s : List ℕ) (depth n : ℕ)
      → IsDistinct t
      → walk (sorted_arms t) s depth n ≡ walk t s depth n
  unfolding walk
  walk-sorted t s depth zero h = refl
  walk-sorted t s depth (suc n) h =
      rw (table_get-sorted t (key_of s depth) h, walk-sorted t s (depth + 1) n h) refl

  -- The arms are written in the order of their depths and keys, and not in that of the table. The
  -- lookup through them finds what the lookup in the table finds, for every stack and bound.
  pub lookup-sorted_arms :
      ⦃e : Eq V⦄
      → (accepts : V → Bool) (bound : ℕ) (items : Items V) (s : List ℕ)
      → lookup accepts bound (sorted_arms (table_of items)) s
        ≡ lookup accepts bound (table_of items) s
  unfolding IsDistinct
  lookup-sorted_arms accepts bound items s =
      ap (guarded accepts)
        (walk-sorted (table_of items) s 1 _ (build-IsDistinct (longest items) items 1 [] tt))

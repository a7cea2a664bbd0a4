-- ===== src/Messages/Table/Laws.antt =====
-- What the generated table answers, in terms of the recorded items alone.
use mathlib.Core.List.{Memᴰ}
use mathlib.Core.List.Memᴰ.{head, tail, cast}
use wax_mb.Base.{
  Bool-cases, some_inj, none-ne-some, none, inl, inr, Option, ℕ, ◌+◌, ◌≤◌, ◌<◌, ◌≡◌, ◌↔◌, refl,
  arith, Bool, some, List, [], ◌∷◌, length, ◌==◌, ◌&&◌, not, Eq, eq_iff, true, list_eq, nat_eq, sym,
  ◌∙◌, ap, ltb, all, min,
}
use wax_mb.Messages.Key.{last_frames}
use wax_mb.Messages.Key.Injective.{key_of-injective}
use wax_mb.Messages.Key.Frames.{whole}
use wax_mb.Messages.Table.{
  Table, Items, table_get, walk, lookup, guarded, max_depth, longest, table_of,
}
use wax_mb.Messages.Table.Depth.{walk-min, max_depth-bounds}
use wax_mb.Messages.Table.Visit.{recorded, Clear}
use wax_mb.Messages.Table.Build.{IsBuildable, IsBuildable-ready, build-walk}
use wax_mb.Messages.Table.Recorded.{IsShared, recorded_unique, recorded-found, recorded-IsShared}

holds_of_all :
    {A : Type 0} (p : A → Bool) (x : A) (xs : List A) → all p xs ≡ true → Memᴰ x xs → p x ≡ true
holds_of_all p x [] h m = elim m [ ]
holds_of_all p x (y ∷ ys) h (head q) = ap p q ∙ ground arith
holds_of_all p x (y ∷ ys) h (tail m) = holds_of_all p x ys (ground arith) m

-- Whether `b` is longer than `a` and ends in it.
abbrev extends : List ℕ → List ℕ → Bool
extends a b = ltb (length a) (length b) && last_frames (length a) b == a

module _ {V : Type 0} where
  abbrev stands_apart : Items V → List ℕ × V → Bool
  stands_apart items a = ltb 0 (length a.0) && all (λ (b : List ℕ × V). not (extends a.0 b.0)) items

  -- Whether no stack is empty and none is a proper suffix of another.
  abbrev pub ends_apart : Items V → Bool
  ends_apart items = all (stands_apart items) items

  longest-bound :
      (items : Items V) (item : List ℕ × V) → Memᴰ item items → length item.0 ≤ longest items
  longest-bound [] item m = elim m [ ]
  longest-bound ((stack, v) ∷ items) item (head q) =
      let same : length item.0 ≡ length stack = ap (λ (i : List ℕ × V). length i.0) q in
      omega (arith, same)
  longest-bound ((stack, v) ∷ items) item (tail m) = omega (arith, longest-bound items item m)

module _ {V : Type 0} ⦃e : Eq V⦄ where
  ends_apart-IsBuildable :
      (items : Items V) → ends_apart items ≡ true → IsBuildable 1 (longest items) items
  unfolding IsBuildable
  ends_apart-IsBuildable items h = (
    λ item m.
        let apart : stands_apart items item ≡ true =
          holds_of_all (stands_apart items) item items h m in
        (ground arith, omega (arith, longest-bound items item m)),
    λ a b m m' shorter same.
        let apart : stands_apart items a ≡ true = holds_of_all (stands_apart items) a items h m in
        let unlike : not (extends a.0 b.0) ≡ true =
          holds_of_all (λ (i : List ℕ × V). not (extends a.0 i.0)) b items (ground arith) m' in
        let frames : last_frames (length a.0) b.0 ≡ a.0 =
          key_of-injective b.0 a.0 (length a.0) (length a.0) (ground arith) (ground arith)
            (ground arith) (ground arith) same
          ∙ whole a.0 in
        ground (arith, (eq_iff (last_frames (length a.0) b.0) a.0).1 frames),
  )

  walk-recorded :
      (items : Items V) (s : List ℕ) (n : ℕ)
      → ends_apart items ≡ true
      → n ≤ length s
      → walk (table_of items) s 1 n ≡ recorded items s 1 n
  unfolding Clear table_get
  walk-recorded items s n h b =
      build-walk (longest items) 1 items [] s n (omega arith) (ends_apart-IsBuildable items h)
        (omega arith) (λ d p q. refl)

  guarded-some :
      (accepts : V → Bool) (o : Option V) (v : V)
      → (guarded accepts o ≡ some v) ↔ ((o ≡ some v) × (accepts v ≡ true))
  guarded-some accepts none v = (λ h. absurd (none-ne-some h), λ r. absurd (none-ne-some r.0))
  guarded-some accepts (some x) v = elim (Bool-cases (accepts x)) [
    | inl good ↦ rw good (λ h. (h, ap accepts (sym (some_inj h)) ∙ good), λ r. r.0)
    | inr bad ↦ rw bad (
      λ h. absurd (none-ne-some h),
      λ r. let good : accepts x ≡ true = ap accepts (some_inj r.0) ∙ r.1 in cc,
    )
  ]

  -- For items without an empty stack, none of whose stacks is a proper suffix of another, the
  -- lookup of a recorded stack in the table that `build` makes, bounded by the `max_depth` of this
  -- and any second table, finds a value exactly if all items of that stack carry the value and the
  -- test of its signature accepts it.
  pub table_answers_recorded :
      (accepts : V → Bool) (items : Items V) (reduced : Table V) (s : List ℕ) (u v : V)
      → ends_apart items ≡ true
      → Memᴰ (s, u) items
      → (lookup accepts (max_depth (table_of items) reduced) (table_of items) s ≡ some v)
        ↔ (((w : V) → Memᴰ (s, w) items → w ≡ v) × (accepts v ≡ true))
  table_answers_recorded accepts items reduced s u v h m =
      let bound = max_depth (table_of items) reduced in
      let answer : walk (table_of items) s 1 (min (length s) bound)
          ≡ recorded items s 1 (length s) =
        walk-min (table_of items) s bound (max_depth-bounds (table_of items) reduced)
        ∙ walk-recorded items s (length s) h (omega arith) in
      let guard = guarded-some accepts (walk (table_of items) s 1 (min (length s) bound)) v in
      (
        λ found.
            let r = guard.0 found in
            (λ w m'. recorded_unique (length s) 1 items s v w (sym answer ∙ r.0) m', r.1),
        λ one. guard.1 (
          answer
              ∙ recorded-found (length s) (longest items) 1 items s v (omega arith) (omega arith)
                  (ends_apart-IsBuildable items h)
                  (cast (ap (λ (x : V). (s, x)) (sym (one.0 u m))) m) one.0,
          one.1,
        ),
      )

  -- For such items, whatever the lookup finds for a stack, recorded or not, under any bound, the
  -- test of its signature accepts it, some number of the last frames of the stack, at least one and
  -- within the bound, is shared with a recorded stack, and all items that share them carry it.
  pub table_answers-IsShared :
      (accepts : V → Bool) (items : Items V) (s : List ℕ) (bound : ℕ) (v : V)
      → ends_apart items ≡ true
      → lookup accepts bound (table_of items) s ≡ some v
      → (accepts v ≡ true)
        × ((c : ℕ) × (1 ≤ c) × (c < 1 + min (length s) bound) × IsShared items s v c)
  table_answers-IsShared accepts items s bound v h found =
      let r = (guarded-some accepts (walk (table_of items) s 1 (min (length s) bound)) v).0 found in
      (
        r.1,
        recorded-IsShared (min (length s) bound) 1 items s v (omega arith) (omega arith)
            (IsBuildable-ready 1 (longest items) items (ends_apart-IsBuildable items h))
            (sym (walk-recorded items s (min (length s) bound) h (omega arith)) ∙ r.0),
      )

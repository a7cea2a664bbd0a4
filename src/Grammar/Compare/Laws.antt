-- ===== src/Grammar/Compare/Laws.antt =====
-- When the comparison finds nothing, and what it does not see.
use wax_mb.Base.{
  ℕ, ◌≡◌, ◌↔◌, refl, ◌∙◌, arith, Text, Bool, true, false, not, ◌&&◌, ◌||◌, Option, none, some, List,
  [], ◌∷◌, ◌==◌, list_eq, nat_eq, eq_iff, length, contains, select, Bool-cases, inl, inr, all,
  all_of_contains,
}
use wax_mb.Grammar.Parse.{Production}
use wax_mb.Grammar.Compare.{
  Rules, renamed, is_dummy, is_helper, is_expected, mapped, names, missing, extra, count_of,
  CountDiff, differ_by, count_diffs, unexplained, compare_rules, status,
}

module _ {A : Type 0} where
  select-none : (p : A → Bool) (xs : List A) → (length (select p xs) == 0) ≡ all (λ x. not (p x)) xs
  select-none p [] = refl
  select-none p (x ∷ xs) = ground (arith, select-none p xs)

  all_both : (p q : A → Bool) (xs : List A) → (all p xs && all q xs) ≡ all (λ x. p x && q x) xs
  all_both p q [] = refl
  all_both p q (x ∷ xs) = ground (arith, all_both p q xs)

-- A rule of the reference is a rule of ours, with as many productions or listed as an exception.
abbrev pub is_matched_by : Option ℕ → Text → ℕ → Bool
is_matched_by none k here = false
is_matched_by (some there) k here = here == there || is_expected k

pub is_matched : Rules → Text × List Production → Bool
is_matched ours r = is_dummy r.0 || is_matched_by (count_of (renamed r.0) ours) r.0 (length r.1)

-- A rule of ours stands for one of the reference, or is listed as a helper.
pub is_translated : Rules → Text → Bool
is_translated [] k = is_helper k
is_translated (r ∷ ref) k = (not (is_dummy r.0) && k == renamed r.0) || is_translated ref k

abbrev is_some : Option ℕ → Bool
is_some none = false
is_some (some n) = true

contains-names : (k : Text) (ours : Rules) → contains k (names ours) ≡ is_some (count_of k ours)
unfolding count_of
contains-names k [] = refl
contains-names k ((n, prods) ∷ ours) = elim (Bool-cases (k == n)) [
  | inl here ↦ rw here refl
  | inr later ↦ rw later (contains-names k ours)
]

all-mapped :
    (p : Text → Bool) (ref : Rules)
    → all p (mapped ref) ≡ all (λ (r : Text × List Production). is_dummy r.0 || p (renamed r.0)) ref
unfolding mapped
all-mapped p [] = refl
all-mapped p ((k, prods) ∷ ref) = elim (Bool-cases (is_dummy k)) [
  | inl d ↦ rw d (all-mapped p ref)
  | inr d ↦ elim (Bool-cases (contains (renamed k) (mapped ref))) [
    | inl c ↦
        rw (d, c) (ground (arith, all-mapped p ref, all_of_contains p (renamed k) (mapped ref)))
    | inr c ↦ rw (d, c) (ground (arith, all-mapped p ref))
  ]
]

is_translated-mapped :
    (ref : Rules) (k : Text) → (contains k (mapped ref) || is_helper k) ≡ is_translated ref k
unfolding mapped is_translated
is_translated-mapped [] k = refl
is_translated-mapped ((n, prods) ∷ ref) k = elim (Bool-cases (is_dummy n)) [
  | inl d ↦ rw d (is_translated-mapped ref k)
  | inr d ↦ elim (Bool-cases (contains (renamed n) (mapped ref))) [
    | inl c ↦ elim (Bool-cases (k == renamed n)) [
      | inl e ↦ rw (d, c, e) (rw ((eq_iff k (renamed n)).0 e, c) refl)
      | inr e ↦ rw (d, c, e) (is_translated-mapped ref k)
    ]
    | inr c ↦ rw (d, c) (ground (arith, is_translated-mapped ref k))
  ]
]

abbrev is_same_size : Rules → Text × List Production → Bool
is_same_size ours r =
    is_dummy r.0
    || (not (is_some (count_of (renamed r.0) ours))
        || is_matched_by (count_of (renamed r.0) ours) r.0 (length r.1))

all-differ_by :
    (k : Text) (here : ℕ) (there : Option ℕ) (rest : List CountDiff)
    → all (λ (d : CountDiff). is_expected d.0) (differ_by k here there rest) ≡ (
        (not (is_some there) || is_matched_by there k here)
        && all (λ (d : CountDiff). is_expected d.0) rest)
all-differ_by k here none rest = refl
all-differ_by k here (some there) rest = ground arith

all-count_diffs :
    (ours ref : Rules)
    → all (λ (d : CountDiff). is_expected d.0) (count_diffs ours ref) ≡ all (is_same_size ours) ref
unfolding count_diffs
all-count_diffs ours [] = refl
all-count_diffs ours ((k, prods) ∷ ref) = elim (Bool-cases (is_dummy k)) [
  | inl d ↦ rw d (all-count_diffs ours ref)
  | inr d ↦ rw d (
      all-differ_by k (length prods) (count_of (renamed k) ours) (count_diffs ours ref)
      ∙ rw (all-count_diffs ours ref) refl)
]

all-ext : {A : Type 0} (p q : A → Bool) (xs : List A) → ((x : A) → p x ≡ q x) → all p xs ≡ all q xs
all-ext p q [] h = refl
all-ext p q (x ∷ xs) h = ground (arith, h x, all-ext p q xs h)

-- The rules of the reference that ours has, each with as many productions
missing-none :
    (ours ref : Rules)
    → (length (missing ours ref) == 0)
      ≡ all
          (λ (r : Text × List Production). is_dummy r.0 || is_some (count_of (renamed r.0) ours))
          ref
unfolding missing
missing-none ours ref =
    select-none (λ k. not (contains k (names ours))) (mapped ref)
    ∙ all-ext (λ k. not (not (contains k (names ours)))) (λ k. is_some (count_of k ours))
        (mapped ref) (λ k. ground (arith, contains-names k ours))
    ∙ all-mapped (λ k. is_some (count_of k ours)) ref

extra-none :
    (ours ref : Rules) → (length (extra ours ref) == 0) ≡ all (is_translated ref) (names ours)
unfolding extra
extra-none ours ref =
    select-none (λ k. not (contains k (mapped ref)) && not (is_helper k)) (names ours)
    ∙ all-ext (λ k. not (not (contains k (mapped ref)) && not (is_helper k))) (is_translated ref)
        (names ours) (λ k. ground (arith, is_translated-mapped ref k))

unexplained-none :
    (ours ref : Rules)
    → (length (unexplained (count_diffs ours ref)) == 0) ≡ all (is_same_size ours) ref
unfolding unexplained
unexplained-none ours ref =
    select-none (λ (d : CountDiff). not (is_expected d.0)) (count_diffs ours ref)
    ∙ all-ext (λ (d : CountDiff). not (not (is_expected d.0))) (λ d. is_expected d.0)
        (count_diffs ours ref) (λ d. ground arith)
    ∙ all-count_diffs ours ref

matched_both :
    (ours : Rules) (r : Text × List Production)
    → ((is_dummy r.0 || is_some (count_of (renamed r.0) ours)) && is_same_size ours r)
      ≡ is_matched ours r
unfolding is_matched
matched_both ours r = by_count (count_of (renamed r.0) ours)
  where
    by_count :
        (n : Option ℕ)
        → ((is_dummy r.0 || is_some n)
            && (is_dummy r.0 || (not (is_some n) || is_matched_by n r.0 (length r.1))))
          ≡ (is_dummy r.0 || is_matched_by n r.0 (length r.1))
    by_count none = ground arith
    by_count (some n) = ground arith

-- The comparison exits with 0 exactly if every rule of the reference but `dummy_ctx` is there under
-- its new name, with as many productions or listed as an exception, and every rule of ours stands for
-- one of the reference or is listed as a helper.
pub compare_rules-status :
    (ours ref : Rules)
    → (status (compare_rules ours ref) ≡ 0)
      ↔ ((all (is_matched ours) ref ≡ true) × (all (is_translated ref) (names ours) ≡ true))
unfolding compare_rules status
compare_rules-status ours ref =
    let matched : ((length (missing ours ref) == 0)
          && (length (unexplained (count_diffs ours ref)) == 0))
        ≡ all (is_matched ours) ref =
      rw (missing-none ours ref, unexplained-none ours ref)
        (all_both
            (λ (r : Text × List Production). is_dummy r.0 || is_some (count_of (renamed r.0) ours))
            (is_same_size ours) ref
          ∙ all-ext
              (λ (r : Text × List Production).
                (is_dummy r.0 || is_some (count_of (renamed r.0) ours)) && is_same_size ours r)
              (is_matched ours) ref (matched_both ours)) in
    ground (arith, matched, extra-none ours ref)

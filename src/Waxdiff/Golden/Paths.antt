-- ===== src/Waxdiff/Golden/Paths.antt =====
-- The paths of the goldens.
use mathlib.Core.List.{
  reverse, reverse-append, reverse-reverse, append_cancel_left, append_cancel_right,
}
use wax_mb.Base.{
  starts_with-append, ℕ, ◌-◌, ◌≡◌, ◌≢◌, refl, ap, sym, ◌∙◌, arith, append_assoc, Text, codes, Bool,
  true, false, [], ◌∷◌, ◌++◌, ◌==◌, list_eq, nat_eq, nat_beq_iff, take, drop, length, length-append,
  starts_with, ends_with, remove_suffix, split_and,
}
use wax_mb.Waxdiff.Records.{Dirs}
use wax_mb.Waxdiff.Reprint.{reprint_path}
use wax_mb.Waxdiff.Errors.{diag_path}

prefix_split : (s p : Text) → starts_with s p ≡ true → s ≡ p ++ drop (length p) s
prefix_split s [] h = refl
prefix_split [] (x ∷ p) h = cc
prefix_split (c ∷ s) (x ∷ p) h =
    let (here, later) = split_and (c == x) (starts_with s p) h in
    rw ((nat_beq_iff c x).0 here) (ap (λ (t : Text). x ∷ t) (prefix_split s p later))

take-append_length : (a b : Text) → take (length a) (a ++ b) ≡ a
take-append_length [] b = refl
take-append_length (c ∷ a) b = ap (λ (t : Text). c ∷ t) (take-append_length a b)

-- A text that ends with a suffix is the text without it, and the suffix.
pub suffix_split : (s x : Text) → ends_with s x ≡ true → s ≡ remove_suffix s x ++ x
suffix_split s x h =
    let t = reverse (drop (length (reverse x)) (reverse s)) in
    let e : s ≡ t ++ x =
      sym (reverse-reverse s)
      ∙ ap reverse (prefix_split (reverse s) (reverse x) h)
      ∙ reverse-append (reverse x) (drop (length (reverse x)) (reverse s))
      ∙ ap (λ (y : Text). t ++ y) (reverse-reverse x) in
    let n : length s - length x ≡ length t =
      omega (arith, ap (λ (y : Text). length y) e, length-append t x) in
    let stem : take (length s - length x) s ≡ t =
      ap (λ (k : ℕ). take k s) n ∙ ap (take (length t)) e ∙ take-append_length t x in
    rw (h, stem) e

abbrev suffix : Text
suffix = codes ".wax"

module _ (dirs : Dirs) where
  same_stem :
      (a b : Text)
      → ends_with a suffix ≡ true
      → ends_with b suffix ≡ true
      → remove_suffix a suffix ≡ remove_suffix b suffix
      → a ≡ b
  same_stem a b ha hb e =
      suffix_split a suffix ha ∙ ap (λ (t : Text). t ++ suffix) e ∙ sym (suffix_split b suffix hb)

  pub reprint_path-injective :
      (a b : Text)
      → ends_with a suffix ≡ true
      → ends_with b suffix ≡ true
      → reprint_path dirs a ≡ reprint_path dirs b
      → a ≡ b
  reprint_path-injective a b ha hb e = same_stem a b ha hb (
      append_cancel_left (dirs.golden ++ codes "/") _ _
        (append_cancel_right _ _ (codes ".reprint") e))

  pub diag_path-injective :
      (a b : Text)
      → ends_with a suffix ≡ true
      → ends_with b suffix ≡ true
      → diag_path dirs a ≡ diag_path dirs b
      → a ≡ b
  diag_path-injective a b ha hb e = same_stem a b ha hb (
      append_cancel_left (dirs.golden ++ codes "/") _ _
        (append_cancel_right _ _ (codes ".diag.jsonl") e))

abbrev last_is : ℕ → Text → Bool
last_is c s = starts_with (reverse s) (c ∷ [])

last_is-append :
    (c : ℕ) (a x : Text) → last_is c (a ++ x) ≡ starts_with (reverse x ++ reverse a) (c ∷ [])
last_is-append c a x = ap (λ (s : Text). starts_with s (c ∷ [])) (reverse-append a x)

-- Two texts whose last parts end in two characters are not one.
apart :
    (c : ℕ) (a x b y : Text)
    → starts_with (reverse x ++ reverse a) (c ∷ []) ≡ true
    → starts_with (reverse y ++ reverse b) (c ∷ []) ≡ false
    → a ++ x ≢ b ++ y
apart c a x b y h k e =
    let joined : last_is c (a ++ x) ≡ last_is c (b ++ y) = ap (last_is c) e in
    let left = last_is-append c a x in let right = last_is-append c b y in cc

abbrev pub index_path : Dirs → Text
index_path dirs = dirs.golden ++ codes "/index.json"

-- The path stands in the directory GOLDEN.
abbrev pub below : Dirs → Text → Bool
below dirs p = starts_with p (dirs.golden ++ codes "/")

below-append : (dirs : Dirs) (a b : Text) → below dirs (dirs.golden ++ codes "/" ++ a ++ b) ≡ true
below-append dirs a b =
    rw (append_assoc (dirs.golden ++ codes "/") a b)
      (starts_with-append (dirs.golden ++ codes "/") (a ++ b))

pub reprint_path-below : (dirs : Dirs) (a : Text) → below dirs (reprint_path dirs a) ≡ true
reprint_path-below dirs a = below-append dirs (remove_suffix a suffix) (codes ".reprint")

pub diag_path-below : (dirs : Dirs) (a : Text) → below dirs (diag_path dirs a) ≡ true
diag_path-below dirs a = below-append dirs (remove_suffix a suffix) (codes ".diag.jsonl")

pub index_path-below : (dirs : Dirs) → below dirs (index_path dirs) ≡ true
index_path-below dirs =
    rw (← append_assoc dirs.golden (codes "/") (codes "index.json"))
      (starts_with-append (dirs.golden ++ codes "/") (codes "index.json"))

module _ (dirs : Dirs) (a : Text) where
  abbrev before : Text
  before = dirs.golden ++ codes "/" ++ remove_suffix a suffix

  pub reprint_path-ne-diag_path : (b : Text) → reprint_path dirs a ≢ diag_path dirs b
  reprint_path-ne-diag_path b =
      apart b't' before (codes ".reprint") (dirs.golden ++ codes "/" ++ remove_suffix b suffix)
        (codes ".diag.jsonl") refl refl

  pub reprint_path-ne-index_path : reprint_path dirs a ≢ index_path dirs
  reprint_path-ne-index_path =
      apart b't' before (codes ".reprint") dirs.golden (codes "/index.json") refl refl

  pub diag_path-ne-index_path : diag_path dirs a ≢ index_path dirs
  diag_path-ne-index_path =
      apart b'l' before (codes ".diag.jsonl") dirs.golden (codes "/index.json") refl refl

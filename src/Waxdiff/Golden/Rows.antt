-- ===== src/Waxdiff/Golden/Rows.antt =====
-- The rows of a golden of diagnostics, written and read.
use wax_mb.Base.{
  Every, ℕ, suc, ◌+◌, ◌-◌, ◌≤◌, ◌≡◌, refl, ap, sym, ◌∙◌, arith, Text, codes, Bool, true, ◌&&◌, none,
  some, some_inj, List, [], ◌∷◌, ◌++◌, map, ◌==◌, eq_self, list_eq, nat_eq, nat_beq_iff, drop,
  Bool-cases, Option-cases, inl, inr, starts_with, rfind, rfind_from, split_and, strip, is_line,
  is_solid, unlines, splitlines-unlines, strip_solid, all,
}
use wax_mb.Waxdiff.Diagnostics.{
  Value, null, int, str, other, Diagnostic, get, set_field, file_field, marker, anchored,
  normalize_file, Loads, load_lines, parse_jsonl,
}
use wax_mb.Waxdiff.Golden.{Dumps, to_jsonl}

rfind_from-none : (i j : ℕ) (s x : Text) → rfind_from i s x ≡ none → rfind_from j s x ≡ none
rfind_from-none i j [] x h = ground (arith)
rfind_from-none i j (c ∷ s) x h = ground (arith, rfind_from-none (i + 1) (j + 1) s x)

module _ (x : Text) where
  found_here :
      (i k j : ℕ) (s : Text)
      → some i ≡ some j
      → rfind_from k s x ≡ some k
      → (i ≤ j) × (rfind_from k (drop (j - i) s) x ≡ some k)
  found_here i k j s e h =
      let same = some_inj e in (omega arith, rw ((let n : j - i ≡ 0 = omega arith in n)) h)

  -- The text from the last occurrence on has its last occurrence at its start.
  rfind_from-again :
      (i k j : ℕ) (s : Text)
      → rfind_from i s x ≡ some j
      → (i ≤ j) × (rfind_from k (drop (j - i) s) x ≡ some k)
  rfind_from-again i k j [] h = elim (Bool-cases (starts_with [] x)) [
    | inl e ↦ found_here i k j [] (rw e at h) (rw e refl)
    | inr e ↦ let impossible : none ≡ some j = rw e at h in cc
  ]
  rfind_from-again i k j (c ∷ s) h = elim (Option-cases (rfind_from (i + 1) s x)) [
    | inl e ↦ elim (Bool-cases (starts_with (c ∷ s) x)) [
      | inl q ↦
          found_here i k j (c ∷ s) (rw (e, q) at h)
            (rw (rfind_from-none (i + 1) (k + 1) s x e, q) refl)
      | inr q ↦ let impossible : none ≡ some j = rw (e, q) at h in cc
    ]
    | inr (j', e) ↦
        let same : some j' ≡ some j = rw e at h in
        let (le, ih) = rfind_from-again (i + 1) k j s (e ∙ same) in
        let n : j - i ≡ suc (j - (i + 1)) = omega arith in
        (omega arith, ap (λ (m : ℕ). rfind_from k (drop m (c ∷ s)) x) n ∙ ih)
  ]

pub rfind-again : (s x : Text) (j : ℕ) → rfind s x ≡ some j → rfind (drop j s) x ≡ some 0
rfind-again s x j h =
    ap (λ (m : ℕ). rfind (drop m s) x) ((let n : j ≡ j - 0 = omega arith in n))
    ∙ (rfind_from-again x 0 0 j s h).1

get-set_field : (d : Diagnostic) (f : Text) (v : Value) → get (set_field d f v) f ≡ v
unfolding get set_field
get-set_field [] f v = rw (eq_self f) refl
get-set_field ((k, w) ∷ d) f v = ground (arith, get-set_field d f v)

set_field-set_field :
    (d : Diagnostic) (f : Text) (v : Value) → set_field (set_field d f v) f v ≡ set_field d f v
unfolding set_field
set_field-set_field [] f v = rw (eq_self f) refl
set_field-set_field ((k, w) ∷ d) f v = ground (arith, set_field-set_field d f v)

anchored_at : (f : Text) (j : ℕ) → rfind f marker ≡ some j → anchored f ≡ drop j f
unfolding anchored
anchored_at f j h = rw (h, anchored) refl

-- A diagnostic whose file was cut is not cut again.
module _ (d : Diagnostic) (f : Text) (j : ℕ) (named : get d file_field ≡ str f)
    (at : rfind f marker ≡ some j) where
  abbrev cut : Diagnostic
  cut = set_field d file_field (str (drop j f))

  normalize_file-cut : normalize_file d ≡ cut
  unfolding normalize_file
  normalize_file-cut = rw (named, normalize_file) (rw (at, anchored_at f j at) refl)

  cut_again : normalize_file cut ≡ cut
  unfolding normalize_file
  cut_again =
      let again = rfind-again f marker j at in
      rw (get-set_field d file_field (str (drop j f)), normalize_file)
        (rw (again, anchored_at (drop j f) 0 again)
          (set_field-set_field d file_field (str (drop j f))))

normalize_again :
    (d : Diagnostic) (v : Value)
    → get d file_field ≡ v
    → normalize_file (normalize_file d) ≡ normalize_file d
unfolding normalize_file
normalize_again d (str f) named = elim (Option-cases (rfind f marker)) [
  | inl e ↦
      let same : normalize_file d ≡ d = rw (named, normalize_file) (rw e refl) in
      ap normalize_file same
  | inr (j, at) ↦
      ap normalize_file (normalize_file-cut d f j named at)
      ∙ cut_again d f j named at
      ∙ sym (normalize_file-cut d f j named at)
]
normalize_again d null named =
    let same : normalize_file d ≡ d = rw (named, normalize_file) refl in ap normalize_file same
normalize_again d (int n) named =
    let same : normalize_file d ≡ d = rw (named, normalize_file) refl in ap normalize_file same
normalize_again d (other n) named =
    let same : normalize_file d ≡ d = rw (named, normalize_file) refl in ap normalize_file same

pub normalize_file-normalize_file :
    (d : Diagnostic) → normalize_file (normalize_file d) ≡ normalize_file d
normalize_file-normalize_file d = normalize_again d (get d file_field) refl

pub normalize_files_again :
    (ds : List Diagnostic) → map normalize_file (map normalize_file ds) ≡ map normalize_file ds
normalize_files_again [] = refl
normalize_files_again (d ∷ ds) = rw (normalize_file-normalize_file d, normalize_files_again ds) refl

-- One line that starts with a brace and ends in a character that is not blank
abbrev pub is_row : Text → Bool
is_row t = is_line t && (is_solid t && starts_with t (codes "{"))

row_cons : (t : Text) → starts_with t (codes "{") ≡ true → (s : Text) × (t ≡ b'{' ∷ s)
row_cons [] h = cc
row_cons (c ∷ s) h =
    (s, ap (λ (x : ℕ). x ∷ s) ((nat_beq_iff c b'{').0 (split_and (c == b'{') true h).0))

strip_row : (t : Text) → is_row t ≡ true → (s : Text) × (strip t ≡ b'{' ∷ s)
strip_row t h =
    let (line, rest) = split_and (is_line t) (is_solid t && starts_with t (codes "{")) h in
    let (solid, brace) = split_and (is_solid t) (starts_with t (codes "{")) rest in
    let (s, e) = row_cons t brace in
    (s, ap (λ (x : Text). strip x) e ∙ strip_solid b'{' s refl (rw e at solid))

load_lines-cons :
    (loads : Loads) (l : Text) (ls : List Text) (d : Diagnostic) (ds : List Diagnostic) (c : ℕ)
    (s : Text)
    → strip l ≡ c ∷ s
    → loads l ≡ some d
    → load_lines loads ls ≡ some ds
    → load_lines loads (l ∷ ls) ≡ some (d ∷ ds)
unfolding load_lines
load_lines-cons loads l ls d ds c s e q r = rw (e, load_lines) (rw (q, load_lines) (rw r refl))

abbrev pub rows : Dumps → List Diagnostic → List Text
rows dumps ds = map (λ (d : Diagnostic). dumps (normalize_file d)) ds

-- The diagnostic is dumped as one row, from which it is read back.
abbrev pub IsDumped : Loads → Dumps → Diagnostic → Type 0
IsDumped loads dumps d =
    (is_row (dumps (normalize_file d)) ≡ true)
    × (loads (dumps (normalize_file d)) ≡ some (normalize_file d))

module _ (loads : Loads) (dumps : Dumps) where
  to_jsonl-unlines : (ds : List Diagnostic) → to_jsonl dumps ds ≡ unlines (rows dumps ds)
  unfolding to_jsonl
  to_jsonl-unlines [] = refl
  to_jsonl-unlines (d ∷ ds) =
      ap (λ (t : Text). dumps (normalize_file d) ++ (b'\n' ∷ t)) (to_jsonl-unlines ds)

  load_lines-rows :
      (ds : List Diagnostic)
      → Every (IsDumped loads dumps) ds
      → load_lines loads (rows dumps ds) ≡ some (map normalize_file ds)
  unfolding load_lines
  load_lines-rows [] h = refl
  load_lines-rows (d ∷ ds) ((row, reads), later) =
      let (s, e) = strip_row (dumps (normalize_file d)) row in
      load_lines-cons loads (dumps (normalize_file d)) (rows dumps ds) (normalize_file d)
        (map normalize_file ds) b'{' s e reads (load_lines-rows ds later)

  is_line-rows :
      (ds : List Diagnostic) → Every (IsDumped loads dumps) ds → all is_line (rows dumps ds) ≡ true
  is_line-rows [] h = refl
  is_line-rows (d ∷ ds) ((row, reads), later) = ground (arith, is_line-rows ds later)

  pub parse_jsonl-to_jsonl :
      (ds : List Diagnostic)
      → Every (IsDumped loads dumps) ds
      → parse_jsonl loads (to_jsonl dumps ds) ≡ some (map normalize_file ds)
  unfolding parse_jsonl
  parse_jsonl-to_jsonl ds h =
      rw (to_jsonl-unlines ds, splitlines-unlines (rows dumps ds) (is_line-rows ds h))
        (load_lines-rows ds h)

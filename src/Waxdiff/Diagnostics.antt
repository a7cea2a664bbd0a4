-- ===== src/Waxdiff/Diagnostics.antt =====
-- Diagnostics as the harness reads them: a JSON object per line (`parse_jsonl`), fields read by
-- `d.get(f)`, and `normalize_file`.
use wax_mb.Base.{
  ℕ, ℤ, int_eq, Text, codes, Bool, true, false, ◌≡◌, refl, ◌↔◌, Option, none, some, List, [], ◌∷◌,
  map, ◌==◌, Eq, eq_iff, list_eq, nat_eq, if◌then◌else◌, contains, rfind, drop, splitlines, strip,
  arith,
}

-- A JSON value as Python compares it. A Boolean is the integer that it equals; `other` stands for
-- an array or an object, by a number that tells unequal ones apart. There are no fractions.
pub data Value : Type 0 where
  null : Value
  int : ℤ → Value
  str : Text → Value
  other : ℕ → Value

abbrev pub value_beq : Value → Value → Bool
value_beq null null = true
value_beq (int a) (int b) = a == b
value_beq (str a) (str b) = a == b
value_beq (other a) (other b) = a == b
value_beq _ _ = false

pub value_beq_iff : (a b : Value) → (value_beq a b ≡ true) ↔ (a ≡ b)
value_beq_iff null null = ground arith
value_beq_iff (int a) (int b) = ground (arith, eq_iff a b)
value_beq_iff (str a) (str b) = ground (arith, eq_iff a b)
value_beq_iff (other a) (other b) = ground (arith, eq_iff a b)
value_beq_iff _ _ = ground arith

instance abbrev pub value_eq : Eq Value
value_eq = record { decides = value_beq_iff; test = value_beq }

abbrev pub Diagnostic : Type 0
Diagnostic = List (Text × Value)

-- `d.get(f)`: a missing field reads as `None`, and so does JSON's null.
unfoldable pub get : Diagnostic → Text → Value
get [] f = null
get ((k, v) ∷ d) f = if k == f then v else get d f

-- `{**d, f: v}`, for a key that `d` has
unfoldable pub set_field : Diagnostic → Text → Value → Diagnostic
set_field [] f v = (f, v) ∷ []
set_field ((k, w) ∷ d) f v = if k == f then (k, v) ∷ d else (k, w) ∷ set_field d f v

abbrev pub marker : Text
marker = codes "test/corpus/"

abbrev pub file_field : Text
file_field = codes "file"

-- the part of a path from the last "test/corpus/" on
unfoldable pub anchored : Text → Text
anchored f = elim (rfind f marker) [ none ↦ f | some at ↦ drop at f ]

unfoldable pub normalize_file : Diagnostic → Diagnostic
unfolding anchored
normalize_file d = elim (get d file_field) [
  | str f ↦ elim (rfind f marker) [ none ↦ d | some _ ↦ set_field d file_field (str (anchored f)) ]
  | _ ↦ d
]

-- `json.loads` of a line is a parameter; `none` is its JSONDecodeError.
abbrev pub Loads : Type 0
Loads = Text → Option Diagnostic

unfoldable pub load_lines : Loads → List Text → Option (List Diagnostic)
load_lines loads [] = some []
load_lines loads (l ∷ ls) = elim (strip l) [
  | [] ↦ load_lines loads ls
  | c ∷ s ↦ elim (loads l) [
    | none ↦ none
    | some d ↦ elim (load_lines loads ls) [ none ↦ none | some ds ↦ some (d ∷ ds) ]
  ]
]

unfoldable pub parse_jsonl : Loads → Text → Option (List Diagnostic)
unfolding load_lines
parse_jsonl loads text = load_lines loads (splitlines text)

-- A field that is not among the keys reads as `None`.
pub get_absent :
    (d : Diagnostic) (f : Text)
    → contains f (map (λ (field : Text × Value). field.0) d) ≡ false
    → get d f ≡ null
unfolding get
get_absent [] f h = refl
get_absent ((k, v) ∷ d) f h = ground (arith, eq_iff k f, eq_iff f k, get_absent d f)

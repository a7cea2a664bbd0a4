-- ===== src/Waxdiff/Fuzz/Findings.antt =====
-- The shapes of findings 9 and 12: `_is_finding9` and `_is_finding12`. `none` is the TypeError that
-- an offset of another type than an integer raises.
pub mod Laws
pub mod Timing
use wax_mb.Base.{
  ℕ, suc, ◌-◌, ℤ, pos, negsuc, int_eq, Text, codes, Bool, true, false, not, ◌&&◌, ◌||◌, Option,
  none, some, List, [], ◌∷◌, ◌++◌, map, ◌==◌, list_eq, nat_eq, if◌then◌else◌, ◌>>=◌, length, all,
  any, contains, starts_with, get_elem?, ltb, leb,
}
use wax_mb.Waxdiff.Diagnostics.{Value, null, int, str, other, value_eq, Diagnostic, get}
use wax_mb.Waxdiff.Records.{Policy}
use wax_mb.Waxdiff.Errors.{span_fields}

abbrev pub keys : Diagnostic → List Text
keys d = map (λ (field : Text × Value). field.0) d

-- The loop over `set(w) | set(g)`: a gated field that is no span field agrees.
abbrev pub agrees_at : List Text → Diagnostic → Diagnostic → Text → Bool
agrees_at gated w g k = get w k == get g k || not (contains k gated) || contains k span_fields

unfoldable pub core_agrees : List Text → Diagnostic → Diagnostic → Bool
core_agrees gated w g = all (agrees_at gated w g) (keys w ++ keys g)

unfoldable pub spans_differ : Diagnostic → Diagnostic → Bool
spans_differ w g = any (λ k. not (get w k == get g k)) span_fields

abbrev pub start_offset : Text
start_offset = codes "startOffset"

abbrev pub end_offset : Text
end_offset = codes "endOffset"

abbrev pub message : Text
message = codes "message"

-- `end - 1`
abbrev pub before : Value → Option Value
before (int (pos ℕ.zero)) = some (int (negsuc 0))
before (int (pos (suc n))) = some (int (pos n))
before (int (negsuc n)) = some (int (negsuc (suc n)))
before _ = none

-- The reference's span is the last character of ours.
abbrev pub last_character : Diagnostic → Value → Option Bool
last_character w end =
    if not (get w end_offset == end)
    then some false
    else do last ← before end; some (get w start_offset == last)

-- `0 <= start < len(raw)` and `raw[start : start + 1] == b'"'`
abbrev pub is_quote : Text → ℤ → Bool
is_quote raw (negsuc n) = false
is_quote raw (pos n) = elim (get_elem? raw n) [ none ↦ false | some c ↦ c == 34 ]

unfoldable pub at_quote : Text → Diagnostic → Value → Value → Option Bool
at_quote raw w null end = some false
at_quote raw w (int start) null = some false
at_quote raw w (int start) end = if is_quote raw start then last_character w end else some false
at_quote raw w (str s) null = some false
at_quote raw w (str s) end = none
at_quote raw w (other n) null = some false
at_quote raw w (other n) end = none

unfoldable pub finding9_pair : Text → List Text → Diagnostic → Diagnostic → Option Bool
finding9_pair raw gated w g =
    if not (core_agrees gated w g)
    then some false
    else if not (spans_differ w g)
    then some false
    else at_quote raw w (get g start_offset) (get g end_offset)

unfoldable pub finding9_pairs : Text → List Text → List Diagnostic → List Diagnostic → Option Bool
finding9_pairs raw gated [] got = some true
finding9_pairs raw gated (w ∷ ws) [] = some true
finding9_pairs raw gated (w ∷ ws) (g ∷ gs) = do
  same ← finding9_pair raw gated w g
  elim same [ true ↦ finding9_pairs raw gated ws gs | false ↦ some false ]

-- `raw` is `src.encode("utf-8")`.
unfoldable pub is_finding9 : Text → List Diagnostic → List Diagnostic → Policy → Option Bool
unfolding finding9_pairs
is_finding9 raw want got policy =
    if not (length want == length got) || length want == 0
    then some false
    else finding9_pairs raw policy.gated want got

-- `str(d.get("message", "")).startswith(_SYNTAX_MESSAGE)`
unfoldable pub is_syntax : Diagnostic → Bool
is_syntax d = elim (get d message) [
  | str m ↦ starts_with m (codes "Expecting ") || starts_with m (codes "Assuming that ")
  | _ ↦ false
]

-- `a <= b`
abbrev pub int_leb : ℤ → ℤ → Bool
int_leb (pos a) (pos b) = leb a b
int_leb (pos a) (negsuc b) = false
int_leb (negsuc a) (pos b) = true
int_leb (negsuc a) (negsuc b) = leb b a

unfoldable pub value_leb : Value → Value → Option Bool
value_leb (int a) (int b) = some (int_leb a b)
value_leb _ _ = none

-- The earlier diagnostic is a check of an action, and the later one is a syntax error.
abbrev pub syntax_follows : Diagnostic → Diagnostic → Bool
syntax_follows first second = is_syntax second && not (is_syntax first)

abbrev pub has_bounds : Diagnostic → Bool
has_bounds d = not (get d start_offset == null) && not (get d end_offset == null)

unfoldable pub by_order : Diagnostic → Diagnostic → Option Bool
by_order w g = value_leb (get w end_offset) (get g start_offset) >>= λ w_first.
    if w_first
    then some (syntax_follows w g)
    else (value_leb (get g end_offset) (get w start_offset) >>= λ g_first.
        some (g_first && syntax_follows g w))

unfoldable pub finding12_pair : List Text → Diagnostic → Diagnostic → Option Bool
finding12_pair gated w g =
    if not (core_agrees gated w g)
    then some false
    else if get w message == get g message
    then some false
    else if has_bounds w && has_bounds g
    then by_order w g
    else some false

unfoldable pub is_finding12 : List Diagnostic → List Diagnostic → Policy → Option Bool
unfolding finding12_pair
is_finding12 (w ∷ []) (g ∷ []) policy = finding12_pair policy.gated w g
is_finding12 _ _ policy = some false

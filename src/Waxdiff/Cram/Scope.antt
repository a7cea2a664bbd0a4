-- ===== src/Waxdiff/Cram/Scope.antt =====
-- `_cram_reason` and the selection that `cmd_classify_cram` makes and reports.
use wax_mb.Base.{
  ℕ, Text, codes, Bool, true, false, ◌&&◌, ◌||◌, Option, none, some, List, [], ◌∷◌, ◌++◌, map, ◌==◌,
  list_eq, nat_eq, if◌then◌else◌, split, has_substring, contains, ltb,
}
use wax_mb.Waxdiff.Cram.{
  Reason, script, flag, writes, reads, reads_file, subcommand, outside, cram_commands, cram_opaque,
  drop_assignments, words_reason,
}

-- `cmd.split("\n")[0]`
unfoldable pub first_line : Text → Text
first_line [] = []
first_line (c ∷ s) = let rest = first_line s in if c == b'\n' then [] else c ∷ rest

-- One more character in front of the first of the pieces.
abbrev pub push_front : ℕ → List Text → List Text
push_front c [] = (c ∷ []) ∷ []
push_front c (p ∷ ps) = (c ∷ p) ∷ ps

-- `re.split(r"\|\||&&|[|;]", s)`
unfoldable pub segments : Text → List Text
segments [] = [] ∷ []
segments (c ∷ []) = if c == b'|' || c == b';' then [] ∷ [] ∷ [] else (c ∷ []) ∷ []
segments (c ∷ d ∷ s) =
    let after_two = segments s in
    let after_one = segments (d ∷ s) in
    if (c == b'|' && d == b'|') || (c == b'&' && d == b'&')
    then [] ∷ after_two
    else if c == b'|' || c == b';'
    then [] ∷ after_one
    else push_front c after_one

-- An interpreter can run wax with flags that are not on the command line.
abbrev pub opaque_reason : List Text → Option Reason
opaque_reason [] = none
opaque_reason (w ∷ words) = if contains w cram_opaque then some (script w) else none

abbrev pub first_reason : Option Reason → Option Reason → Option Reason
first_reason none r = r
first_reason (some r) _ = some r

-- One round of the loop; `_cram_wax_reason` splits the segment again and drops the assignments
-- again, to the same words.
unfoldable pub segment_reason : Text → Option Reason
segment_reason seg =
    let words = drop_assignments (split seg) in
    first_reason (opaque_reason words) (words_reason words)

unfoldable pub segments_reason : List Text → Option Reason
unfolding segment_reason
segments_reason [] = none
segments_reason (seg ∷ segs) = first_reason (segment_reason seg) (segments_reason segs)

unfoldable pub cram_reason : Text → Option Reason
unfolding segments_reason segments first_line
cram_reason cmd = segments_reason (segments (first_line cmd))

abbrev pub add_reason : Option Reason → List Reason → List Reason
add_reason none rs = rs
add_reason (some r) rs = r ∷ rs

-- `[r for r in (_cram_reason(c) for c in commands) if r]`
unfoldable pub reasons_of : List Text → List Reason
unfolding cram_reason
reasons_of [] = []
reasons_of (c ∷ cs) = add_reason (cram_reason c) (reasons_of cs)

-- The reasons of a test, with the one that it reaches out of its directory.
unfoldable pub test_reasons : Text → List Reason
unfolding reasons_of
test_reasons text =
    reasons_of (cram_commands text)
    ++ (if has_substring text (codes "../") then outside ∷ [] else [])

-- The wording, where `repr` is Python's.
abbrev pub reason_text : (Text → Text) → Reason → Text
reason_text repr (script w) =
    codes "drives wax from a " ++ w ++ codes " script, so its invocations cannot be inspected"
reason_text repr (flag w) = codes "uses " ++ repr w ++ codes ", which wax-mb does not implement"
reason_text repr (writes w) = codes "writes " ++ repr w ++ codes ", which wax-mb does not implement"
reason_text repr (reads w) =
    codes "reads " ++ repr w ++ codes " input; only wax input is implemented"
reason_text repr (reads_file w) =
    codes "reads " ++ repr w ++ codes " input; only wax input is implemented"
reason_text repr (subcommand w) =
    codes "runs the " ++ repr w ++ codes " subcommand, which wax-mb does not implement"
reason_text repr outside = codes "reads paths outside its own directory"

-- `a < b`, of two texts
unfoldable pub text_less : Text → Text → Bool
text_less [] [] = false
text_less [] (y ∷ b) = true
text_less (x ∷ a) [] = false
text_less (x ∷ a) (y ∷ b) = ltb x y || (x == y && text_less a b)

-- `sorted(set(reasons))[0]`, for reasons that begin with `t`
unfoldable pub least : Text → List Text → Text
unfolding text_less
least t [] = t
least t (u ∷ ts) = let rest = least u ts in if text_less rest t then rest else t

-- `included` and `excluded`
pub record Selection : Type 0 where
  pub included : List Text
  pub excluded : List (Text × Text)

abbrev pub select_test : (Text → Text) → Text → List Reason → Selection → Selection
select_test repr name [] rest = record rest { included = name ∷ rest.included }
select_test repr name (r ∷ rs) rest = record rest {
  excluded = (name, least (reason_text repr r) (map (reason_text repr) rs)) ∷ rest.excluded;
}

-- The loop over the directories in their order, each with its run.t if it has one.
unfoldable pub classify : (Text → Text) → List (Text × Option Text) → Selection
unfolding test_reasons least
classify repr [] = record { included = []; excluded = [] }
classify repr ((name, none) ∷ dirs) = classify repr dirs
classify repr ((name, some text) ∷ dirs) =
    let rest = classify repr dirs in select_test repr name (test_reasons text) rest

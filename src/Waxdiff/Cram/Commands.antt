-- ===== src/Waxdiff/Cram/Commands.antt =====
-- Reading the commands of a cram file back: `_cram_commands` on a file that was written from them.
use wax_mb.Base.{
  ℕ, Text, codes, Bool, true, not, ◌&&◌, List, [], ◌∷◌, ◌++◌, append_assoc, append-nil, map, ◌≡◌,
  refl, sym, ◌∙◌, ap, ◌==◌, list_eq, nat_eq, if◌then◌else◌, starts_with, strip, join, all, is_line,
  is_solid, unlines, splitlines-unlines, strip_solid, split_and, arith,
}
use wax_mb.Waxdiff.Cram.{append_last, read_line, read_lines, cram_commands}

-- A command, its continuation lines, and what the test expects it to print.
pub record Step : Type 0 where
  pub first : Text
  pub more : List Text
  pub output : List Text

abbrev continued : Text → Text
continued [] = codes "  >"
continued (c ∷ l) = codes "  > " ++ c ∷ l

abbrev pub step_lines : Step → List Text
step_lines s = (codes "  $ " ++ s.first) ∷ (map continued s.more ++ s.output)

abbrev pub script_lines : List Step → List Text
script_lines [] = []
script_lines (s ∷ ss) = step_lines s ++ script_lines ss

abbrev pub command_of : Step → Text
command_of s = join (codes "\n") (s.first ∷ s.more)

-- A line of output that neither starts a command nor continues one.
abbrev is_output : Text → Bool
is_output raw =
    let st = strip raw in
    not (starts_with st (codes "$ ")) && not (starts_with st (codes "> ")) && not (st == codes ">")

abbrev is_continuation : Text → Bool
is_continuation [] = true
is_continuation (c ∷ l) = is_solid (c ∷ l)

-- The lines of the command end in a character that is not blank, but a continuation may be empty.
abbrev pub is_step : Step → Bool
is_step s = is_solid s.first && all is_continuation s.more && all is_output s.output

append_last-snoc :
    (out : List Text) (c x : Text) → append_last (out ++ c ∷ []) x ≡ out ++ (c ++ x) ∷ []
append_last-snoc [] c x = refl
append_last-snoc (d ∷ []) c x = refl
append_last-snoc (d ∷ e ∷ out) c x = ap (λ (l : List Text). d ∷ l) (append_last-snoc (e ∷ out) c x)

strip_first : (l : Text) → is_solid l ≡ true → strip (codes "  $ " ++ l) ≡ codes "$ " ++ l
strip_first [] h = cc
strip_first (c ∷ l) h = strip_solid b'$' (b' ' ∷ c ∷ l) refl h

strip_continued :
    (c : ℕ) (l : Text)
    → is_solid (c ∷ l) ≡ true
    → strip (codes "  > " ++ c ∷ l) ≡ codes "> " ++ c ∷ l
strip_continued c l h = strip_solid b'>' (b' ' ∷ c ∷ l) refl h

read_line-first : (out : List Text) (l : Text) → read_line out (codes "$ " ++ l) ≡ out ++ l ∷ []
read_line-first out l = refl

read_line-continued :
    (out : List Text) (c l : Text)
    → is_continuation l ≡ true
    → read_line (out ++ c ∷ []) (strip (continued l)) ≡ out ++ (c ++ (codes "\n" ++ l)) ∷ []
read_line-continued out c [] h = append_last-snoc out c (codes "\n")
read_line-continued out c (x ∷ l) h =
    ap (read_line (out ++ c ∷ [])) (strip_continued x l h)
    ∙ append_last-snoc out c (codes "\n" ++ x ∷ l)

join_front :
    (c l : Text) (ls : List Text)
    → join (codes "\n") ((c ++ (codes "\n" ++ l)) ∷ ls) ≡ join (codes "\n") (c ∷ l ∷ ls)
join_front c l [] = refl
join_front c l (m ∷ ls) =
    append_assoc c (codes "\n" ++ l) (codes "\n" ++ join (codes "\n") (m ∷ ls))

read_lines-continued :
    (out : List Text) (c : Text) (ls rest : List Text)
    → all is_continuation ls ≡ true
    → read_lines (out ++ c ∷ []) (map continued ls ++ rest)
      ≡ read_lines (out ++ join (codes "\n") (c ∷ ls) ∷ []) rest
unfolding read_lines
read_lines-continued out c [] rest h = refl
read_lines-continued out c (l ∷ ls) rest h =
    let parts = split_and (is_continuation l) (all is_continuation ls) h in
    ap (λ (o : List Text). read_lines o (map continued ls ++ rest))
      (read_line-continued out c l parts.0)
    ∙ read_lines-continued out (c ++ (codes "\n" ++ l)) ls rest parts.1
    ∙ ap (λ (x : Text). read_lines (out ++ x ∷ []) rest) (join_front c l ls)

read_line-output :
    (out : List Text) (raw : Text) → is_output raw ≡ true → read_line out (strip raw) ≡ out
read_line-output out raw h =
    passed (starts_with (strip raw) (codes "$ ")) (starts_with (strip raw) (codes "> "))
      (strip raw == codes ">") _ _ _ h
  where
    passed :
        (a b c : Bool) (x y z : List Text)
        → (not a && not b && not c) ≡ true
        → (if a then x else if b then y else if c then z else out) ≡ out
    passed a b c x y z k = ground arith

read_lines-output :
    (out os rest : List Text)
    → all is_output os ≡ true
    → read_lines out (os ++ rest) ≡ read_lines out rest
unfolding read_lines
read_lines-output out [] rest h = refl
read_lines-output out (raw ∷ os) rest h =
    let parts = split_and (is_output raw) (all is_output os) h in
    ap (λ (o : List Text). read_lines o (os ++ rest)) (read_line-output out raw parts.0)
    ∙ read_lines-output out os rest parts.1

read_lines-step :
    (out : List Text) (s : Step) (rest : List Text)
    → is_step s ≡ true
    → read_lines out (step_lines s ++ rest) ≡ read_lines (out ++ command_of s ∷ []) rest
unfolding read_lines
read_lines-step out s rest h =
    let parts =
      split_and (is_solid s.first && all is_continuation s.more) (all is_output s.output) h in
    let heads = split_and (is_solid s.first) (all is_continuation s.more) parts.0 in
    ap (λ (st : Text). read_lines (read_line out st) ((map continued s.more ++ s.output) ++ rest))
      (strip_first s.first heads.0)
    ∙ ap (λ (ls : List Text). read_lines (out ++ s.first ∷ []) ls)
        (append_assoc (map continued s.more) s.output rest)
    ∙ read_lines-continued out s.first s.more (s.output ++ rest) heads.1
    ∙ read_lines-output (out ++ command_of s ∷ []) s.output rest parts.1

read_lines-script :
    (out : List Text) (ss : List Step)
    → all is_step ss ≡ true
    → read_lines out (script_lines ss) ≡ out ++ map command_of ss
unfolding read_lines
read_lines-script out [] h = sym (append-nil out)
read_lines-script out (s ∷ ss) h =
    let parts = split_and (is_step s) (all is_step ss) h in
    read_lines-step out s (script_lines ss) parts.0
    ∙ read_lines-script (out ++ command_of s ∷ []) ss parts.1
    ∙ append_assoc out (command_of s ∷ []) (map command_of ss)

-- A file that lists commands, each with its continuation lines and its output, is read back as
-- those commands, where no line has a line end in it, the lines of a command end in a character
-- that is not blank or are empty continuations, and no line of output looks like a command line.
pub cram_commands-script :
    (ss : List Step)
    → all is_step ss ≡ true
    → all is_line (script_lines ss) ≡ true
    → cram_commands (unlines (script_lines ss)) ≡ map command_of ss
unfolding cram_commands
cram_commands-script ss h k =
    ap (read_lines []) (splitlines-unlines (script_lines ss) k) ∙ read_lines-script [] ss h

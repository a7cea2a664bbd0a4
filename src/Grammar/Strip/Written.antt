-- ===== src/Grammar/Strip/Written.antt =====
-- What is left of a text that was written with nested comments, or with nested action blocks.
use wax_mb.Base.{
  ℕ, suc, ◌≡◌, refl, ap, sym, ◌∙◌, arith, Text, codes, Bool, true, false, not, ◌&&◌, ◌||◌, [], ◌∷◌,
  ◌++◌, append_assoc, append-nil, ◌==◌, nat_eq, all, split_and, false_of_not,
}
use wax_mb.Grammar.Strip.{
  keep, action_mark, opens, closes, strip_comments_from, strip_ocaml_comments, strip_actions_from,
  strip_actions,
}

-- A text with blocks in it, which nest: the text before the first block, what the block holds, and
-- what follows it.
pub data Nested : Type 0 where
  plain : Text → Nested
  block : Text → Nested → Nested → Nested

module _ (left right : Text) where
  abbrev pub written : Nested → Text
  written (plain t) = t
  written (block t inner rest) = t ++ (left ++ (written inner ++ (right ++ written rest)))

module _ (marker : Text) where
  -- The text outside the blocks, each of which leaves a marker.
  abbrev pub outside : Nested → Text
  outside (plain t) = t
  outside (block t inner rest) = t ++ (marker ++ outside rest)

-- Two characters next to each other
abbrev pub has_pair : (ℕ → ℕ → Bool) → Text → Bool
has_pair p [] = false
has_pair p (c ∷ []) = false
has_pair p (c ∷ d ∷ s) = p c d || has_pair p (d ∷ s)

abbrev pub delimits : ℕ → ℕ → Bool
delimits c d = opens c d || closes c d

-- No text in a comment has a delimiter in it, also not one that it makes with the next delimiter.
abbrev pub is_commented : Nested → Bool
is_commented (plain t) = not (has_pair delimits (t ++ b'*' ∷ []))
is_commented (block t inner rest) =
    not (has_pair delimits (t ++ b'(' ∷ [])) && (is_commented inner && is_commented rest)

-- No text outside of the comments opens one.
abbrev pub is_source : Nested → Bool
is_source (plain t) = not (has_pair opens t)
is_source (block t inner rest) =
    not (has_pair opens (t ++ b'(' ∷ [])) && (is_commented inner && is_source rest)

inside_step :
    (d c e : ℕ) (s : Text)
    → delimits c e ≡ false
    → strip_comments_from (suc d) (c ∷ e ∷ s) ≡ strip_comments_from (suc d) (e ∷ s)
unfolding strip_comments_from
inside_step d c e s h =
    let o : opens c e ≡ false = ground arith in
    let k : closes c e ≡ false = ground arith in rw (o, k, strip_comments_from) refl

outside_step :
    (c e : ℕ) (s : Text)
    → opens c e ≡ false
    → strip_comments_from 0 (c ∷ e ∷ s) ≡ c ∷ strip_comments_from 0 (e ∷ s)
unfolding strip_comments_from
outside_step c e s h = rw (h, strip_comments_from) refl

-- A text that goes on with `x ∷ s`
inside_text :
    (d : ℕ) (t : Text) (x : ℕ) (s : Text)
    → has_pair delimits (t ++ x ∷ []) ≡ false
    → strip_comments_from (suc d) (t ++ x ∷ s) ≡ strip_comments_from (suc d) (x ∷ s)
inside_text d [] x s h = refl
inside_text d (c ∷ []) x s h = inside_step d c x s (ground arith)
inside_text d (c ∷ e ∷ t) x s h =
    inside_step d c e (t ++ x ∷ s) (ground arith) ∙ inside_text d (e ∷ t) x s (ground arith)

outside_text :
    (t : Text) (x : ℕ) (s : Text)
    → has_pair opens (t ++ x ∷ []) ≡ false
    → strip_comments_from 0 (t ++ x ∷ s) ≡ t ++ strip_comments_from 0 (x ∷ s)
outside_text [] x s h = refl
outside_text (c ∷ []) x s h = outside_step c x s (ground arith)
outside_text (c ∷ e ∷ t) x s h =
    outside_step c e (t ++ x ∷ s) (ground arith)
    ∙ ap (λ (r : Text). c ∷ r) (outside_text (e ∷ t) x s (ground arith))

last_text : (t : Text) → has_pair opens t ≡ false → strip_comments_from 0 t ≡ t
unfolding strip_comments_from
last_text [] h = refl
last_text (c ∷ []) h = refl
last_text (c ∷ e ∷ t) h =
    outside_step c e t (ground arith) ∙ ap (λ (r : Text). c ∷ r) (last_text (e ∷ t) (ground arith))

abbrev open_comment : Text
open_comment = codes "(*"

abbrev close_comment : Text
close_comment = codes "*)"

-- A comment that is left open at the depth `d` is read up to its end.
inside_comment :
    (d : ℕ) (n : Nested) (s : Text)
    → is_commented n ≡ true
    → strip_comments_from (suc d) (written open_comment close_comment n ++ (close_comment ++ s))
      ≡ strip_comments_from d s
unfolding strip_comments_from
inside_comment d (plain t) s h = inside_text d t b'*' (b')' ∷ s) (false_of_not _ h)
inside_comment d (block t inner rest) s h =
    let (h1, h2) = split_and _ _ h in
    let (h3, h4) = split_and _ _ h2 in
    let w : Nested → Text = written open_comment close_comment in
    ap (strip_comments_from (suc d)) (append_assoc t _ _)
    ∙ inside_text d t b'(' _ (false_of_not _ h1)
    ∙ ap (strip_comments_from (suc (suc d))) (append_assoc (w inner) _ _)
    ∙ inside_comment (suc d) inner (w rest ++ (close_comment ++ s)) h3
    ∙ inside_comment d rest s h4

-- If no text outside comments opens one, and no text inside a comment opens or ends one, also not
-- together with the first character of the delimiter that follows, what is left of a text with
-- nested comments is the text outside of them.
pub strip_ocaml_comments-written :
    (n : Nested)
    → is_source n ≡ true
    → strip_ocaml_comments (written open_comment close_comment n) ≡ outside [] n
unfolding strip_ocaml_comments strip_comments_from
strip_ocaml_comments-written (plain t) h = last_text t (false_of_not _ h)
strip_ocaml_comments-written (block t inner rest) h =
    let (h1, h2) = split_and _ _ h in
    let (h3, h4) = split_and _ _ h2 in
    outside_text t b'(' _ (false_of_not _ h1)
    ∙ ap (λ (r : Text). t ++ r)
        (inside_comment 0 inner (written open_comment close_comment rest) h3
          ∙ strip_ocaml_comments-written rest h4)

-- No brace stands in a text.
abbrev pub is_brace : ℕ → Bool
is_brace c = c == b'{' || c == b'}'

abbrev pub is_braced : Nested → Bool
is_braced (plain t) = all (λ c. not (is_brace c)) t
is_braced (block t inner rest) =
    all (λ c. not (is_brace c)) t && (is_braced inner && is_braced rest)

action_step :
    (d c : ℕ) (s : Text)
    → is_brace c ≡ false
    → strip_actions_from d (c ∷ s) ≡ keep d c (strip_actions_from d s)
unfolding strip_actions_from
action_step d c s h =
    let o : (c == b'{') ≡ false = ground arith in
    let k : (c == b'}') ≡ false = ground arith in rw (o, k, strip_actions_from) refl

inside_action :
    (d : ℕ) (t s : Text)
    → all (λ c. not (is_brace c)) t ≡ true
    → strip_actions_from (suc d) (t ++ s) ≡ strip_actions_from (suc d) s
inside_action d [] s h = refl
inside_action d (c ∷ t) s h =
    action_step (suc d) c (t ++ s) (ground arith) ∙ inside_action d t s (ground arith)

outside_action :
    (t s : Text)
    → all (λ c. not (is_brace c)) t ≡ true
    → strip_actions_from 0 (t ++ s) ≡ t ++ strip_actions_from 0 s
outside_action [] s h = refl
outside_action (c ∷ t) s h =
    action_step 0 c (t ++ s) (ground arith)
    ∙ ap (λ (r : Text). c ∷ r) (outside_action t s (ground arith))

inside_block :
    (d : ℕ) (n : Nested) (s : Text)
    → is_braced n ≡ true
    → strip_actions_from (suc d) (written (codes "{") (codes "}") n ++ (codes "}" ++ s))
      ≡ strip_actions_from d s
unfolding strip_actions_from
inside_block d (plain t) s h = inside_action d t (codes "}" ++ s) h
inside_block d (block t inner rest) s h =
    let (h1, h2) = split_and _ _ h in
    let (h3, h4) = split_and _ _ h2 in
    let w : Nested → Text = written (codes "{") (codes "}") in
    ap (strip_actions_from (suc d)) (append_assoc t _ _)
    ∙ inside_action d t _ h1
    ∙ ap (strip_actions_from (suc (suc d))) (append_assoc (w inner) _ _)
    ∙ inside_block (suc d) inner (w rest ++ (codes "}" ++ s)) h3
    ∙ inside_block d rest s h4

-- Where the braces are only those of the blocks, each block, however deep its blocks nest, leaves
-- one marker, and nothing else of the text is lost.
pub strip_actions-written :
    (n : Nested)
    → is_braced n ≡ true
    → strip_actions (written (codes "{") (codes "}") n) ≡ outside action_mark n
unfolding strip_actions strip_actions_from
strip_actions-written (plain t) h =
    ap strip_actions (sym (append-nil t)) ∙ outside_action t [] h ∙ append-nil t
strip_actions-written (block t inner rest) h =
    let (h1, h2) = split_and _ _ h in
    let (h3, h4) = split_and _ _ h2 in
    outside_action t _ h1
    ∙ ap (λ (r : Text). t ++ (action_mark ++ r))
        (inside_block 0 inner (written (codes "{") (codes "}") rest) h3
          ∙ strip_actions-written rest h4)

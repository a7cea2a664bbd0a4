-- ===== src/Waxdiff/Collect/Docs/Written.antt =====
-- A page that was written as prose and code blocks.
use mathlib.Core.List.{reverse, reverse-cons, reverse-reverse}
use wax_mb.Base.{
  Option-cases, inl, inr, eq_iff, ◌≡◌, refl, ap, sym, ◌∙◌, Text, codes, Bool, true, false, not,
  ◌&&◌, Option, none, some, List, [], ◌∷◌, ◌++◌, append_assoc, append-nil, ◌==◌, list_eq, nat_eq,
  all, split_and, false_of_not,
}
use wax_mb.Waxdiff.Collect.Docs.{
  fence, ends_block, close_block, is_checked, between, inside, blocks_of,
}

-- The lines before a block, the rest of its first line behind the quotes, and its lines: the first
-- and the others
pub record Block : Type 0 where
  pub prose : List Text
  pub group : Text
  pub first : Text
  pub others : List Text

abbrev pub is_prose : Text → Bool
is_prose line = elim (fence line) [ none ↦ true | some group ↦ false ]

abbrev pub opening : Block → Text
opening b = codes "```" ++ b.group

abbrev pub opens_as : Text → Option Text → Bool
opens_as group none = false
opens_as group (some read) = read == group

-- The prose opens no block, the first line opens one, and no line of the body ends it.
abbrev pub is_block : Block → Bool
is_block b =
    all is_prose b.prose
    && (opens_as b.group (fence (opening b)) && all (λ l. not (ends_block l)) (b.first ∷ b.others))

abbrev pub page_of : List Block → List Text → List Text
page_of [] last = last
page_of (b ∷ blocks) last =
    b.prose ++ (opening b ∷ ((b.first ∷ b.others) ++ codes "```" ∷ page_of blocks last))

abbrev pub written_blocks : List Block → List (Bool × List Text)
written_blocks [] = []
written_blocks (b ∷ blocks) = (is_checked b.group, b.first ∷ b.others) ∷ written_blocks blocks

between-prose :
    (prose rest : List Text) → all is_prose prose ≡ true → between (prose ++ rest) ≡ between rest
unfolding between
between-prose [] rest h = refl
between-prose (l ∷ prose) rest h =
    let (h1, h2) = split_and (is_prose l) (all is_prose prose) h in
    elim (Option-cases (fence l)) [
      | inl e ↦ rw (e, between) (between-prose prose rest h2)
      | inr (group, e) ↦ absurd (false-ne-true (rw e at h1))
    ]
  where
    false-ne-true : false ≡ true → ⊥
    false-ne-true e = cc

between-opening :
    (line group : Text) (rest : List Text)
    → fence line ≡ some group
    → between (line ∷ rest) ≡ inside (is_checked group) [] rest
unfolding between
between-opening line group rest e = rw (e, between) refl

opens-fence : (o : Option Text) (group : Text) → opens_as group o ≡ true → o ≡ some group
opens-fence none group h = cc
opens-fence (some read) group h = ap some ((eq_iff read group).0 h)

inside-body :
    (checked : Bool) (acc body rest : List Text)
    → all (λ l. not (ends_block l)) body ≡ true
    → inside checked acc (body ++ codes "```" ∷ rest)
      ≡ close_block checked (reverse body ++ acc) (between rest)
unfolding inside
inside-body checked acc [] rest h = refl
inside-body checked acc (l ∷ body) rest h =
    let (h1, h2) = split_and _ _ h in
    let goes : ends_block l ≡ false = false_of_not _ h1 in
    rw (goes, inside)
      (inside-body checked (l ∷ acc) body rest h2
        ∙ ap (λ (x : List Text). close_block checked x (between rest))
            (sym (append_assoc (reverse body) (l ∷ []) acc)
              ∙ ap (λ (x : List Text). x ++ acc) (sym (reverse-cons l body))))

close_block-some :
    (checked : Bool) (r : List Text) (l : Text) (body : List Text)
    (blocks : List (Bool × List Text))
    → reverse r ≡ l ∷ body
    → close_block checked r blocks ≡ (checked, l ∷ body) ∷ blocks
close_block-some checked [] l body blocks h = cc
close_block-some checked (x ∷ r) l body blocks h = ap (λ (b : List Text). (checked, b) ∷ blocks) h

-- A page whose blocks are as required, with prose between and behind them, gives its blocks in order,
-- each with its lines and with whether it is to be checked.
pub blocks_of-page :
    (blocks : List Block) (last : List Text)
    → all is_block blocks ≡ true
    → all is_prose last ≡ true
    → blocks_of (page_of blocks last) ≡ written_blocks blocks
unfolding between
blocks_of-page [] last h k = ap between (sym (append-nil last)) ∙ between-prose last [] k
blocks_of-page (b ∷ blocks) last h k =
    let (h1, h2) = split_and _ _ h in
    let (prose, more) = split_and _ _ h1 in
    let (opens, body) = split_and _ _ more in
    let lines = b.first ∷ b.others in
    let rest = page_of blocks last in
    between-prose b.prose (opening b ∷ (lines ++ codes "```" ∷ rest)) prose
    ∙ between-opening (opening b) b.group (lines ++ codes "```" ∷ rest)
        (opens-fence (fence (opening b)) b.group opens)
    ∙ inside-body (is_checked b.group) [] lines rest body
    ∙ close_block-some (is_checked b.group) (reverse lines ++ []) b.first b.others (between rest)
        (ap reverse (append-nil (reverse lines)) ∙ reverse-reverse lines)
    ∙ ap (λ (x : List (Bool × List Text)). (is_checked b.group, lines) ∷ x)
        (blocks_of-page blocks last h2 k)

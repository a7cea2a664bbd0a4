-- ===== src/Waxdiff/Fuzz/Command/Laws.antt =====
-- What a run of the fuzzer finds: the mutants that fail, each of them minimized.
use mathlib.Core.List.{Memᴰ}
use mathlib.Core.List.Memᴰ.{head, tail, cases_cons}
use wax_mb.Base.{
  split_and, subst, ℕ, zero, suc, ◌+◌, ◌≤◌, ◌<◌, ◌≡◌, refl, sym, ap, arith, Text, Bool, true, false,
  Option, none, some, some_inj, none-ne-some, List, [], ◌∷◌, ◌++◌, map, list_eq, nat_eq, length,
  get_or, select, all, ltb, Bool-cases, inl, inr, Subsequence, ◌>>=◌,
}
use wax_mb.Waxdiff.Records.{Failure}
use wax_mb.Waxdiff.Fuzz.Tokens.{tokenize}
use wax_mb.Waxdiff.Fuzz.Mutate.{Rng, render_tokens}
use wax_mb.Waxdiff.Fuzz.Mutate.Laws.{IsEdit, mutate_times-IsEdit}
use wax_mb.Waxdiff.Fuzz.Minimize.Laws.{minimize_total}
use wax_mb.Waxdiff.Fuzz.Command.{
  Drawn, Find, has_failures, budget, no_seed, mutant_of, draw_from, draw, fails, examine, fuzz,
}

abbrev pub has_text : Text × Option Text → Bool
has_text (rel, none) = false
has_text (rel, some text) = true

abbrev pub with_drawn : Option Drawn → List Drawn → List Drawn
with_drawn none ms = ms
with_drawn (some m) ms = m ∷ ms

module _ {R : Type 0} (g : Rng R) (edits : ℕ) (seeds : List (Text × Option Text)) where
  -- The mutants of a run, whatever becomes of them. `none` is a file that is not there.
  pub mutants : ℕ → ℕ → R → Option (List Drawn)
  mutants zero n r = some []
  mutants (suc count) n r = do
    (d, r') ← draw g edits seeds n r
    rest ← mutants count (n + 1) r'
    some (with_drawn d rest)

  -- A mutant has the tokens of a seed file up to `edits` edits.
  pub IsMutant : Drawn → Type 0
  IsMutant d =
      (text : Text) × (n : ℕ) × Memᴰ (d.rel, some text) seeds
      × (n ≤ edits)
      × IsEdit n (tokenize text) d.tokens

  of_seed :
      (k : ℕ) (ss : List (Text × Option Text))
      → k < length ss
      → all has_text ss ≡ true
      → (rel : Text) × (text : Text) × (get_or ss k no_seed ≡ (rel, some text))
        × Memᴰ (rel, some text) ss
  of_seed k [] h t = absurd (omega arith)
  of_seed zero ((rel, none) ∷ ss) h t = absurd (ground arith)
  of_seed zero ((rel, some text) ∷ ss) h t = (rel, text, refl, head refl)
  of_seed (suc k) (s ∷ ss) h t =
      let (rel, text, e, m) =
        of_seed k ss (omega arith) (split_and (has_text s) (all has_text ss) t).1 in
      (rel, text, e, tail m)

  module _ (fair : (n : ℕ) (r : R) → 0 < n → (g.randrange n r).0 < n) (some_edits : 0 < edits)
      (some_seeds : 0 < length seeds) (texts : all has_text seeds ≡ true) where
    mutant_of-IsMutant :
        (n : ℕ) (rel text : Text) (r : R) (m : Drawn)
        → Memᴰ (rel, some text) seeds
        → (mutant_of g edits seeds n rel (tokenize text) r).0 ≡ some m
        → IsMutant m
    unfolding IsMutant
    mutant_of-IsMutant n rel text r m here h = elim (Bool-cases (ltb (length (tokenize text)) 2)) [
      | inl few ↦ absurd (none-ne-some (rw few at h))
      | inr many ↦
          let (e, r') = g.randrange edits r in
          subst IsMutant (some_inj (rw many at h)) (
            text,
            e + 1,
            here,
            omega (arith, fair edits r some_edits),
            mutate_times-IsEdit g fair (e + 1) (tokenize text) r',
          )
    ]

    draw-some :
        (n : ℕ) (r : R)
        → (d : Option Drawn) × (r' : R) × (draw g edits seeds n r ≡ some (d, r'))
          × ((m : Drawn) → d ≡ some m → IsMutant m)
    unfolding draw
    draw-some n r =
        let (k, r') = g.randrange (length seeds) r in
        let (rel, text, e, here) = of_seed k seeds (fair (length seeds) r some_seeds) texts in
        (
          (mutant_of g edits seeds n rel (tokenize text) r').0,
          (mutant_of g edits seeds n rel (tokenize text) r').1,
          ap (λ s. draw_from g edits seeds n s r') e,
          λ m h. mutant_of-IsMutant n rel text r' m here h,
        )

  module _ (judge : Text → List Failure) where
    -- A find is a mutant that fails; its small form fails too and is made of the mutant's tokens.
    pub IsFind : Find → Type 0
    IsFind f =
        IsMutant f.drawn
        × (judge (render_tokens f.drawn.tokens) ≡ f.failures)
        × (has_failures f.failures ≡ true)
        × (has_failures (judge (render_tokens f.small)) ≡ true)
        × Subsequence f.small f.drawn.tokens

    abbrev judged : Drawn → Bool
    judged d = fails g edits seeds judge d.tokens

    examine-some :
        (d : Drawn)
        → IsMutant d
        → fails g edits seeds judge d.tokens ≡ true
        → (f : Find) × (examine g edits seeds judge (some d) ≡ some (f ∷ []))
          × (f.drawn ≡ d)
          × IsFind f
    unfolding examine IsFind
    examine-some d m h =
        let (small, left, e, fails_too, within, cost, minimal) =
          minimize_total (fails g edits seeds judge) d.tokens budget h in
        (
          record { drawn = d; failures = judge (render_tokens d.tokens); small = small },
          rw (h, e) refl,
          refl,
          (m, refl, h, fails_too, within),
        )

    -- What a run makes of the mutants that it draws.
    pub Graded : List Drawn → List Find → Type 0
    Graded ms fs =
        (map (λ f. f.drawn) fs ≡ select judged ms)
        × ((m : Drawn) → Memᴰ m ms → IsMutant m)
        × ((f : Find) → Memᴰ f fs → IsFind f)

    Graded-skip :
        (m : Drawn) (ms : List Drawn) (fs : List Find)
        → judged m ≡ false
        → IsMutant m
        → Graded ms fs
        → Graded (m ∷ ms) fs
    unfolding Graded
    Graded-skip m ms fs h here (p, q, r) = (
      rw h p,
      λ k l. elim (cases_cons l) [ inl e ↦ subst IsMutant (sym e) here | inr l' ↦ q k l' ],
      r,
    )

    Graded-find :
        (m : Drawn) (f : Find) (ms : List Drawn) (fs : List Find)
        → judged m ≡ true
        → f.drawn ≡ m
        → IsMutant m
        → IsFind f
        → Graded ms fs
        → Graded (m ∷ ms) (f ∷ fs)
    unfolding Graded
    Graded-find m f ms fs h d here found (p, q, r) = (
      rw h (cc (d, p)),
      λ k l. elim (cases_cons l) [ inl e ↦ subst IsMutant (sym e) here | inr l' ↦ q k l' ],
      λ k l. elim (cases_cons l) [ inl e ↦ subst IsFind (sym e) found | inr l' ↦ r k l' ],
    )

    Graded-next :
        (d : Option Drawn) (ms : List Drawn) (fs : List Find)
        → ((m : Drawn) → d ≡ some m → IsMutant m)
        → Graded ms fs
        → (found : List Find) × (examine g edits seeds judge d ≡ some found)
          × Graded (with_drawn d ms) (found ++ fs)
    unfolding examine
    Graded-next none ms fs legal graded = ([], refl, graded)
    Graded-next (some m) ms fs legal graded = elim (Bool-cases (judged m)) [
      | inl h ↦
          let (f, e, same, found) = examine-some m (legal m refl) h in
          (f ∷ [], e, Graded-find m f ms fs h same (legal m refl) found graded)
      | inr h ↦ ([], rw h refl, Graded-skip m ms fs h (legal m refl) graded)
    ]

    module _ (fair : (n : ℕ) (r : R) → 0 < n → (g.randrange n r).0 < n) (some_edits : 0 < edits)
        (some_seeds : 0 < length seeds) (texts : all has_text seeds ≡ true) where
      -- If the generator draws below its bound, a mutant takes at least one edit, and there are seeds
      -- and all of them have a text, fuzzing ends with a result. Its finds come from exactly the
      -- drawn mutants that fail, in the order they were drawn; each mutant has the tokens of a seed
      -- up to the number of edits, and each find keeps the failures of its mutant and has a small
      -- form, which fails too and is a subsequence of the mutant's tokens.
      pub fuzz_finds :
          (count n : ℕ) (r : R)
          → (ms : List Drawn) × (fs : List Find) × (mutants count n r ≡ some ms)
            × (fuzz g edits seeds judge count n r ≡ some fs)
            × Graded ms fs
      unfolding mutants fuzz Graded
      fuzz_finds zero n r = ([], [], refl, refl, (refl, λ m l. elim l [ ], λ f l. elim l [ ]))
      fuzz_finds (suc count) n r =
          let (d, r', drawn, legal) = draw-some fair some_edits some_seeds texts n r in
          let (ms, fs, e, e', graded) = fuzz_finds count (n + 1) r' in
          let (found, x, graded') = Graded-next d ms fs legal graded in
          (with_drawn d ms, found ++ fs, rw (drawn, e) refl, rw (drawn, x, e') refl, graded')

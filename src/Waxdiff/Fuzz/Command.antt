-- ===== src/Waxdiff/Fuzz/Command.antt =====
-- `cmd_fuzz`: drawing mutants, grading them, and writing the minimized finds.
pub mod Laws
use wax_mb.Base.{
  ℕ, zero, suc, ◌+◌, Text, codes, Bool, true, false, not, ◌&&◌, ◌||◌, Option, none, some, List, [],
  ◌∷◌, ◌++◌, ◌==◌, list_eq, nat_eq, if◌then◌else◌, ◌>>=◌, length, get_or, ltb,
}
use wax_mb.Messages.Key.{str}
use wax_mb.Waxdiff.Process.{Files, write, System}
use wax_mb.Waxdiff.Records.{Meta, Failure, Dirs}
use wax_mb.Waxdiff.Report.{filter_files, corpus_path, reference_present}
use wax_mb.Waxdiff.Fuzz.Tokens.{tokenize}
use wax_mb.Waxdiff.Fuzz.Mutate.{Rng, mutate_times, render_tokens}
use wax_mb.Waxdiff.Fuzz.Minimize.{minimize}
use wax_mb.Waxdiff.Fuzz.Grade.{Bench, grade}

-- A mutant: its number, its seed file and its tokens
pub record Drawn : Type 0 where
  pub number : ℕ
  pub rel : Text
  pub tokens : List Text

pub record Find : Type 0 where
  pub drawn : Drawn
  pub failures : List Failure
  pub small : List Text

abbrev pub has_failures : List Failure → Bool
has_failures [] = false
has_failures (f ∷ fs) = true

-- The default of `minimize`
abbrev pub budget : ℕ
budget = 400

abbrev no_seed : Text × Option Text
no_seed = ([], none)

module _ {R : Type 0} (g : Rng R) (edits : ℕ) (seeds : List (Text × Option Text)) where
  -- `for _ in range(rng.randint(1, args.edits))`; `randint(1, n)` is one more than `randrange(n)`.
  -- Fewer than two tokens make no mutant.
  abbrev pub mutant_of : ℕ → Text → List Text → R → Option Drawn × R
  mutant_of n rel tokens r =
      let (e, r') = g.randrange edits r in
      let (tokens', r'') = mutate_times g (e + 1) tokens r' in
      if ltb (length tokens) 2
      then (none, r)
      else (some (record { number = n; rel = rel; tokens = tokens' }), r'')

  abbrev pub draw_from : ℕ → Text × Option Text → R → Option (Option Drawn × R)
  draw_from n (rel, none) r = none
  draw_from n (rel, some text) r = some (mutant_of n rel (tokenize text) r)

  -- A round up to the grading; `seeds` has the texts of the files, and `none` is a file that is not
  -- there, or that is not UTF-8.
  unfoldable pub draw : ℕ → R → Option (Option Drawn × R)
  draw n r = let (k, r') = g.randrange (length seeds) r in draw_from n (get_or seeds k no_seed) r'

  module _ (judge : Text → List Failure) where
    abbrev pub fails : List Text → Bool
    fails tokens = has_failures (judge (render_tokens tokens))

    -- The grading of a mutant, and its minimization if it fails.
    unfoldable pub examine : Option Drawn → Option (List Find)
    examine none = some []
    examine (some d) =
        if fails d.tokens
        then (do
          (small, left) ← minimize fails d.tokens budget
          some
              (record { drawn = d; failures = judge (render_tokens d.tokens); small = small } ∷ []))
        else some []

    -- `for n in range(args.count)`, from the `n`-th on
    unfoldable pub fuzz : ℕ → ℕ → R → Option (List Find)
    fuzz zero n r = some []
    fuzz (suc count) n r = do
      (d, r') ← draw n r
      found ← examine d
      rest ← fuzz count (n + 1) r'
      some (found ++ rest)

-- test/report/fuzz/find-{seed}-{n}.wax
abbrev pub find_path : Text → ℕ → Find → Text
find_path finds_dir seed f =
    finds_dir ++ codes "/find-" ++ str seed ++ codes "-" ++ str f.drawn.number ++ codes ".wax"

pub write_finds : System → Text → ℕ → Files → List Find → Files
write_finds sys finds_dir seed files [] = files
write_finds sys finds_dir seed files (f ∷ fs) =
    write_finds sys finds_dir seed
      (write files (find_path finds_dir seed f) (sys.encode (render_tokens f.small))) fs

-- `(CORPUS / rel).read_text()` of the files that are fuzzed
abbrev pub seed_texts : System → Dirs → Files → List (Text × Meta) → List (Text × Option Text)
seed_texts sys dirs files [] = []
seed_texts sys dirs files ((rel, meta) ∷ index) =
    (rel, (do b ← files (corpus_path dirs rel); sys.decode_strict b))
    ∷ seed_texts sys dirs files index

-- How `cmd_fuzz` ends.
pub data Fuzzed : Type 0 where
  no_reference no_seeds raised : Fuzzed
  fuzzed : List Find → Files → ℕ → Fuzzed

abbrev pub fuzz_status : List Find → ℕ
fuzz_status [] = 0
fuzz_status (f ∷ fs) = 1

-- The failures that `grade` finds; it is taken to raise nothing.
unfoldable pub judge_with : Bench → Files → Text → List Failure
judge_with b files src = elim (grade b files src) [ none ↦ [] | some fs ↦ fs ]

module _ {R : Type 0} (g : Rng R) (b : Bench) (dirs : Dirs) (finds_dir : Text)
    (seed edits count : ℕ) where
  abbrev pub fuzz_ended : Files → Option (List Find) → Fuzzed
  fuzz_ended files none = raised
  fuzz_ended files (some finds) =
      fuzzed finds (write_finds b.system finds_dir seed files finds) (fuzz_status finds)

  abbrev pub fuzz_seeds : Files → List (Text × Option Text) → R → Fuzzed
  fuzz_seeds files [] r = no_seeds
  fuzz_seeds files (s ∷ seeds) r =
      fuzz_ended files (fuzz g edits (s ∷ seeds) (judge_with b files) count 0 r)

  -- `dirs` is the corpus, and `b` has the scratch directory of `grade`.
  unfoldable pub cmd_fuzz : Text → Files → Text → List (Text × Meta) → R → Fuzzed
  unfolding fuzz judge_with write_finds
  cmd_fuzz asset files pattern index r =
      if reference_present b.system asset files
      then fuzz_seeds files (seed_texts b.system dirs files (filter_files pattern index)) r
      else no_reference

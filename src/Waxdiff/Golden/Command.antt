-- ===== src/Waxdiff/Golden/Command.antt =====
-- The commands `golden` and `classify`: `corpus_files`, the counts, index.json and `load_index`.
use wax_mb.Base.{
  ℕ, ◌+◌, Text, codes, Bool, true, false, ◌≡◌, ◌↔◌, Option, none, some, List, [], ◌∷◌, map, ◌==◌,
  Eq, list_eq, nat_eq, if◌then◌else◌, select, length, ends_with, split_char, texts_before,
  text_before, sorted_by, arith,
}
use wax_mb.Waxdiff.Process.{Files, write, System}
use wax_mb.Waxdiff.Diagnostics.{Loads}
use wax_mb.Waxdiff.Records.{Bucket, syntax_bad, compiles_clean, type_bad, Meta, Dirs}
use wax_mb.Waxdiff.Report.{corpus_path, reference_present}
use wax_mb.Waxdiff.Golden.{classify_one, Dumps, write_goldens}
use wax_mb.Waxdiff.Golden.Paths.{below, index_path}

-- The order of paths: their parts are compared.
abbrev pub path_before : Text → Text → Bool
path_before p q = texts_before (split_char b'/' p) (split_char b'/' q)

-- `corpus_files`, relative to CORPUS; `listing` is all that stands below it.
unfoldable pub corpus_files : List Text → List Text
corpus_files listing =
    sorted_by path_before (select (λ (p : Text). ends_with p (codes ".wax")) listing)

abbrev pub bucket_beq : Bucket → Bucket → Bool
bucket_beq syntax_bad syntax_bad = true
bucket_beq compiles_clean compiles_clean = true
bucket_beq type_bad type_bad = true
bucket_beq _ _ = false

pub bucket_beq_iff : (a b : Bucket) → (bucket_beq a b ≡ true) ↔ (a ≡ b)
bucket_beq_iff syntax_bad b = ground arith
bucket_beq_iff compiles_clean b = ground arith
bucket_beq_iff type_bad b = ground arith

instance abbrev pub bucket_eq : Eq Bucket
bucket_eq = record { decides = bucket_beq_iff; test = bucket_beq }

abbrev pub Counts : Type 0
Counts = List (Bucket × ℕ)

-- `counts.get(b, 0)`
unfoldable pub bucket_count : Counts → Bucket → ℕ
bucket_count [] b = 0
bucket_count ((c, n) ∷ counts) b = if c == b then n else bucket_count counts b

-- `counts[b] = counts.get(b, 0) + 1`, which keeps the order of the keys
unfoldable pub count_in : Bucket → Counts → Counts
count_in b [] = (b, 1) ∷ []
count_in b ((c, n) ∷ counts) =
    let rest = count_in b counts in if c == b then (c, n + 1) ∷ counts else (c, n) ∷ rest

unfoldable pub count_all : List Bucket → Counts → Counts
count_all [] counts = counts
count_all (b ∷ bs) counts = count_all bs (count_in b counts)

-- The printed rows: one for each bucket, and the total.
unfoldable pub count_rows : Counts → ℕ → List (Text × ℕ)
count_rows counts total =
    (codes "syntax-bad", bucket_count counts syntax_bad)
    ∷ (codes "compiles-clean", bucket_count counts compiles_clean)
    ∷ (codes "type-bad", bucket_count counts type_bad)
    ∷ (codes "total", total)
    ∷ []

-- `shutil.rmtree(GOLDEN, ignore_errors=True)`
unfoldable pub clear : Dirs → Files → Files
clear dirs files p = if below dirs p then none else files p

-- `json.dumps` of the index, from the hash of the reference, the counts and the sorted entries, and
-- `json.loads(...)["files"]`
abbrev pub DumpIndex : Type 0
DumpIndex = Text → Counts → List (Text × Meta) → Text

abbrev pub LoadIndex : Type 0
LoadIndex = Text → Option (List (Text × Meta))

abbrev pub entry_before : Text × Meta → Text × Meta → Bool
entry_before e f = text_before e.0 f.0

-- How `cmd_golden` ends: `corpus_empty` and `golden_without_reference` are exits.
pub data Recording : Type 0 where
  golden_without_reference : Recording
  corpus_empty : Recording
  golden_raised : Recording
  recorded : Files → List (Text × ℕ) → Recording

abbrev pub buckets_of : List (Text × Meta) → List Bucket
buckets_of index = map (λ (e : Text × Meta). e.1.bucket) index

module _ (sys : System) (loads : Loads) (dumps : Dumps) (dirs : Dirs) (dump_index : DumpIndex)
    (asset reference_sha : Text) where
  -- what follows the loop of `cmd_golden`
  unfoldable pub finish_golden : Option (Files × List (Text × Meta)) → Recording
  finish_golden none = golden_raised
  finish_golden (some (files, index)) =
      let counts = count_all (buckets_of index) [] in
      recorded
        (write files (index_path dirs)
          (sys.encode (dump_index reference_sha counts (sorted_by entry_before index))))
        (count_rows counts (length index))

  unfoldable pub golden_files : Files → List Text → Recording
  unfolding finish_golden clear
  golden_files files [] = corpus_empty
  golden_files files (rel ∷ rels) =
      finish_golden (write_goldens sys loads dumps dirs (clear dirs files) (rel ∷ rels))

  unfoldable pub cmd_golden : Files → List Text → Recording
  unfolding golden_files
  cmd_golden files listing =
      if reference_present sys asset files
      then golden_files files (corpus_files listing)
      else golden_without_reference

-- The rows that `cmd_classify` prints; `none` is the exit without a reference.
unfoldable pub cmd_classify : System → Dirs → Text → Files → List Text → Option (List (Text × ℕ))
cmd_classify sys dirs asset files listing =
    let rels = corpus_files listing in
    let bucket_of = λ (rel : Text). (classify_one sys files rel (corpus_path dirs rel)).bucket in
    if reference_present sys asset files
    then some (count_rows (count_all (map bucket_of rels) []) (length rels))
    else none

pub data Loaded : Type 0 where
  no_goldens : Loaded
  not_an_index : Loaded
  loaded : List (Text × Meta) → Loaded

-- `load_index`
read_index : Option (List (Text × Meta)) → Loaded
read_index none = not_an_index
read_index (some index) = loaded index

unfoldable pub load_index : System → LoadIndex → Dirs → Files → Loaded
unfolding read_index
load_index sys reads dirs files = elim (files (index_path dirs)) [
  | none ↦ no_goldens
  | some text ↦ read_index (reads (sys.decode text))
]

-- ===== src/Waxdiff/Golden/Counted.antt =====
-- The rows that `golden` and `classify` print.
use wax_mb.Base.{
  ℕ, ◌+◌, Text, codes, true, ◌≡◌, refl, ap, ◌∙◌, arith, some, List, [], ◌∷◌, map, ◌==◌, eq_iff,
  list_eq, nat_eq, if◌then◌else◌, Bool-cases, inl, inr, length, length-map, select,
}
use wax_mb.Waxdiff.Process.{Files, System}
use wax_mb.Waxdiff.Records.{Bucket, syntax_bad, compiles_clean, type_bad, Dirs}
use wax_mb.Waxdiff.Report.{Setting, corpus_path, reference_present}
use wax_mb.Waxdiff.Golden.{Dumps, classify_one}
use wax_mb.Waxdiff.Golden.Command.{
  corpus_files, bucket_eq, Counts, bucket_count, count_in, count_all, count_rows, buckets_of,
  DumpIndex, LoadIndex, recorded, cmd_golden, cmd_classify,
}
use wax_mb.Waxdiff.Golden.Recorded.{entry_of}
use wax_mb.Waxdiff.Golden.SelfTest.{CanRecord, golden_ends}

-- How many of the files fall into the bucket.
abbrev pub number_in : Bucket → List Bucket → ℕ
number_in b bs = length (select (λ (c : Bucket). c == b) bs)

bucket_count-count_in :
    (c b : Bucket) (counts : Counts)
    → bucket_count (count_in c counts) b ≡ bucket_count counts b + (if c == b then 1 else 0)
unfolding bucket_count count_in
bucket_count-count_in c b [] = ground arith
bucket_count-count_in c b ((d, n) ∷ counts) = elim (Bool-cases (d == c)) [
  | inl e ↦ rw (e, (eq_iff d c).0 e) (ground arith)
  | inr e ↦
      rw e (ground (arith, bucket_count-count_in c b counts, eq_iff d c, eq_iff d b, eq_iff c b))
]

bucket_count-count_all :
    (b : Bucket) (bs : List Bucket) (counts : Counts)
    → bucket_count (count_all bs counts) b ≡ bucket_count counts b + number_in b bs
unfolding count_all
bucket_count-count_all b [] counts = omega arith
bucket_count-count_all b (c ∷ bs) counts =
    ground
      (arith, bucket_count-count_all b bs (count_in c counts), bucket_count-count_in c b counts)

counted : (b : Bucket) (bs : List Bucket) → bucket_count (count_all bs []) b ≡ number_in b bs
unfolding bucket_count
counted b bs = omega (arith, bucket_count-count_all b bs [])

bucket_total :
    (bs : List Bucket)
    → number_in syntax_bad bs + number_in compiles_clean bs + number_in type_bad bs ≡ length bs
bucket_total [] = refl
bucket_total (syntax_bad ∷ bs) = omega (arith, bucket_total bs)
bucket_total (compiles_clean ∷ bs) = omega (arith, bucket_total bs)
bucket_total (type_bad ∷ bs) = omega (arith, bucket_total bs)

buckets-entries :
    (sys : System) (dirs : Dirs) (files : Files) (rels : List Text)
    → buckets_of (map (entry_of sys dirs files) rels)
      ≡ map (λ (rel : Text). (classify_one sys files rel (corpus_path dirs rel)).bucket) rels
buckets-entries sys dirs files [] = refl
buckets-entries sys dirs files (rel ∷ rels) =
    ap (λ (l : List Bucket). (classify_one sys files rel (corpus_path dirs rel)).bucket ∷ l)
      (buckets-entries sys dirs files rels)

module _ (sys : System) (dirs : Dirs) (asset : Text) (files : Files) (listing : List Text) where
  abbrev buckets : List Bucket
  buckets =
      map (λ (rel : Text). (classify_one sys files rel (corpus_path dirs rel)).bucket)
        (corpus_files listing)

  -- With a reference, `classify` prints how many files of the corpus fall into each bucket, and as
  -- the total their sum, which is the number of files.
  pub cmd_classify-counts :
      reference_present sys asset files ≡ true
      → (cmd_classify sys dirs asset files listing
          ≡ some (
              (codes "syntax-bad", number_in syntax_bad buckets)
              ∷ (codes "compiles-clean", number_in compiles_clean buckets)
              ∷ (codes "type-bad", number_in type_bad buckets)
              ∷ (codes "total", length (corpus_files listing))
              ∷ []))
        × (number_in syntax_bad buckets
              + number_in compiles_clean buckets
              + number_in type_bad buckets
            ≡ length (corpus_files listing))
  unfolding cmd_classify count_rows
  cmd_classify-counts present = (
    rw (present, cmd_classify)
        (rw (counted syntax_bad buckets, counted compiles_clean buckets, counted type_bad buckets)
          refl),
    bucket_total buckets
        ∙ length-map (λ (rel : Text). (classify_one sys files rel (corpus_path dirs rel)).bucket)
            (corpus_files listing),
  )

-- Where the corpus can be recorded, `golden` prints the rows that `classify` prints.
pub golden_prints_classify :
    (s : Setting) (dumps : Dumps) (dump_index : DumpIndex) (reads_index : LoadIndex)
    (asset sha : Text) (listing : List Text)
    → CanRecord s dumps dump_index reads_index asset sha listing
    → (g : Files) × (rows : List (Text × ℕ)) × (cmd_golden s.system s.loads dumps s.dirs dump_index
          asset sha s.files listing
        ≡ recorded g rows)
      × (cmd_classify s.system s.dirs asset s.files listing ≡ some rows)
unfolding cmd_classify
golden_prints_classify s dumps dump_index reads_index asset sha listing can =
    let (g, e) = golden_ends s dumps dump_index reads_index asset sha listing can in
    let index = map (entry_of s.system s.dirs s.files) (corpus_files listing) in
    (
      g,
      count_rows (count_all (buckets_of index) []) (length index),
      e,
      rw (can.present, cmd_classify)
          (rw (buckets-entries s.system s.dirs s.files (corpus_files listing), length-map) refl),
    )

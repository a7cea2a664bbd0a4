-- ===== src/Waxdiff/Golden/SelfTest.antt =====
-- What `golden` leaves, and what `run --self-test` makes of it.
use wax_mb.Base.{
  sorted_by, contains-sorted_by, ℕ, Text, true, false, ◌≡◌, ◌≢◌, refl, ap, sym, ◌∙◌, subst, Option,
  none, some, List, [], ◌∷◌, map, list_eq, nat_eq, int_eq, contains, Every, has_substring, length,
  IsDistinct, map_Every, select-Every, sorted_by-Every, Every-both, Every-map,
}
use wax_mb.Waxdiff.Process.{Files, exists, System}
use wax_mb.Waxdiff.Records.{Meta, Dirs}
use wax_mb.Waxdiff.Report.{
  OracleId, oracle_eq, Setting, Results, no_results, filter_files, self_test_setting,
  needs_reference, ended, reference_present, cmd_run, finished,
}
use wax_mb.Waxdiff.Golden.{Dumps}
use wax_mb.Waxdiff.Golden.Recorded.{AgreeOutside, IsRecordable, IsRecorded}
use wax_mb.Waxdiff.Golden.{write_goldens}
use wax_mb.Waxdiff.Golden.Paths.{below}
use wax_mb.Waxdiff.Golden.Loop.{AllRecorded, write_goldens-AllRecorded}
use wax_mb.Waxdiff.Golden.Recorded.{entry_of}
use wax_mb.Waxdiff.Golden.Command.{
  corpus_files, clear, Counts, count_all, count_rows, buckets_of, entry_before, DumpIndex,
  LoadIndex, recorded, cmd_golden, loaded, load_index,
}
use wax_mb.Waxdiff.Golden.Graded.{
  AllClean, EntryFine, local_outcome-Fine, grade_files-AllClean, failure_report-AllClean,
  gating-AllClean,
}
use wax_mb.Waxdiff.Golden.Finished.{
  corpus_files-IsCorpus, clear-outside, clear-IsFree, index_text, final, printed,
  cmd_golden-recorded, load_index-final, final-outside, final-IsRecorded, names-entries,
}

exists-eq : (f g : Files) (q : Text) → f q ≡ g q → exists f q ≡ exists g q
exists-eq f g q e = ap (λ (o : Option Text). elim o [ none ↦ false | some _ ↦ true ]) e

present_outside :
    (sys : System) (dirs : Dirs) (asset : Text) (f g : Files)
    → below dirs sys.reference ≡ false
    → below dirs asset ≡ false
    → AgreeOutside dirs f g
    → reference_present sys asset f ≡ true
    → reference_present sys asset g ≡ true
unfolding reference_present
present_outside sys dirs asset f g h k agree present =
    let e = exists-eq f g sys.reference (agree sys.reference h) in
    let e' = exists-eq f g asset (agree asset k) in cc

filter_files-Every :
    (P : Text × Meta → Type 0) (pattern : Text) (index : List (Text × Meta))
    → Every P index
    → Every P (filter_files pattern index)
unfolding filter_files
filter_files-Every P [] index h = h
filter_files-Every P (c ∷ pattern) index h =
    select-Every P (λ (f : Text × Meta). has_substring f.0 (c ∷ pattern)) index h

nothing_yet : AllClean no_results
nothing_yet o = record { none_counted = refl; none_listed = refl }

-- Entries that are fine pass the self-test.
passes :
    (s : Setting) (asset : Text) (max_report : ℕ) (pattern : Text) (index : List (Text × Meta))
    → reference_present s.system asset s.files ≡ true
    → Every (EntryFine (self_test_setting s)) index
    → (r : Results) × (cmd_run s asset true max_report pattern index ≡ finished r [] 0) × AllClean r
unfolding cmd_run ended needs_reference
passes s asset max_report pattern index present fine =
    let s' = self_test_setting s in
    let (r, e, clean) =
      grade_files-AllClean s' (filter_files pattern index) no_results
        (filter_files-Every (EntryFine s') pattern index fine) nothing_yet in
    let report = failure_report-AllClean max_report s'.oracles r clean in
    let total = gating-AllClean s'.oracles r clean in
    (r, rw present (rw (e, ended) (rw (report, total) refl)), clean)

module _ (s : Setting) (dumps : Dumps) (dump_index : DumpIndex) (reads_index : LoadIndex)
    (asset sha : Text) (listing : List Text) where
  -- The goldens of the corpus that `listing` shows can be recorded, and later passed, if what is
  -- encoded is decoded, the index is read back as it was written, the reference is there and outside GOLDEN,
  -- and each file of the corpus is fit to be recorded.
  pub record CanRecord : Type 0 where
    pub utf8 : (t : Text) → s.system.decode (s.system.encode t) ≡ t
    pub reads_back :
        (c : Counts)
        → let index =
            sorted_by entry_before
              (map (entry_of s.system s.dirs s.files) (corpus_files listing)) in
          reads_index (dump_index sha c index) ≡ some index
    pub present : reference_present s.system asset s.files ≡ true
    pub reference_outside : below s.dirs s.system.reference ≡ false
    pub asset_outside : below s.dirs asset ≡ false
    pub distinct : IsDistinct listing
    pub some_files : corpus_files listing ≢ []
    pub recordable :
        Every (IsRecordable s.system s.loads dumps s.dirs s.files) (corpus_files listing)

  loop_ends :
      CanRecord
      → (f : Files) × (index : List (Text × Meta)) × (write_goldens s.system s.loads dumps s.dirs
            (clear s.dirs s.files)
            (corpus_files listing)
          ≡ some (f, index))
        × AllRecorded s.system s.loads s.dirs s.files
            (clear s.dirs s.files)
            f
            (corpus_files listing)
            index
  loop_ends can =
      write_goldens-AllRecorded s.system s.loads dumps s.dirs s.files can.utf8
        (clear s.dirs s.files) (corpus_files listing) (clear-outside s.dirs s.files)
        (corpus_files-IsCorpus listing can.distinct)
        (clear-IsFree s.dirs s.files (corpus_files listing)) can.recordable

  names_of :
      (f : Files) (index : List (Text × Meta))
      → AllRecorded s.system s.loads s.dirs s.files
          (clear s.dirs s.files)
          f
          (corpus_files listing)
          index
      → map (λ (e : Text × Meta). e.0) index ≡ corpus_files listing
  names_of f index all =
      ap (map (λ (e : Text × Meta). e.0)) all.listed
      ∙ names-entries s.system s.dirs s.files (corpus_files listing)

  index_reads_back :
      (f : Files) (index : List (Text × Meta))
      → CanRecord
      → AllRecorded s.system s.loads s.dirs s.files
          (clear s.dirs s.files)
          f
          (corpus_files listing)
          index
      → reads_index (index_text s.system s.loads dumps s.dirs dump_index asset sha s.files f index)
        ≡ some (sorted_by entry_before index)
  index_reads_back f index can all = rw all.listed (can.reads_back _)

  entries_fine :
      (f : Files) (index : List (Text × Meta))
      → CanRecord
      → AllRecorded s.system s.loads s.dirs s.files
          (clear s.dirs s.files)
          f
          (corpus_files listing)
          index
      → let g = final s.system s.loads dumps s.dirs dump_index asset sha s.files f index in
        Every
          (EntryFine (self_test_setting (record s { files = g })))
          (sorted_by entry_before index)
  entries_fine f index can all =
      let g = final s.system s.loads dumps s.dirs dump_index asset sha s.files f index in
      let agree =
        final-outside s.system s.loads dumps s.dirs dump_index asset sha s.files f index
          all.outside in
      let fit = IsRecordable s.system s.loads dumps s.dirs s.files in
      let name = λ (e : Text × Meta). e.0 in
      let named : Every fit (map name index) =
        subst (Every fit) (sym (names_of f index all)) can.recordable in
      sorted_by-Every _ entry_before index (
        map_Every (λ (e : Text × Meta). fit e.0 × IsRecorded s.system s.loads s.dirs s.files f e) _
          index
          (λ e (h, r).
            local_outcome-Fine (record s { files = g }) dumps s.files e.0 e.1 agree h
              (final-IsRecorded s.system s.loads dumps s.dirs dump_index asset sha s.files f index
                can.utf8 e r))
          (Every-both _ _ index (Every-map fit name index named) all.entries))

  -- `golden` ends, with the entries of the corpus.
  pub golden_ends :
      CanRecord
      → (g : Files) × (cmd_golden s.system s.loads dumps s.dirs dump_index asset sha s.files listing
          ≡ recorded g (
              let index = map (entry_of s.system s.dirs s.files) (corpus_files listing) in
              count_rows (count_all (buckets_of index) []) (length index)))
  golden_ends can =
      let (f, index, e, all) = loop_ends can in
      (
        final s.system s.loads dumps s.dirs dump_index asset sha s.files f index,
        cmd_golden-recorded s.system s.loads dumps s.dirs dump_index asset sha s.files f index
              listing can.present can.some_files e
            ∙ ap
                (λ (l : List (Text × Meta)).
                  recorded
                    (final s.system s.loads dumps s.dirs dump_index asset sha s.files f index)
                    (count_rows (count_all (buckets_of l) []) (length l)))
                all.listed,
      )

  -- What `golden` leaves, and what grading it does.
  pub self_tested :
      CanRecord
      → (max_report : ℕ) (pattern : Text)
      → (g : Files) × (rows : List (Text × ℕ)) × (index : List (Text × Meta)) × (r : Results)
        × AgreeOutside s.dirs s.files g
        × (cmd_golden s.system s.loads dumps s.dirs dump_index asset sha s.files listing
            ≡ recorded g rows)
        × (load_index s.system reads_index s.dirs g ≡ loaded index)
        × ((rel : Text)
            → contains rel (map (λ (e : Text × Meta). e.0) index)
              ≡ contains rel (corpus_files listing))
        × (cmd_run
              (record s { files = g })
              asset
              true
              max_report
              pattern
              (sorted_by entry_before index)
            ≡ finished r [] 0)
        × ((o : OracleId) → (r o).failed ≡ 0)
  self_tested can max_report pattern =
      let (f, index, e, all) = loop_ends can in
      let sorted = sorted_by entry_before index in
      let g = final s.system s.loads dumps s.dirs dump_index asset sha s.files f index in
      let agree =
        final-outside s.system s.loads dumps s.dirs dump_index asset sha s.files f index
          all.outside in
      let present =
        present_outside s.system s.dirs asset s.files g can.reference_outside can.asset_outside
          agree can.present in
      let (r, ran, clean) =
        passes (record s { files = g }) asset max_report pattern (sorted_by entry_before sorted)
          present (sorted_by-Every _ entry_before sorted (entries_fine f index can all)) in
      (
        g,
        printed s.system s.loads dumps s.dirs dump_index asset sha s.files f index,
        sorted,
        r,
        agree,
        cmd_golden-recorded s.system s.loads dumps s.dirs dump_index asset sha s.files f index
            listing can.present can.some_files e,
        load_index-final s.system s.loads dumps s.dirs dump_index asset sha s.files f index
            reads_index (ap reads_index (can.utf8 _) ∙ index_reads_back f index can all),
        λ rel.
            contains-sorted_by entry_before (λ (x : Text × Meta). x.0) rel index
            ∙ ap (contains rel) (names_of f index all),
        ran,
        λ o. (clean o).none_counted,
      )

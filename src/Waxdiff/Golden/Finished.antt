-- ===== src/Waxdiff/Golden/Finished.antt =====
-- The files and the index that `golden` leaves when it records.
use wax_mb.Base.{
  sorted_by, ℕ, Text, codes, true, ◌≡◌, ◌≢◌, refl, ap, sym, ◌∙◌, some, List, [], ◌∷◌, map, list_eq,
  nat_eq, int_eq, Every, select, length, ends_with, IsDistinct, select-IsDistinct,
  sorted_by-IsDistinct, select_passes, sorted_by-Every,
}
use wax_mb.Waxdiff.Process.{Files, write, System}
use wax_mb.Waxdiff.Diagnostics.{Loads}
use wax_mb.Waxdiff.Records.{Meta, Dirs}
use wax_mb.Waxdiff.Report.{oracle_eq, reference_present}
use wax_mb.Waxdiff.Golden.{Dumps}
use wax_mb.Waxdiff.Golden.Recorded.{AgreeOutside, IsRecorded}
use wax_mb.Waxdiff.Golden.{write_goldens}
use wax_mb.Waxdiff.Golden.Written.{write-here, write-elsewhere}
use wax_mb.Waxdiff.Golden.Paths.{
  index_path, reprint_path-below, diag_path-below, index_path-below, reprint_path-ne-index_path,
  diag_path-ne-index_path,
}
use wax_mb.Waxdiff.Golden.Loop.{IsCorpus}
use wax_mb.Waxdiff.Golden.Recorded.{entry_of, IsFree, IsRecorded-keep}
use wax_mb.Waxdiff.Golden.Command.{
  corpus_files, path_before, clear, Counts, count_all, count_rows, buckets_of, entry_before,
  DumpIndex, LoadIndex, recorded, finish_golden, golden_files, cmd_golden, loaded, load_index,
}

pub IsCorpus-intro :
    (rels : List Text)
    → Every (λ (r : Text). ends_with r (codes ".wax") ≡ true) rels
    → IsDistinct rels
    → IsCorpus rels
IsCorpus-intro [] h d = tt
IsCorpus-intro (rel ∷ rels) (h, hs) (d, ds) = (h, d, IsCorpus-intro rels hs ds)

pub corpus_files-IsCorpus :
    (listing : List Text) → IsDistinct listing → IsCorpus (corpus_files listing)
unfolding corpus_files
corpus_files-IsCorpus listing d =
    let is_wax = λ (p : Text). ends_with p (codes ".wax") in
    IsCorpus-intro _
      (sorted_by-Every (λ (r : Text). is_wax r ≡ true) path_before (select is_wax listing)
        (select_passes is_wax listing))
      (sorted_by-IsDistinct path_before (select is_wax listing)
        (select-IsDistinct is_wax listing d))

pub clear-outside : (dirs : Dirs) (files : Files) → AgreeOutside dirs files (clear dirs files)
unfolding clear
clear-outside dirs files q h = rw (h, clear) refl

pub clear-IsFree :
    (dirs : Dirs) (files : Files) (rels : List Text) → Every (IsFree dirs (clear dirs files)) rels
unfolding clear
clear-IsFree dirs files [] = tt
clear-IsFree dirs files (r ∷ rels) = (
  (rw (reprint_path-below dirs r, clear) refl, rw (diag_path-below dirs r, clear) refl),
  clear-IsFree dirs files rels,
)

module _ (sys : System) (loads : Loads) (dumps : Dumps) (dirs : Dirs) (dump_index : DumpIndex)
    (asset sha : Text) (files : Files) where
  pub golden_files_some :
      (rels : List Text)
      → rels ≢ []
      → golden_files sys loads dumps dirs dump_index asset sha files rels
        ≡ finish_golden sys loads dumps dirs dump_index asset sha
            (write_goldens sys loads dumps dirs (clear dirs files) rels)
  unfolding golden_files
  golden_files_some [] h = absurd (h refl)
  golden_files_some (rel ∷ rels) h = refl

  -- The text of index.json, the files at the end and the printed rows
  module _ (f : Files) (index : List (Text × Meta)) where
    abbrev counts : Counts
    counts = count_all (buckets_of index) []

    abbrev pub index_text : Text
    index_text = dump_index sha counts (sorted_by entry_before index)

    abbrev pub final : Files
    final = write f (index_path dirs) (sys.encode index_text)

    abbrev pub printed : List (Text × ℕ)
    printed = count_rows counts (length index)

    pub cmd_golden-recorded :
        (listing : List Text)
        → reference_present sys asset files ≡ true
        → corpus_files listing ≢ []
        → write_goldens sys loads dumps dirs (clear dirs files) (corpus_files listing)
          ≡ some (f, index)
        → cmd_golden sys loads dumps dirs dump_index asset sha files listing
          ≡ recorded final printed
    unfolding cmd_golden finish_golden
    cmd_golden-recorded listing present some_files e =
        rw (present, cmd_golden)
          (golden_files_some (corpus_files listing) some_files ∙ rw (e, finish_golden) refl)

    pub load_index-final :
        (reads_index : LoadIndex)
        → reads_index (sys.decode (sys.encode index_text)) ≡ some (sorted_by entry_before index)
        → load_index sys reads_index dirs final ≡ loaded (sorted_by entry_before index)
    unfolding load_index
    load_index-final reads_index h =
        rw (write-here f (index_path dirs) (sys.encode index_text), load_index) (rw h refl)

    pub final-outside : AgreeOutside dirs files f → AgreeOutside dirs files final
    final-outside agree q h =
        agree q h
        ∙ sym (
            write-elsewhere f (index_path dirs) (sys.encode index_text) q
              (λ e. let k = index_path-below dirs in (let k' = rw (← e) at k in cc)))

    pub final-IsRecorded :
        (utf8 : (t : Text) → sys.decode (sys.encode t) ≡ t) (e : Text × Meta)
        → IsRecorded sys loads dirs files f e
        → IsRecorded sys loads dirs files final e
    final-IsRecorded utf8 e r =
        IsRecorded-keep sys loads dumps dirs files utf8 f final e
          (write-elsewhere f (index_path dirs) (sys.encode index_text) _
            (reprint_path-ne-index_path dirs e.0))
          (write-elsewhere f (index_path dirs) (sys.encode index_text) _
            (diag_path-ne-index_path dirs e.0))
          r

pub names-entries :
    (sys : System) (dirs : Dirs) (files : Files) (rels : List Text)
    → map (λ (e : Text × Meta). e.0) (map (entry_of sys dirs files) rels) ≡ rels
names-entries sys dirs files [] = refl
names-entries sys dirs files (rel ∷ rels) =
    ap (λ (l : List Text). rel ∷ l) (names-entries sys dirs files rels)

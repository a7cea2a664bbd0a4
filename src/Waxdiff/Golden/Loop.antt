-- ===== src/Waxdiff/Golden/Loop.antt =====
-- The loop of `cmd_golden`, and what it records.
use wax_mb.Base.{
  Text, codes, true, ◌≡◌, ◌≢◌, refl, sym, ◌∙◌, some, List, [], ◌∷◌, map, list_eq, nat_eq, int_eq,
  all, Every, ends_with,
}
use wax_mb.Waxdiff.Process.{Files, System}
use wax_mb.Waxdiff.Diagnostics.{Loads}
use wax_mb.Waxdiff.Records.{Meta, Dirs}
use wax_mb.Waxdiff.Reprint.{reprint_path}
use wax_mb.Waxdiff.Errors.{diag_path}
use wax_mb.Waxdiff.Golden.{Dumps, write_goldens}
use wax_mb.Waxdiff.Golden.Recorded.{
  entry_of, AgreeOutside, IsRecordable, IsRecorded, IsFree, IsApart, IsRecorded-keep, outside_of,
  write_golden-OneRecorded,
}
use wax_mb.Waxdiff.Golden.Paths.{
  reprint_path-injective, diag_path-injective, reprint_path-ne-diag_path,
}

-- Different files of the corpus, as `corpus_files` lists them.
abbrev pub IsCorpus : List Text → Type 0
IsCorpus [] = Unit
IsCorpus (rel ∷ rels) =
    (ends_with rel (codes ".wax") ≡ true) × Every (λ (r : Text). rel ≢ r) rels × IsCorpus rels

IsApart-all :
    (dirs : Dirs) (rel : Text) (rels : List Text)
    → ends_with rel (codes ".wax") ≡ true
    → Every (λ (r : Text). rel ≢ r) rels
    → IsCorpus rels
    → Every (IsApart dirs (reprint_path dirs rel)) rels
      × Every (IsApart dirs (diag_path dirs rel)) rels
IsApart-all dirs rel [] h others corpus = (tt, tt)
IsApart-all dirs rel (r ∷ rels) h (ne, others) (h', _, corpus) =
    let (left, right) = IsApart-all dirs rel rels h others corpus in
    (
      (
        (λ e. ne (reprint_path-injective dirs rel r h h' e), reprint_path-ne-diag_path dirs rel r),
        left,
      ),
      (
        (
          λ e. reprint_path-ne-diag_path dirs r rel (sym e),
          λ e. ne (diag_path-injective dirs rel r h h' e),
        ),
        right,
      ),
    )

-- The state after the loop.
pub record AllRecorded (sys : System) (loads : Loads) (dirs : Dirs) (files f g : Files)
    (rels : List Text) (index : List (Text × Meta)) : Type 0 where
  pub outside : AgreeOutside dirs files g
  pub entries : Every (IsRecorded sys loads dirs files g) index
  pub elsewhere : (q : Text) → Every (IsApart dirs q) rels → g q ≡ f q
  pub listed : index ≡ map (entry_of sys dirs files) rels

module _ (sys : System) (loads : Loads) (dumps : Dumps) (dirs : Dirs) (files : Files)
    (utf8 : (t : Text) → sys.decode (sys.encode t) ≡ t) where
  IsFree-after :
      (f g : Files) (rel : Text) (rels : List Text)
      → ((q : Text) → q ≢ reprint_path dirs rel → q ≢ diag_path dirs rel → g q ≡ f q)
      → ends_with rel (codes ".wax") ≡ true
      → Every (λ (r : Text). rel ≢ r) rels
      → IsCorpus rels
      → Every (IsFree dirs f) rels
      → Every (IsFree dirs g) rels
  IsFree-after f g rel [] elsewhere h others corpus free = tt
  IsFree-after f g rel (r ∷ rels) elsewhere h (ne, others) (h', _, corpus) ((free, free'), frees) =
      (
        (
          elsewhere (reprint_path dirs r) (λ e. ne (reprint_path-injective dirs rel r h h' (sym e)))
                (reprint_path-ne-diag_path dirs r rel)
              ∙ free,
          elsewhere (diag_path dirs r) (λ e. reprint_path-ne-diag_path dirs rel r (sym e))
                (λ e. ne (diag_path-injective dirs rel r h h' (sym e)))
              ∙ free',
        ),
        IsFree-after f g rel rels elsewhere h others corpus frees,
      )

  AllRecorded-cons :
      (f f' g : Files) (rel : Text) (m : Meta) (rels : List Text) (index : List (Text × Meta))
      → ends_with rel (codes ".wax") ≡ true
      → Every (λ (r : Text). rel ≢ r) rels
      → IsCorpus rels
      → IsRecorded sys loads dirs files f' (rel, m)
      → ((q : Text) → q ≢ reprint_path dirs rel → q ≢ diag_path dirs rel → f' q ≡ f q)
      → AllRecorded sys loads dirs files f' g rels index
      → AllRecorded sys loads dirs files f g (rel ∷ rels) ((rel, m) ∷ index)
  AllRecorded-cons f f' g rel m rels index h others corpus r elsewhere rest =
      let (left, right) = IsApart-all dirs rel rels h others corpus in
      record {
        outside = rest.outside;
        entries = (
          IsRecorded-keep sys loads dumps dirs files utf8 f' g (rel, m)
              (rest.elsewhere (reprint_path dirs rel) left)
              (rest.elsewhere (diag_path dirs rel) right) r,
          rest.entries,
        );
        elsewhere = λ q (here, later). rest.elsewhere q later ∙ elsewhere q here.0 here.1;
        listed = rw (r.indexed, rest.listed) refl;
      }

  -- The loop ends, with every file recorded.
  pub write_goldens-AllRecorded :
      (f : Files) (rels : List Text)
      → AgreeOutside dirs files f
      → IsCorpus rels
      → Every (IsFree dirs f) rels
      → Every (IsRecordable sys loads dumps dirs files) rels
      → (g : Files) × (index : List (Text × Meta)) × (write_goldens sys loads dumps dirs f rels
          ≡ some (g, index))
        × AllRecorded sys loads dirs files f g rels index
  unfolding write_goldens
  write_goldens-AllRecorded f [] same corpus free can = (
    f,
    [],
    refl,
    record { outside = same; entries = tt; elsewhere = λ q none_left. refl; listed = refl },
  )
  write_goldens-AllRecorded f (rel ∷ rels) same (h, others, corpus) (free, frees) (can, cans) =
      let one = write_golden-OneRecorded sys loads dumps dirs files utf8 f rel can same free in
      let same' = outside_of sys loads dumps dirs files utf8 f one.state rel one.elsewhere same in
      let (g, index, e, all) =
        write_goldens-AllRecorded one.state rels same' corpus
          (IsFree-after f one.state rel rels one.elsewhere h others corpus frees) cans in
      (
        g,
        (rel, one.meta) ∷ index,
        rw (one.ends, write_goldens) (rw e refl),
        AllRecorded-cons f one.state g rel one.meta rels index h others corpus one.entry
            one.elsewhere all,
      )

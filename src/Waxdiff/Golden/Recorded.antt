-- ===== src/Waxdiff/Golden/Recorded.antt =====
-- What `write_golden` leaves behind for a file of the corpus.
use wax_mb.Base.{
  pos, Text, false, ◌≡◌, ◌≢◌, refl, subst, ap, sym, ◌∙◌, none, some, some_inj, List, [], ◌∷◌, map,
  ◌==◌, list_eq, nat_eq, int_eq, if◌then◌else◌, Bool-cases, inl, inr, contains, Every, arith, ◌↔◌,
}
use wax_mb.Waxdiff.Process.{Files, System, wax, to_wax, to_wasm, check_json}
use wax_mb.Waxdiff.Diagnostics.{Diagnostic, Loads, parse_jsonl, normalize_file}
use wax_mb.Waxdiff.Records.{Meta, Dirs}
use wax_mb.Waxdiff.Reprint.{reprint_path, non_idempotent_upstream}
use wax_mb.Waxdiff.Reprint.Laws.{IsStable}
use wax_mb.Waxdiff.Errors.{diag_path, load_want}
use wax_mb.Waxdiff.Report.{corpus_path}
use wax_mb.Waxdiff.Golden.{classify_one, Dumps, meta_of, write_golden}
use wax_mb.Waxdiff.Golden.Written.{FileWritten, write_golden-FileWritten, write_golden-total}
use wax_mb.Waxdiff.Golden.Paths.{below, reprint_path-below, diag_path-below}
use wax_mb.Waxdiff.Golden.Rows.{IsDumped}

-- Two states of the files that differ below GOLDEN alone.
abbrev pub AgreeOutside : Dirs → Files → Files → Type 0
AgreeOutside dirs f g = (q : Text) → below dirs q ≡ false → f q ≡ g q

-- What the reference does with the file at a path, and with a temporary file, does not depend on what
-- stands below GOLDEN.
pub record IsBlind (sys : System) (dirs : Dirs) (path : Text) : Type 0 where
  pub reprints :
      (f g : Files) → AgreeOutside dirs f g → wax sys f (to_wax path) ≡ wax sys g (to_wax path)
  pub compiles :
      (f g : Files) → AgreeOutside dirs f g → wax sys f (to_wasm path) ≡ wax sys g (to_wasm path)
  pub checks :
      (f g : Files)
      → AgreeOutside dirs f g
      → wax sys f (check_json path) ≡ wax sys g (check_json path)
  pub reprints_temporary :
      (f g : Files)
      → AgreeOutside dirs f g
      → wax sys f (to_wax sys.temporary) ≡ wax sys g (to_wax sys.temporary)

-- What the goldens need of the reference at one file: its reprint is UTF-8 and, once more reprinted,
-- the same, unless the file is listed as unstable; and its diagnostics are JSON, each dumped as one row and read back from it.
pub record IsRecordable (sys : System) (loads : Loads) (dumps : Dumps) (dirs : Dirs) (files : Files)
    (rel : Text) : Type 0 where
  pub blind : IsBlind sys dirs (corpus_path dirs rel)
  pub utf8 :
      let r = wax sys files (to_wax (corpus_path dirs rel)) in
      r.code ≡ pos 0 → sys.encode (sys.decode r.out) ≡ r.out
  pub stable :
      let r = wax sys files (to_wax (corpus_path dirs rel)) in
      r.code ≡ pos 0
      → IsStable sys files (sys.reference ∷ []) r.out
        ↔ (contains rel non_idempotent_upstream ≡ false)
  pub diagnostics : List Diagnostic
  pub read :
      parse_jsonl loads (sys.decode (wax sys files (check_json (corpus_path dirs rel))).err)
      ≡ some diagnostics
  pub dumped : Every (IsDumped loads dumps) diagnostics

-- The entry of a file in the index
abbrev pub entry_of : System → Dirs → Files → Text → Text × Meta
entry_of sys dirs files rel = (rel, meta_of (classify_one sys files rel (corpus_path dirs rel)))

-- The goldens and the entry of one file, and the diagnostics that they hold.
pub record IsRecorded (sys : System) (loads : Loads) (dirs : Dirs) (files : Files) (goldens : Files)
    (entry : Text × Meta) : Type 0 where
  pub diagnostics : List Diagnostic
  pub reported :
      parse_jsonl loads (sys.decode (wax sys files (check_json (corpus_path dirs entry.0))).err)
      ≡ some diagnostics
  pub wanted :
      load_want sys loads goldens (diag_path dirs entry.0) ≡ some (map normalize_file diagnostics)
  pub reprinted :
      let r = wax sys files (to_wax (corpus_path dirs entry.0)) in
      goldens (reprint_path dirs entry.0)
      ≡ (if r.code == pos 0 then some (sys.encode (sys.decode r.out)) else none)
  pub indexed : entry.1 ≡ meta_of (classify_one sys files entry.0 (corpus_path dirs entry.0))

module _ (sys : System) (loads : Loads) (dumps : Dumps) (dirs : Dirs) where
  -- The states that golden goes through classify a file alike.
  classify_one-blind :
      (f g : Files) (rel : Text)
      → IsBlind sys dirs (corpus_path dirs rel)
      → AgreeOutside dirs f g
      → classify_one sys f rel (corpus_path dirs rel)
        ≡ classify_one sys g rel (corpus_path dirs rel)
  unfolding classify_one
  classify_one-blind f g rel blind same =
      rw (blind.reprints f g same, blind.compiles f g same, blind.checks f g same) refl

module _ (sys : System) (files : Files) (rel path : Text) where
  classify_one-file : (classify_one sys files rel path).file ≡ rel
  unfolding classify_one
  classify_one-file = ground arith

  classify_one-diagnostics :
      (classify_one sys files rel path).diagnostics
      ≡ sys.decode (wax sys files (check_json path)).err
  unfolding classify_one
  classify_one-diagnostics = ground arith

  classify_one-reprint :
      elim (classify_one sys files rel path).reprint [ none ↦ none | some t ↦ some (sys.encode t) ]
      ≡ (if (wax sys files (to_wax path)).code == pos 0
          then some (sys.encode (sys.decode (wax sys files (to_wax path)).out))
          else none)
  unfolding classify_one
  classify_one-reprint = elim (Bool-cases ((wax sys files (to_wax path)).code == pos 0)) [
    | inl e ↦ rw e refl
    | inr e ↦ rw e refl
  ]

abbrev pub IsFree : Dirs → Files → Text → Type 0
IsFree dirs f rel = (f (reprint_path dirs rel) ≡ none) × (f (diag_path dirs rel) ≡ none)

-- The path is not one of the two that belong to the file.
abbrev pub IsApart : Dirs → Text → Text → Type 0
IsApart dirs q rel = (q ≢ reprint_path dirs rel) × (q ≢ diag_path dirs rel)

module _ (sys : System) (loads : Loads) (dumps : Dumps) (dirs : Dirs) (files : Files)
    (utf8 : (t : Text) → sys.decode (sys.encode t) ≡ t) where
  -- An entry stays recorded while its two paths are left alone.
  pub IsRecorded-keep :
      (g h : Files) (e : Text × Meta)
      → h (reprint_path dirs e.0) ≡ g (reprint_path dirs e.0)
      → h (diag_path dirs e.0) ≡ g (diag_path dirs e.0)
      → IsRecorded sys loads dirs files g e
      → IsRecorded sys loads dirs files h e
  unfolding load_want
  IsRecorded-keep g h e a b r = record {
    diagnostics = r.diagnostics;
    reported = r.reported;
    wanted = rw (b, load_want) r.wanted;
    reprinted = a ∙ r.reprinted;
    indexed = r.indexed;
  }

  pub outside_of :
      (f g : Files) (rel : Text)
      → ((q : Text) → q ≢ reprint_path dirs rel → q ≢ diag_path dirs rel → g q ≡ f q)
      → AgreeOutside dirs files f
      → AgreeOutside dirs files g
  outside_of f g rel elsewhere same q h =
      same q h
      ∙ sym (
          elsewhere q (λ e. let k = reprint_path-below dirs rel in (let k' = rw (← e) at k in cc))
            (λ e. let k = diag_path-below dirs rel in (let k' = rw (← e) at k in cc)))

  -- The state after the goldens of one file, which can be written.
  pub record OneRecorded (f : Files) (rel : Text) : Type 0 where
    pub state : Files
    pub meta : Meta
    pub ends :
        write_golden sys loads dumps dirs f (classify_one sys f rel (corpus_path dirs rel))
        ≡ some (state, meta)
    pub entry : IsRecorded sys loads dirs files state (rel, meta)
    pub elsewhere : (q : Text) → q ≢ reprint_path dirs rel → q ≢ diag_path dirs rel → state q ≡ f q

  pub write_golden-OneRecorded :
      (f : Files) (rel : Text)
      → IsRecordable sys loads dumps dirs files rel
      → AgreeOutside dirs files f
      → IsFree dirs f rel
      → OneRecorded f rel
  write_golden-OneRecorded f rel can same (free, free') =
      let path = corpus_path dirs rel in
      let res = classify_one sys files rel path in
      let seen = classify_one-blind sys loads dumps dirs files f rel can.blind same in
      let said = classify_one-diagnostics sys files rel path in
      let (g, total) =
        write_golden-total sys loads dumps dirs f res can.diagnostics
          (ap (parse_jsonl loads) said ∙ can.read) in
      let w : FileWritten sys loads dumps dirs f g rel res (meta_of res) =
        subst (λ (n : Text). FileWritten sys loads dumps dirs f g n res (meta_of res))
          (classify_one-file sys files rel path)
          (write_golden-FileWritten sys loads dumps dirs utf8 f g res (meta_of res) total) in
      let ds : w.diagnostics ≡ can.diagnostics =
        some_inj (sym w.reported ∙ ap (parse_jsonl loads) said ∙ can.read) in
      record {
        state = g;
        meta = meta_of res;
        ends = rw (← seen) total;
        entry = record {
          diagnostics = can.diagnostics;
          reported = can.read;
          wanted =
              w.wanted free' (rw ds can.dumped)
              ∙ ap (λ (l : List Diagnostic). some (map normalize_file l)) ds;
          reprinted = w.reprinted free ∙ classify_one-reprint sys files rel path;
          indexed = refl;
        };
        elsewhere = w.elsewhere;
      }

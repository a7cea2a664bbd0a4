-- ===== src/Waxdiff/Golden/Written.antt =====
-- What `write_golden` leaves at the two paths of a file, and elsewhere.
use wax_mb.Base.{
  Every, Text, ◌≡◌, ◌≢◌, refl, ap, sym, ◌∙◌, Option, none, some, some_inj, List, [], ◌∷◌, map, ◌==◌,
  eq_iff, eq_self, list_eq, nat_eq, int_eq, Bool-cases, inl, inr, >>=-eq-some,
}
use wax_mb.Waxdiff.Process.{Files, write, System}
use wax_mb.Waxdiff.Diagnostics.{
  Diagnostic, Loads, load_lines, load_lines, parse_jsonl, normalize_file,
}
use wax_mb.Waxdiff.Records.{Meta, Dirs}
use wax_mb.Waxdiff.Reprint.{reprint_path}
use wax_mb.Waxdiff.Errors.{diag_path, load_want}
use wax_mb.Waxdiff.Golden.{
  Classified, Dumps, to_jsonl, meta_of, write_reprint, write_diagnostics, write_golden,
}
use wax_mb.Waxdiff.Golden.Rows.{IsDumped, parse_jsonl-to_jsonl}
use wax_mb.Waxdiff.Golden.Paths.{reprint_path-ne-diag_path}

-- What one write does.
pub write-here : (f : Files) (p b : Text) → write f p b p ≡ some b
write-here f p b = rw (eq_self p) refl

pub write-elsewhere : (f : Files) (p b q : Text) → q ≢ p → write f p b q ≡ f q
write-elsewhere f p b q apart = elim (Bool-cases (q == p)) [
  | inl e ↦ absurd (apart ((eq_iff q p).0 e))
  | inr e ↦ rw e refl
]

module _ (sys : System) (f : Files) (p q : Text) where
  write_reprint-here :
      (o : Option Text)
      → f p ≡ none
      → write_reprint sys f p o p ≡ elim o [ none ↦ none | some t ↦ some (sys.encode t) ]
  unfolding write_reprint
  write_reprint-here none h = h
  write_reprint-here (some t) h = write-here f p (sys.encode t)

  write_reprint-elsewhere : (o : Option Text) → q ≢ p → write_reprint sys f p o q ≡ f q
  unfolding write_reprint
  write_reprint-elsewhere none apart = refl
  write_reprint-elsewhere (some t) apart = write-elsewhere f p (sys.encode t) q apart

-- What `write_diagnostics` leaves at its path and elsewhere.
record DiagnosticsWritten (sys : System) (loads : Loads) (dumps : Dumps) (f g : Files)
    (p text : Text) : Type 0 where
  diagnostics : List Diagnostic
  reported : parse_jsonl loads text ≡ some diagnostics
  wanted :
      f p ≡ none
      → Every (IsDumped loads dumps) diagnostics
      → load_want sys loads g p ≡ some (map normalize_file diagnostics)
  elsewhere : (q : Text) → q ≢ p → g q ≡ f q

module _ (sys : System) (loads : Loads) (dumps : Dumps) (f : Files) (p : Text)
    (utf8 : (t : Text) → sys.decode (sys.encode t) ≡ t) where
  load_want-absent : (g : Files) → g p ≡ none → load_want sys loads g p ≡ some []
  unfolding load_want
  load_want-absent g h = rw (h, load_want) refl

  load_want-written :
      (g : Files) (ds : List Diagnostic)
      → g p ≡ some (sys.encode (to_jsonl dumps ds))
      → Every (IsDumped loads dumps) ds
      → load_want sys loads g p ≡ some (map normalize_file ds)
  unfolding load_want
  load_want-written g ds h k =
      rw (h, load_want) (rw (utf8 (to_jsonl dumps ds)) (parse_jsonl-to_jsonl loads dumps ds k))

  write_diagnostics-DiagnosticsWritten :
      (g : Files) (text : Text)
      → write_diagnostics sys loads dumps f p text ≡ some g
      → DiagnosticsWritten sys loads dumps f g p text
  unfolding write_diagnostics
  write_diagnostics-DiagnosticsWritten g [] h =
      let same : f ≡ g = some_inj h in
      record {
        diagnostics = [];
        reported = (unfold parse_jsonl load_lines in refl);
        wanted = λ free k. load_want-absent g (ap (λ (x : Files). x p) (sym same) ∙ free);
        elsewhere = λ q apart. ap (λ (x : Files). x q) (sym same);
      }
  write_diagnostics-DiagnosticsWritten g (c ∷ text) h =
      let (ds, e, k) = >>=-eq-some (parse_jsonl loads (c ∷ text)) _ h in
      let same : write f p (sys.encode (to_jsonl dumps ds)) ≡ g = some_inj k in
      record {
        diagnostics = ds;
        reported = e;
        wanted = λ free k.
            load_want-written g ds
              (ap (λ (x : Files). x p) (sym same) ∙ write-here f p (sys.encode (to_jsonl dumps ds)))
              k;
        elsewhere = λ q apart.
            ap (λ (x : Files). x q) (sym same)
            ∙ write-elsewhere f p (sys.encode (to_jsonl dumps ds)) q apart;
      }

-- The state after the goldens of one file were written.
pub record FileWritten (sys : System) (loads : Loads) (dumps : Dumps) (dirs : Dirs) (f g : Files)
    (name : Text) (res : Classified) (m : Meta) : Type 0 where
  pub indexed : m ≡ meta_of res
  pub reprinted :
      f (reprint_path dirs name) ≡ none
      → g (reprint_path dirs name) ≡ elim res.reprint [ none ↦ none | some t ↦ some (sys.encode t) ]
  pub diagnostics : List Diagnostic
  pub reported : parse_jsonl loads res.diagnostics ≡ some diagnostics
  pub wanted :
      f (diag_path dirs name) ≡ none
      → Every (IsDumped loads dumps) diagnostics
      → load_want sys loads g (diag_path dirs name) ≡ some (map normalize_file diagnostics)
  pub elsewhere : (q : Text) → q ≢ reprint_path dirs name → q ≢ diag_path dirs name → g q ≡ f q

module _ (sys : System) (loads : Loads) (dumps : Dumps) (dirs : Dirs)
    (utf8 : (t : Text) → sys.decode (sys.encode t) ≡ t) where
  pub write_golden-FileWritten :
      (f g : Files) (res : Classified) (m : Meta)
      → write_golden sys loads dumps dirs f res ≡ some (g, m)
      → FileWritten sys loads dumps dirs f g res.file res m
  unfolding write_golden
  write_golden-FileWritten f g res m h =
      let rp = reprint_path dirs res.file in
      let dp = diag_path dirs res.file in
      let mid = write_reprint sys f rp res.reprint in
      let (g', e, k) = >>=-eq-some (write_diagnostics sys loads dumps mid dp res.diagnostics) _ h in
      let pair : (g', meta_of res) ≡ (g, m) = some_inj k in
      let same : g' ≡ g = ap (λ (x : Files × Meta). x.0) pair in
      let w =
        write_diagnostics-DiagnosticsWritten sys loads dumps mid dp utf8 g res.diagnostics
          (e ∙ ap some same) in
      record {
        indexed = sym (ap (λ (x : Files × Meta). x.1) pair);
        reprinted = λ free.
            w.elsewhere rp (reprint_path-ne-diag_path dirs res.file res.file)
            ∙ write_reprint-here sys f rp rp res.reprint free;
        diagnostics = w.diagnostics;
        reported = w.reported;
        wanted = λ free rows.
            w.wanted
              (write_reprint-elsewhere sys f rp dp res.reprint
                  (λ q. reprint_path-ne-diag_path dirs res.file res.file (sym q))
                ∙ free)
              rows;
        elsewhere = λ q a b. w.elsewhere q b ∙ write_reprint-elsewhere sys f rp q res.reprint a;
      }

module _ (sys : System) (loads : Loads) (dumps : Dumps) (dirs : Dirs) where
  write_diagnostics-total :
      (f : Files) (p text : Text) (ds : List Diagnostic)
      → parse_jsonl loads text ≡ some ds
      → (g : Files) × (write_diagnostics sys loads dumps f p text ≡ some g)
  unfolding write_diagnostics
  write_diagnostics-total f p [] ds h = (f, refl)
  write_diagnostics-total f p (c ∷ text) ds h =
      (write f p (sys.encode (to_jsonl dumps ds)), rw (h, write_diagnostics) refl)

  -- Diagnostics that are JSON can be recorded.
  pub write_golden-total :
      (f : Files) (res : Classified) (ds : List Diagnostic)
      → parse_jsonl loads res.diagnostics ≡ some ds
      → (g : Files) × (write_golden sys loads dumps dirs f res ≡ some (g, meta_of res))
  unfolding write_golden
  write_golden-total f res ds h =
      let mid = write_reprint sys f (reprint_path dirs res.file) res.reprint in
      let (g, e) = write_diagnostics-total mid (diag_path dirs res.file) res.diagnostics ds h in
      (g, rw (e, write_golden) refl)

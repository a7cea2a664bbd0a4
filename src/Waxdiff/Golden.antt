-- ===== src/Waxdiff/Golden.antt =====
-- Recording the reference's behaviour: `classify_one`, `write_golden` and the index of `cmd_golden`.
pub mod WholeRun
mod Examples
pub mod Counted
pub mod SelfTest
pub mod Finished
mod Graded
pub mod Recorded
mod Loop
mod Written
pub mod Command
pub mod Rows
pub mod Paths
use wax_mb.Base.{
  ℤ, pos, Text, codes, not, Option, none, some, List, [], ◌∷◌, ◌++◌, ◌==◌, int_eq, if◌then◌else◌,
  ◌>>=◌,
}
use wax_mb.Waxdiff.Process.{Files, write, System, wax, to_wax, to_wasm, check_json}
use wax_mb.Waxdiff.Diagnostics.{Diagnostic, normalize_file, Loads, parse_jsonl}
use wax_mb.Waxdiff.Records.{Bucket, syntax_bad, compiles_clean, type_bad, Meta, Dirs}
use wax_mb.Waxdiff.Reprint.{reprint_path}
use wax_mb.Waxdiff.Errors.{diag_path}

pub record Classified : Type 0 where
  pub file : Text
  pub bucket : Bucket
  pub reprint_code : ℤ
  pub diag_code : ℤ
  pub reprint : Option Text
  pub diagnostics : Text
  pub wasm_sha256 : Option Text

-- `classify_one`, for the file whose path in the corpus is `rel`.
unfoldable pub classify_one : System → Files → Text → Text → Classified
classify_one sys files rel path =
    let reprint = wax sys files (to_wax path) in
    let diag = wax sys files (check_json path) in
    let compiled = wax sys files (to_wasm path) in
    if not (reprint.code == pos 0)
    then record {
      file = rel;
      bucket = syntax_bad;
      reprint_code = reprint.code;
      diag_code = diag.code;
      reprint = none;
      diagnostics = sys.decode diag.err;
      wasm_sha256 = none;
    }
    else record {
      file = rel;
      bucket = if compiled.code == pos 0 then compiles_clean else type_bad;
      reprint_code = pos 0;
      diag_code = diag.code;
      reprint = some (sys.decode reprint.out);
      diagnostics = sys.decode diag.err;
      wasm_sha256 = if compiled.code == pos 0 then some (sys.sha256 compiled.out) else none;
    }

-- `json.dumps` of one diagnostic is a parameter.
abbrev pub Dumps : Type 0
Dumps = Diagnostic → Text

pub to_jsonl : Dumps → List Diagnostic → Text
to_jsonl dumps [] = []
to_jsonl dumps (d ∷ ds) = dumps (normalize_file d) ++ (codes "\n" ++ to_jsonl dumps ds)

abbrev pub meta_of : Classified → Meta
meta_of res = record {
  bucket = res.bucket;
  reprint_code = res.reprint_code;
  diag_code = res.diag_code;
  wasm_sha256 = res.wasm_sha256;
}

unfoldable pub write_reprint : System → Files → Text → Option Text → Files
write_reprint sys files path none = files
write_reprint sys files path (some text) = write files path (sys.encode text)

unfoldable pub write_diagnostics : System → Loads → Dumps → Files → Text → Text → Option Files
write_diagnostics sys loads dumps files path [] = some files
write_diagnostics sys loads dumps files path (c ∷ text) = do
  ds ← parse_jsonl loads (c ∷ text)
  some (write files path (sys.encode (to_jsonl dumps ds)))

-- The files with the goldens in them, and the entry of the index; `none` is a JSONDecodeError.
unfoldable pub write_golden :
    System → Loads → Dumps → Dirs → Files → Classified → Option (Files × Meta)
unfolding write_reprint write_diagnostics
write_golden sys loads dumps dirs files res = do
  files' ←
      write_diagnostics sys loads dumps
        (write_reprint sys files (reprint_path dirs res.file) res.reprint) (diag_path dirs res.file)
        res.diagnostics
  some (files', meta_of res)

-- The loop of `cmd_golden` over the corpus.
unfoldable pub write_goldens :
    System → Loads → Dumps → Dirs → Files → List Text → Option (Files × List (Text × Meta))
write_goldens sys loads dumps dirs files [] = some (files, [])
write_goldens sys loads dumps dirs files (rel ∷ rels) = do
  (files', meta) ←
      write_golden sys loads dumps dirs files
        (classify_one sys files rel (dirs.corpus ++ codes "/" ++ rel))
  (files'', index) ← write_goldens sys loads dumps dirs files' rels
  some (files'', (rel, meta) ∷ index)

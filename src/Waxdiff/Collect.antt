-- ===== src/Waxdiff/Collect.antt =====
-- `collect`: the four sources of the corpus and its manifest. What the checkout of the reference holds
-- is an argument, as lists in the order of `sorted`; the manifest is in the order of the dict.
pub mod Docs
pub mod Recorded
pub mod Laws
pub mod Command
pub mod Adopt
pub mod Examples
use wax_mb.Base.{
  ℕ, zero, suc, ◌+◌, Text, codes, Bool, true, false, not, ◌&&◌, ◌||◌, Option, none, some, List, [],
  ◌∷◌, ◌++◌, map, ◌==◌, int_eq, pos, list_eq, nat_eq, if◌then◌else◌, ◌>>=◌, length, take, drop,
  contains, any, select, join, strip, remove_suffix, has_char, ltb,
}
use wax_mb.Messages.Key.{str}
use wax_mb.Waxdiff.Process.{Files, write, System, Run, wax, to_wax}
use wax_mb.Waxdiff.Records.{Dirs}
use wax_mb.Waxdiff.Report.{corpus_path}
use wax_mb.Waxdiff.Collect.Docs.{Page, blocks_of, block_name}

-- The corpus name of a file, and its origin
abbrev pub Manifest : Type 0
Manifest = List (Text × Text)

abbrev pub keys : Manifest → List Text
keys manifest = map (λ (e : Text × Text). e.0) manifest

-- The files, the manifest and `n`.
pub record Collection : Type 0 where
  pub files : Files
  pub manifest : Manifest
  pub n : ℕ

-- `a.replace("/", "__")`
pub flattened : Text → Text
flattened [] = []
flattened (c ∷ s) = if c == b'/' then codes "__" ++ flattened s else c ∷ flattened s

-- A fixture of the cram tests: the name of its directory, its own, its path and its text
pub record Fixture : Type 0 where
  pub parent : Text
  pub name : Text
  pub path : Text
  pub text : Text

-- A .wat file: its path, and its paths from the checkout and from test/
pub record WatFile : Type 0 where
  pub file : Text
  pub path : Text
  pub from_test : Text

-- A .wast file. `modules` are the paths, names and stems of the modules that wasm-tools splits it
-- into, and `none` is a run of it that fails.
pub record Wast : Type 0 where
  pub path : Text
  pub from_test : Text
  pub modules : Option (List (Text × Text × Text))

-- `{s for s in stems if stems.count(s) > 1}` is not empty.
abbrev pub has_duplicate : List Text → Bool
has_duplicate [] = false
has_duplicate (s ∷ stems) = contains s stems || has_duplicate stems

abbrev pub from_wat : Text → List Text
from_wat path = codes "-i" ∷ codes "wat" ∷ codes "-f" ∷ codes "wax" ∷ path ∷ []

-- `r.code != 0 or not r.out.strip()`
abbrev pub is_unusable : Run → Bool
is_unusable r = not (r.code == pos 0) || strip r.out == []

module _ (sys : System) (dirs : Dirs) where
  -- `_write_corpus_file`, and `n += 1`; `none` is the AssertionError.
  unfoldable pub write_corpus_file : Text → Text → Text → Collection → Option Collection
  write_corpus_file rel text origin c =
      if contains rel (keys c.manifest)
      then none
      else some (record {
        files = write c.files (corpus_path dirs rel) (sys.encode text);
        manifest = c.manifest ++ (rel, origin) ∷ [];
        n = c.n + 1;
      })

  abbrev pub fixture_name : Fixture → Text
  fixture_name f = codes "cram/" ++ remove_suffix f.parent (codes ".t") ++ codes "__" ++ f.name

  unfoldable pub collect_cram : List Fixture → Collection → Option Collection
  unfolding write_corpus_file
  collect_cram [] c = some c
  collect_cram (f ∷ fixtures) c = do
    c' ← write_corpus_file (fixture_name f) f.text f.path c
    collect_cram fixtures c'

  -- The blocks of a page, from the number `block` on
  unfoldable pub collect_blocks :
      Page → ℕ → List (Bool × List Text) → Collection → Option Collection
  unfolding write_corpus_file
  collect_blocks page block [] c = some c
  collect_blocks page block ((checked, body) ∷ blocks) c = do
    c' ←
        write_corpus_file (block_name page.stem block checked)
          (join (codes "\n") body ++ codes "\n") (page.path ++ codes " block " ++ str block) c
    collect_blocks page (block + 1) blocks c'

  unfoldable pub collect_pages : List Page → Collection → Option Collection
  unfolding collect_blocks
  collect_pages [] c = some c
  collect_pages (page ∷ pages) c = do
    c' ← collect_blocks page 0 (blocks_of page.lines) c
    collect_pages pages c'

  -- `none` is also the SystemExit of two pages with one stem.
  unfoldable pub collect_docs : List Page → Collection → Option Collection
  unfolding collect_pages
  collect_docs pages c =
      let collected = collect_pages pages c in
      if has_duplicate (map (λ (p : Page). p.stem) pages) then none else collected

  abbrev pub wat_name : WatFile → Text
  wat_name w = codes "wat/" ++ remove_suffix (flattened w.from_test) (codes ".wat") ++ codes ".wax"

  unfoldable pub collect_wat : List WatFile → Collection → Option Collection
  unfolding write_corpus_file
  collect_wat [] c = some c
  collect_wat (w ∷ wats) c =
      let r = wax sys c.files (from_wat w.file) in
      elim (is_unusable r) [
        | true ↦ collect_wat wats c
        | false ↦ do
          text ← sys.decode_strict r.out
          c' ← write_corpus_file (wat_name w) text (w.path ++ codes " (wat->wax)") c
          collect_wat wats c'
      ]

  abbrev pub module_name : Text → Text → Text
  module_name from_test stem =
      codes "spec/"
      ++ flattened (remove_suffix from_test (codes ".wast"))
      ++ codes "__"
      ++ stem
      ++ codes ".wax"

  -- The loop over the modules of a file; `left` is `per_wast - kept`.
  unfoldable pub collect_modules :
      Wast → ℕ → List (Text × Text × Text) → Collection → Option Collection
  unfolding write_corpus_file
  collect_modules w left [] c = some c
  collect_modules w zero (m ∷ modules) c = some c
  collect_modules w (suc left) ((file, name, stem) ∷ modules) c =
      let r = wax sys c.files (to_wax file) in
      elim (is_unusable r) [
        | true ↦ collect_modules w (suc left) modules c
        | false ↦ do
          text ← sys.decode_strict r.out
          c' ←
              write_corpus_file (module_name w.from_test stem) text
                (w.path ++ codes " -> " ++ name ++ codes " (wasm->wax)") c
          collect_modules w left modules c'
      ]

  abbrev pub split_modules :
      Wast → ℕ → Option (List (Text × Text × Text)) → Collection → Option Collection
  split_modules w per_wast none c = some c
  split_modules w per_wast (some modules) c = collect_modules w per_wast modules c

  unfoldable pub collect_wasts : ℕ → List Wast → Collection → Option Collection
  unfolding collect_modules
  collect_wasts per_wast [] c = some c
  collect_wasts per_wast (w ∷ wasts) c = do
    c' ← split_modules w per_wast w.modules c
    collect_wasts per_wast wasts c'

  -- `if limit: wasts = wasts[:limit]`
  abbrev pub limited : ℕ → List Wast → List Wast
  limited zero wasts = wasts
  limited (suc limit) wasts = take (suc limit) wasts

  unfoldable pub collect_spec : ℕ → ℕ → List Wast → Collection → Option Collection
  unfolding collect_wasts
  collect_spec limit per_wast wasts c =
      if sys.has_wasm_tools then collect_wasts per_wast (limited limit wasts) c else some c

-- What the checkout holds, and the arguments of the command.
pub record Checkout : Type 0 where
  pub fixtures : List Fixture
  pub pages : List Page
  pub wats : List WatFile
  pub wasts : List Wast
  pub spec_limit : ℕ
  pub spec_per_wast : ℕ

pub data Source : Type 0 where
  cram docs wat spec : Source

abbrev pub source_name : Source → Text
source_name cram = codes "cram"
source_name docs = codes "docs"
source_name wat = codes "wat"
source_name spec = codes "spec"

-- `k.split("/")[0]`
pub first_part : Text → Text
first_part [] = []
first_part (c ∷ s) = let rest = first_part s in if c == b'/' then [] else c ∷ rest

-- `{k: v for k, v in prior.items() if k.split("/")[0] not in sources}`
unfoldable pub carried : List Source → Manifest → Manifest
unfolding first_part
carried sources prior =
    select (λ (e : Text × Text). not (contains (first_part e.0) (map source_name sources))) prior

-- `shutil.rmtree` and `CORPUS.rglob("*.wax")`, in names of the corpus
pub record Tree : Type 0 where
  pub remove : Text → Files → Files
  pub on_disk : Files → List Text

-- How the command ends; `raised` is an AssertionError or the exit of `collect_docs`.
pub data CollectEnded : Type 0 where
  raised : CollectEnded
  without_origin : List Text → CollectEnded
  collected : Collection → List (Source × ℕ) → CollectEnded

abbrev pub check_entries : List Text → Collection → List (Source × ℕ) → CollectEnded
check_entries [] c counts = collected c counts
check_entries (k ∷ ks) c counts = without_origin (k ∷ ks)

module _ (sys : System) (tree : Tree) (dirs : Dirs) (checkout : Checkout) where
  unfoldable pub collect_source : Source → Collection → Option Collection
  unfolding collect_cram collect_docs collect_wat collect_spec
  collect_source cram c = collect_cram sys dirs checkout.fixtures c
  collect_source docs c = collect_docs sys dirs checkout.pages c
  collect_source wat c = collect_wat sys dirs checkout.wats c
  collect_source spec c =
      collect_spec sys dirs checkout.spec_limit checkout.spec_per_wast checkout.wasts c

  -- `for name in sources`; every source starts from `n = 0`, and the counts are kept.
  unfoldable pub collect_sources :
      List Source → Collection → Option (Collection × List (Source × ℕ))
  unfolding collect_source
  collect_sources [] c = some (c, [])
  collect_sources (s ∷ sources) c = do
    c' ← collect_source s (record {
      files = tree.remove (corpus_path dirs (source_name s)) c.files;
      manifest = c.manifest;
      n = 0;
    })
    (c'', counts) ← collect_sources sources c'
    some (c'', (s, c'.n) ∷ counts)

  -- `on_disk - manifest.keys()`
  abbrev pub without_entry : Collection → List Text
  without_entry c = select (λ k. not (contains k (keys c.manifest))) (tree.on_disk c.files)

  abbrev pub end_collect : Option (Collection × List (Source × ℕ)) → CollectEnded
  end_collect none = raised
  end_collect (some (c, counts)) = check_entries (without_entry c) c counts

  -- `cmd_collect`, where the reference and the checkout are there; `sources` is `--only`, or all.
  unfoldable pub cmd_collect : List Source → Files → Manifest → CollectEnded
  unfolding collect_sources carried
  cmd_collect sources files prior =
      end_collect (
        collect_sources sources (record { files = files; manifest = carried sources prior; n = 0 }))

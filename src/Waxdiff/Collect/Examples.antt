-- ===== src/Waxdiff/Collect/Examples.antt =====
-- The theorems of the collection, at a small checkout.
use wax_mb.Base.{
  ℕ, ◌≡◌, refl, codes, true, false, none, some, List, [], ◌∷◌, ◌++◌, list_eq, nat_eq, length,
  contains, all, pos,
}
use wax_mb.Waxdiff.Process.{Files, write, System}
use wax_mb.Waxdiff.Records.{Dirs}
use wax_mb.Waxdiff.Collect.Docs.{blocks_of, fence, between, block_name}
use wax_mb.Waxdiff.Collect.Docs.Written.{Block, page_of, blocks_of-page}
use wax_mb.Waxdiff.Collect.{
  Manifest, keys, Collection, Checkout, Source, cram, docs, Tree, carried, collected, cmd_collect,
  collect_sources, collect_source, collect_cram, collect_docs, collect_pages, collect_blocks,
  write_corpus_file,
}
use wax_mb.Waxdiff.Collect.Laws.{distinct}
use wax_mb.Waxdiff.Collect.Command.{total, cmd_collect-manifest}
use wax_mb.Waxdiff.Collect.Adopt.{Adoption, adopted, already_there, cmd_adopt, cmd_adopt-twice}
use wax_mb.Messages.Key.{str}

abbrev two_pages : List Block
two_pages =
    record {
      prose = codes "# Title" ∷ codes "" ∷ [];
      group = codes "wax,check";
      first = codes "fn f";
      others = codes "fn g" ∷ [];
    }
    ∷ record { prose = []; group = codes "wax"; first = codes "x"; others = [] }
    ∷ []

blocks_of-page_example :
    blocks_of (page_of two_pages (codes "end" ∷ []))
    ≡ (true, codes "fn f" ∷ codes "fn g" ∷ []) ∷ (false, codes "x" ∷ []) ∷ []
unfolding fence
blocks_of-page_example = blocks_of-page two_pages (codes "end" ∷ []) refl refl

abbrev plain_system : System
plain_system = record {
  exec = λ files argv stdin. some (record { code = pos 0; out = codes "fn f"; err = [] });
  writes = λ files argv. [];
  has_systemd_run = false;
  has_wasm_tools = false;
  mem_cap = codes "1G";
  reference = codes "wax";
  temporary = codes "tmp";
  sha256 = λ b. b;
  decode = λ b. b;
  decode_strict = λ b. some b;
  encode = λ b. b;
}

abbrev no_tree : Tree
no_tree = record {
  remove = λ path files. files;
  on_disk = λ files. codes "fuzz/a.wax" ∷ codes "cram/t__a.wax" ∷ [];
}

abbrev corpus_dirs : Dirs
corpus_dirs = record { corpus = codes "c"; golden = codes "g" }

abbrev small_checkout : Checkout
small_checkout = record {
  fixtures =
      record { parent = codes "t.t"; name = codes "a.wax"; path = codes "p"; text = codes "fn f" }
      ∷ [];
  pages =
      record { stem = codes "lang"; path = codes "d"; lines = codes "```wax" ∷ codes "x" ∷ [] }
      ∷ [];
  wats = [];
  wasts = [];
  spec_limit = 0;
  spec_per_wast = 5;
}

abbrev no_files : Files
no_files path = none

abbrev prior_manifest : Manifest
prior_manifest = (codes "fuzz/a.wax", codes "find") ∷ (codes "cram/old.wax", codes "o") ∷ []

-- The entry of an adopted find is carried over, and that of a cram test is made anew.
abbrev after : Collection
after = record {
  files =
      write (write no_files (codes "c/cram/t__a.wax") (codes "fn f")) (codes "c/docs/lang__000.wax")
        (codes "x\n");
  manifest =
      (codes "fuzz/a.wax", codes "find")
      ∷ (codes "cram/t__a.wax", codes "p")
      ∷ (codes "docs/lang__000.wax", codes "d block 0")
      ∷ [];
  n = 1;
}

abbrev counted : List (Source × ℕ)
counted = (cram, 1) ∷ (docs, 1) ∷ []

run_ended :
    cmd_collect plain_system no_tree corpus_dirs small_checkout
      (cram ∷ docs ∷ [])
      no_files
      prior_manifest
    ≡ collected after counted
unfolding cmd_collect collect_sources collect_source collect_cram collect_docs collect_pages
    collect_blocks write_corpus_file carried block_name between fence str
run_ended = refl

cmd_collect-manifest_example :
    (added : Manifest) × (after.manifest ≡ carried (cram ∷ docs ∷ []) prior_manifest ++ added)
    × (total counted ≡ length added)
    × (distinct (keys after.manifest) ≡ true)
    × (all (λ k. contains k (keys after.manifest)) (no_tree.on_disk after.files) ≡ true)
cmd_collect-manifest_example =
    cmd_collect-manifest plain_system no_tree corpus_dirs small_checkout (cram ∷ docs ∷ []) no_files
      prior_manifest after counted refl run_ended

abbrev find_file : Adoption
find_file = record {
  file = codes "find-1-2.wax";
  file_name = codes "find-1-2.wax";
  stem = codes "find-1-2";
  name = codes "a";
  origin = [];
  force = false;
}

abbrev find_files : Files
find_files = write no_files (codes "find-1-2.wax") (codes "x")

abbrev adopted_entries : Manifest
adopted_entries = (codes "fuzz/a.wax", codes "fuzz find, from find-1-2.wax") ∷ []

adopted_once :
    cmd_adopt plain_system corpus_dirs find_file find_files []
    ≡ adopted (write find_files (codes "c/fuzz/a.wax") (codes "x")) adopted_entries 1
unfolding cmd_adopt
adopted_once = refl

cmd_adopt-twice_example :
    cmd_adopt plain_system corpus_dirs find_file
      (write find_files (codes "c/fuzz/a.wax") (codes "x"))
      adopted_entries
    ≡ already_there (codes "fuzz/a.wax")
cmd_adopt-twice_example =
    cmd_adopt-twice plain_system corpus_dirs find_file find_file find_files
      (write find_files (codes "c/fuzz/a.wax") (codes "x")) [] adopted_entries 1 (codes "x")
      adopted_once refl refl refl

-- ===== src/Waxdiff/Collect/Recorded.antt =====
-- The rest of `cmd_collect`: the exits before it collects, the manifest that it starts from and the
-- one that it writes, and the counts.
use wax_mb.Base.{
  ℕ, ◌+◌, Text, codes, Bool, Option, none, some, List, [], ◌∷◌, ◌++◌, map, ◌==◌, list_eq, nat_eq,
  if◌then◌else◌, contains, sorted_by, text_before,
}
use wax_mb.Waxdiff.Process.{Files, write, System}
use wax_mb.Waxdiff.Records.{Dirs}
use wax_mb.Waxdiff.Report.{corpus_path, reference_present}
use wax_mb.Waxdiff.Collect.{
  Manifest, Checkout, Source, cram, docs, wat, spec, source_name, Tree, CollectEnded, raised,
  without_origin, collected, cmd_collect,
}

-- `json.loads(...)["files"]` and `json.dumps` of the manifest, from the counts and the sorted entries
abbrev pub LoadManifest : Type 0
LoadManifest = Text → Option Manifest

abbrev pub DumpManifest : Type 0
DumpManifest = List (Source × ℕ) → Manifest → Text

abbrev pub manifest_path : Dirs → Text
manifest_path dirs = corpus_path dirs (codes "manifest.json")

abbrev pub all_sources : List Source
all_sources = cram ∷ docs ∷ wat ∷ spec ∷ []

-- `args.only or [...]`
unfoldable pub chosen_sources : List Source → List Source
chosen_sources [] = all_sources
chosen_sources (s ∷ only) = s ∷ only

abbrev pub source_keys : List (Source × ℕ) → List Text
source_keys counts = map (λ (c : Source × ℕ). source_name c.0) counts

-- The sources that were not collected count their files on disk, where their directory is there.
unfoldable pub count_rest :
    (Source → Option ℕ) → List Source → List (Source × ℕ) → List (Source × ℕ)
count_rest on_disk [] counts = counts
count_rest on_disk (s ∷ sources) counts = elim (on_disk s) [
  | none ↦ count_rest on_disk sources counts
  | some n ↦
      count_rest on_disk sources
        (if contains (source_name s) (source_keys counts) then counts else counts ++ (s, n) ∷ [])
]

-- A later count of a source replaces an earlier one in its place.
unfoldable pub set_count : Source → ℕ → List (Source × ℕ) → List (Source × ℕ)
set_count s n [] = (s, n) ∷ []
set_count s n ((t, k) ∷ counts) =
    let rest = set_count s n counts in
    if source_name t == source_name s then (t, n) ∷ counts else (t, k) ∷ rest

unfoldable pub counts_of : List (Source × ℕ) → List (Source × ℕ) → List (Source × ℕ)
counts_of [] counts = counts
counts_of ((s, n) ∷ rest) counts = counts_of rest (set_count s n counts)

-- `sum(counts.values())`
unfoldable pub sum_counts : List (Source × ℕ) → ℕ
sum_counts [] = 0
sum_counts ((s, n) ∷ counts) = n + sum_counts counts

-- How the command ends: the first two are exits.
pub data Collecting : Type 0 where
  collect_without_reference : Collecting
  checkout_missing : Collecting
  manifest_unreadable : Collecting
  stopped : CollectEnded → Collecting
  manifest_written : Files → List (Source × ℕ) → ℕ → Collecting

module _ (sys : System) (tree : Tree) (dirs : Dirs) (checkout : Checkout) (loads : LoadManifest)
    (dumps : DumpManifest) (on_disk : Files → Source → Option ℕ) where
  -- `prior`: without a manifest there are no entries.
  abbrev pub prior_of : Option Text → Option Manifest
  prior_of none = some []
  prior_of (some text) = loads (sys.decode text)

  finish_collect : CollectEnded → Collecting
  unfolding counts_of count_rest sum_counts
  finish_collect raised = stopped raised
  finish_collect (without_origin missing) = stopped (without_origin missing)
  finish_collect (collected c counts) =
      let all = count_rest (on_disk c.files) all_sources (counts_of counts []) in
      let entries = sorted_by (λ (e f : Text × Text). text_before e.0 f.0) c.manifest in
      manifest_written (write c.files (manifest_path dirs) (sys.encode (dumps all entries))) all
        (sum_counts all)

  collect_from : List Source → Files → Option Manifest → Collecting
  unfolding finish_collect
  collect_from sources files none = manifest_unreadable
  collect_from sources files (some prior) =
      finish_collect (cmd_collect sys tree dirs checkout sources files prior)

  -- `only` is what `--only` lists, `has_checkout` whether the checkout of the reference is there.
  unfoldable pub collect_command : Text → Bool → List Source → Files → Collecting
  unfolding collect_from chosen_sources
  collect_command asset has_checkout only files =
      let ending =
        collect_from (chosen_sources only) files (prior_of (files (manifest_path dirs))) in
      if reference_present sys asset files
      then if has_checkout then ending else checkout_missing
      else collect_without_reference

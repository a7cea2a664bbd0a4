-- ===== src/Waxdiff/Collect/Command.antt =====
-- What `collect` leaves in the manifest when it finishes.
use wax_mb.Base.{
  ℕ, ◌+◌, ◌≡◌, refl, ap, sym, ◌∙◌, arith, Text, Bool, true, false, not, Option, none, some,
  some_inj, none-ne-some, List, [], ◌∷◌, ◌++◌, append_assoc, append-nil, map, list_eq, nat_eq,
  >>=-eq-some, length, length-append, contains, select, all, Bool-cases, inl, inr, split_and,
  false_of_not, subst,
}
use wax_mb.Waxdiff.Process.{Files, System}
use wax_mb.Waxdiff.Records.{Dirs}
use wax_mb.Waxdiff.Report.{corpus_path}
use wax_mb.Waxdiff.Collect.{
  Manifest, keys, Collection, Checkout, Source, cram, docs, wat, spec, source_name, carried,
  first_part, Tree, collect_source, collect_sources, CollectEnded, raised, without_origin,
  collected, check_entries, without_entry, end_collect, cmd_collect,
}
use wax_mb.Waxdiff.Collect.Laws.{
  distinct, Grows, collect_cram-Grows, collect_docs-Grows, collect_wat-Grows, collect_spec-Grows,
}

abbrev pub total : List (Source × ℕ) → ℕ
total [] = 0
total ((s, n) ∷ counts) = n + total counts

-- What a run adds to a manifest, and how many files it counts.
pub Adds : Manifest → Collection → List (Source × ℕ) → Type 0
Adds before c counts =
    (added : Manifest) × (c.manifest ≡ before ++ added)
    × (total counts ≡ length added)
    × (distinct (keys before) ≡ true → distinct (keys c.manifest) ≡ true)

module _ (sys : System) (tree : Tree) (dirs : Dirs) (checkout : Checkout) where
  source-Grows :
      (s : Source) (c c' : Collection)
      → collect_source sys tree dirs checkout s c ≡ some c'
      → Grows c c'
  unfolding collect_source
  source-Grows cram c c' h = collect_cram-Grows sys dirs checkout.fixtures c c' h
  source-Grows docs c c' h = collect_docs-Grows sys dirs checkout.pages c c' h
  source-Grows wat c c' h = collect_wat-Grows sys dirs checkout.wats c c' h
  source-Grows spec c c' h =
      collect_spec-Grows sys dirs checkout.spec_limit checkout.spec_per_wast checkout.wasts c c' h

  sources-Adds :
      (sources : List Source) (c c' : Collection) (counts : List (Source × ℕ))
      → collect_sources sys tree dirs checkout sources c ≡ some (c', counts)
      → Adds c.manifest c' counts
  unfolding collect_sources Adds Grows
  sources-Adds [] c c' counts h =
      subst (λ (p : Collection × List (Source × ℕ)). Adds c.manifest p.0 p.1) (some_inj h)
        ([], sym (append-nil c.manifest), refl, λ d. d)
  sources-Adds (s ∷ sources) c c' counts h =
      let start : Collection = record {
        files = tree.remove (corpus_path dirs (source_name s)) c.files;
        manifest = c.manifest;
        n = 0;
      } in
      let (d, e, rest) = >>=-eq-some (collect_source sys tree dirs checkout s start) _ h in
      let ((c'', counts''), e', rest') =
        >>=-eq-some (collect_sources sys tree dirs checkout sources d) _ rest in
      let (new, m, n, keeps) = source-Grows s start d e in
      let (new', m', n', keeps') = sources-Adds sources d c'' counts'' e' in
      subst (λ (p : Collection × List (Source × ℕ)). Adds c.manifest p.0 p.1) (some_inj rest')
        (
          new ++ new',
          m' ∙ ap (λ (x : Manifest). x ++ new') m ∙ append_assoc c.manifest new new',
          omega (arith, n, n', length-append new new'),
          λ k. keeps' (keeps k),
        )

select-without :
    (p : Text × Text → Bool) (k : Text) (m : Manifest)
    → contains k (keys m) ≡ false
    → contains k (keys (select p m)) ≡ false
select-without p k [] h = refl
select-without p k (e ∷ m) h = elim (Bool-cases (p e)) [
  | inl kept ↦ rw kept (ground (arith, select-without p k m))
  | inr dropped ↦ rw dropped (ground (arith, select-without p k m))
]

distinct-select :
    (p : Text × Text → Bool) (m : Manifest)
    → distinct (keys m) ≡ true
    → distinct (keys (select p m)) ≡ true
distinct-select p [] h = refl
distinct-select p (e ∷ m) h =
    let (new, rest) = split_and _ _ h in
    let later = distinct-select p m rest in
    elim (Bool-cases (p e)) [
      | inl kept ↦ rw kept (rw (select-without p e.0 m (false_of_not _ new)) later)
      | inr dropped ↦ rw dropped later
    ]

all_found :
    (ks disk : List Text)
    → select (λ k. not (contains k ks)) disk ≡ []
    → all (λ k. contains k ks) disk ≡ true
all_found ks [] h = refl
all_found ks (k ∷ disk) h = elim (Bool-cases (contains k ks)) [
  | inl here ↦ rw here (all_found ks disk (rw here at h))
  | inr lost ↦ absurd (cons-ne-nil (rw lost at h))
]
  where
    cons-ne-nil : {x : Text} {xs : List Text} → x ∷ xs ≡ [] → ⊥
    cons-ne-nil e = cc

abbrev outcome : CollectEnded → Option (Collection × List (Source × ℕ))
outcome raised = none
outcome (without_origin ks) = none
outcome (collected c counts) = some (c, counts)

check-collected :
    (ks : List Text) (c d : Collection) (counts counts' : List (Source × ℕ))
    → check_entries ks c counts ≡ collected d counts'
    → (ks ≡ []) × (outcome (collected c counts) ≡ outcome (collected d counts'))
check-collected [] c d counts counts' h = (refl, ap outcome h)
check-collected (k ∷ ks) c d counts counts' h = absurd (none-ne-some (ap outcome h))

end-collected :
    (sys : System) (tree : Tree) (dirs : Dirs) (checkout : Checkout)
    (o : Option (Collection × List (Source × ℕ))) (d : Collection) (counts : List (Source × ℕ))
    → end_collect sys tree dirs checkout o ≡ collected d counts
    → (o ≡ some (d, counts)) × (without_entry sys tree dirs checkout d ≡ [])
end-collected sys tree dirs checkout none d counts h = absurd (none-ne-some (ap outcome h))
end-collected sys tree dirs checkout (some (c, n)) d counts h =
    let (empty, same) = check-collected (without_entry sys tree dirs checkout c) c d n counts h in
    (
      same,
      ap (λ (p : Collection × List (Source × ℕ)). without_entry sys tree dirs checkout p.0)
            (sym (some_inj same))
          ∙ empty,
    )

-- If the manifest before the run has every name once, and the run finishes, the manifest is what is
-- carried over from the sources that were not collected, unchanged, followed by what was added; the
-- counts of the sources add up to the files added; every name stands once; and every file that is on
-- disk has an entry.
pub cmd_collect-manifest :
    (sys : System) (tree : Tree) (dirs : Dirs) (checkout : Checkout) (sources : List Source)
    (files : Files) (prior : Manifest) (c : Collection) (counts : List (Source × ℕ))
    → distinct (keys prior) ≡ true
    → cmd_collect sys tree dirs checkout sources files prior ≡ collected c counts
    → (added : Manifest) × (c.manifest ≡ carried sources prior ++ added)
      × (total counts ≡ length added)
      × (distinct (keys c.manifest) ≡ true)
      × (all (λ k. contains k (keys c.manifest)) (tree.on_disk c.files) ≡ true)
unfolding cmd_collect Adds carried
cmd_collect-manifest sys tree dirs checkout sources files prior c counts h e =
    let start : Collection = record { files = files; manifest = carried sources prior; n = 0 } in
    let (o, empty) =
      end-collected sys tree dirs checkout (collect_sources sys tree dirs checkout sources start) c
        counts e in
    let (added, m, n, keeps) = sources-Adds sys tree dirs checkout sources start c counts o in
    (
      added,
      m,
      n,
      keeps (
          distinct-select
            (λ (k : Text × Text). not (contains (first_part k.0) (map source_name sources))) prior
            h),
      all_found (keys c.manifest) (tree.on_disk c.files) empty,
    )

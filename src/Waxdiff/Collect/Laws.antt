-- ===== src/Waxdiff/Collect/Laws.antt =====
-- What a collection adds to the manifest.
use wax_mb.Base.{
  ℕ, zero, suc, ◌+◌, ◌≡◌, refl, ap, sym, ◌∙◌, arith, Text, codes, Bool, true, false, not, ◌&&◌,
  Option, none, some, some_inj, none-ne-some, List, [], ◌∷◌, ◌++◌, append_assoc, append-nil, map,
  ◌==◌, eq_iff, list_eq, nat_eq, if◌then◌else◌, ◌>>=◌, >>=-eq-some, length, length-append, contains,
  contains-append, join, Bool-cases, inl, inr, subst,
}
use wax_mb.Messages.Key.{str}
use wax_mb.Waxdiff.Process.{System, wax, to_wax}
use wax_mb.Waxdiff.Records.{Dirs}
use wax_mb.Waxdiff.Collect.Docs.{Page, blocks_of, block_name}
use wax_mb.Waxdiff.Collect.{
  Manifest, keys, Collection, Fixture, WatFile, Wast, write_corpus_file, fixture_name, collect_cram,
  collect_blocks, collect_pages, has_duplicate, collect_docs, from_wat, is_unusable, wat_name,
  collect_wat, module_name, collect_modules, split_modules, collect_wasts, limited, collect_spec,
}

-- No name stands twice.
abbrev pub distinct : List Text → Bool
distinct [] = true
distinct (k ∷ ks) = not (contains k ks) && distinct ks

-- Entries were added behind those that were there, `n` counts them, and no name came to stand twice.
unfoldable pub Grows : Collection → Collection → Type 0
Grows c c' =
    (added : Manifest) × (c'.manifest ≡ c.manifest ++ added)
    × (c'.n ≡ c.n + length added)
    × (distinct (keys c.manifest) ≡ true → distinct (keys c'.manifest) ≡ true)

pub Grows-refl : (c : Collection) → Grows c c
unfolding Grows
Grows-refl c = ([], sym (append-nil c.manifest), omega arith, λ h. h)

pub Grows-trans : (a b c : Collection) → Grows a b → Grows b c → Grows a c
unfolding Grows
Grows-trans a b c (new, e, n, keeps) (new', e', n', keeps') = (
  new ++ new',
  e' ∙ ap (λ (m : Manifest). m ++ new') e ∙ append_assoc a.manifest new new',
  omega (arith, n, n', length-append new new'),
  λ h. keeps' (keeps h),
)

keys-append : (m : Manifest) (e : Text × Text) → keys (m ++ e ∷ []) ≡ keys m ++ e.0 ∷ []
keys-append [] e = refl
keys-append (f ∷ m) e = ap (λ (ks : List Text). f.0 ∷ ks) (keys-append m e)

distinct-append :
    (ks : List Text) (k : Text)
    → contains k ks ≡ false
    → distinct ks ≡ true
    → distinct (ks ++ k ∷ []) ≡ true
distinct-append [] k h d = refl
distinct-append (j ∷ ks) k h d =
    let apart : (j == k) ≡ false = ground (arith, eq_iff k j, eq_iff j k) in
    ground (arith, apart, contains-append j ks (k ∷ []), distinct-append ks k)

module _ (sys : System) (dirs : Dirs) where
  write-Grows :
      (rel text origin : Text) (c c' : Collection)
      → write_corpus_file sys dirs rel text origin c ≡ some c'
      → Grows c c'
  unfolding write_corpus_file Grows
  write-Grows rel text origin c c' h = elim (Bool-cases (contains rel (keys c.manifest))) [
    | inl taken ↦ absurd (none-ne-some (rw taken at h))
    | inr free ↦ subst (Grows c) (some_inj (rw free at h)) (
      (rel, origin) ∷ [],
      refl,
      refl,
      λ d. rw (keys-append c.manifest (rel, origin)) (distinct-append (keys c.manifest) rel free d),
    )
  ]

  -- One file, and then the rest of a source
  write_then-Grows :
      (rel text origin : Text) (c c' : Collection) (rest : Collection → Option Collection)
      → ((d d' : Collection) → rest d ≡ some d' → Grows d d')
      → (write_corpus_file sys dirs rel text origin c >>= rest) ≡ some c'
      → Grows c c'
  write_then-Grows rel text origin c c' rest later h =
      let (d, e, e') = >>=-eq-some (write_corpus_file sys dirs rel text origin c) rest h in
      Grows-trans c d c' (write-Grows rel text origin c d e) (later d c' e')

  pub collect_cram-Grows :
      (fixtures : List Fixture) (c c' : Collection)
      → collect_cram sys dirs fixtures c ≡ some c'
      → Grows c c'
  unfolding collect_cram
  collect_cram-Grows [] c c' h = subst (Grows c) (some_inj h) (Grows-refl c)
  collect_cram-Grows (f ∷ fixtures) c c' h =
      write_then-Grows (fixture_name sys dirs f) f.text f.path c c' (collect_cram sys dirs fixtures)
        (collect_cram-Grows fixtures) h

  collect_blocks-Grows :
      (page : Page) (blocks : List (Bool × List Text)) (block : ℕ) (c c' : Collection)
      → collect_blocks sys dirs page block blocks c ≡ some c'
      → Grows c c'
  unfolding collect_blocks
  collect_blocks-Grows page [] block c c' h = subst (Grows c) (some_inj h) (Grows-refl c)
  collect_blocks-Grows page ((checked, body) ∷ blocks) block c c' h =
      write_then-Grows (block_name page.stem block checked) (join (codes "\n") body ++ codes "\n")
        (page.path ++ codes " block " ++ str block) c c'
        (collect_blocks sys dirs page (block + 1) blocks)
        (collect_blocks-Grows page blocks (block + 1)) h

  collect_pages-Grows :
      (pages : List Page) (c c' : Collection)
      → collect_pages sys dirs pages c ≡ some c'
      → Grows c c'
  unfolding collect_pages
  collect_pages-Grows [] c c' h = subst (Grows c) (some_inj h) (Grows-refl c)
  collect_pages-Grows (page ∷ pages) c c' h =
      let (d, e, e') =
        >>=-eq-some (collect_blocks sys dirs page 0 (blocks_of page.lines) c)
          (collect_pages sys dirs pages) h in
      Grows-trans c d c' (collect_blocks-Grows page (blocks_of page.lines) 0 c d e)
        (collect_pages-Grows pages d c' e')

  pub collect_docs-Grows :
      (pages : List Page) (c c' : Collection) → collect_docs sys dirs pages c ≡ some c' → Grows c c'
  unfolding collect_docs
  collect_docs-Grows pages c c' h =
      elim (Bool-cases (has_duplicate (map (λ (p : Page). p.stem) pages))) [
        | inl twice ↦ absurd (none-ne-some (rw twice at h))
        | inr once ↦ collect_pages-Grows pages c c' (rw once at h)
      ]

  pub collect_wat-Grows :
      (wats : List WatFile) (c c' : Collection) → collect_wat sys dirs wats c ≡ some c' → Grows c c'
  unfolding collect_wat
  collect_wat-Grows [] c c' h = subst (Grows c) (some_inj h) (Grows-refl c)
  collect_wat-Grows (w ∷ wats) c c' h =
      elim (Bool-cases (is_unusable (wax sys c.files (from_wat w.file)))) [
        | inl skipped ↦ collect_wat-Grows wats c c' (rw (skipped, collect_wat) at h)
        | inr used ↦
            let (text, e, rest) =
              >>=-eq-some (sys.decode_strict (wax sys c.files (from_wat w.file)).out) _
                (rw (used, collect_wat) at h) in
            write_then-Grows (wat_name sys dirs w) text (w.path ++ codes " (wat->wax)") c c'
              (collect_wat sys dirs wats) (collect_wat-Grows wats) rest
      ]

  pub collect_modules-Grows :
      (w : Wast) (left : ℕ) (modules : List (Text × Text × Text)) (c c' : Collection)
      → collect_modules sys dirs w left modules c ≡ some c'
      → Grows c c'
  unfolding collect_modules
  collect_modules-Grows w left [] c c' h = subst (Grows c) (some_inj h) (Grows-refl c)
  collect_modules-Grows w zero (m ∷ modules) c c' h = subst (Grows c) (some_inj h) (Grows-refl c)
  collect_modules-Grows w (suc left) ((file, name, stem) ∷ modules) c c' h =
      elim (Bool-cases (is_unusable (wax sys c.files (to_wax file)))) [
        | inl skipped ↦
            collect_modules-Grows w (suc left) modules c c' (rw (skipped, collect_modules) at h)
        | inr used ↦
            let (text, e, rest) =
              >>=-eq-some (sys.decode_strict (wax sys c.files (to_wax file)).out) _
                (rw (used, collect_modules) at h) in
            write_then-Grows (module_name sys dirs w.from_test stem) text
              (w.path ++ codes " -> " ++ name ++ codes " (wasm->wax)") c c'
              (collect_modules sys dirs w left modules) (collect_modules-Grows w left modules) rest
      ]

  pub collect_wasts-Grows :
      (per_wast : ℕ) (wasts : List Wast) (c c' : Collection)
      → collect_wasts sys dirs per_wast wasts c ≡ some c'
      → Grows c c'
  unfolding collect_wasts
  collect_wasts-Grows per_wast [] c c' h = subst (Grows c) (some_inj h) (Grows-refl c)
  collect_wasts-Grows per_wast (w ∷ wasts) c c' h =
      let (d, e, e') =
        >>=-eq-some (split_modules sys dirs w per_wast w.modules c)
          (collect_wasts sys dirs per_wast wasts) h in
      Grows-trans c d c' (split-Grows w w.modules c d e)
        (collect_wasts-Grows per_wast wasts d c' e')
    where
      split-Grows :
          (w : Wast) (modules : Option (List (Text × Text × Text))) (c d : Collection)
          → split_modules sys dirs w per_wast modules c ≡ some d
          → Grows c d
      split-Grows w none c d e = subst (Grows c) (some_inj e) (Grows-refl c)
      split-Grows w (some modules) c d e = collect_modules-Grows w per_wast modules c d e

  pub collect_spec-Grows :
      (limit per_wast : ℕ) (wasts : List Wast) (c c' : Collection)
      → collect_spec sys dirs limit per_wast wasts c ≡ some c'
      → Grows c c'
  unfolding collect_spec
  collect_spec-Grows limit per_wast wasts c c' h =
      let rest = collect_wasts sys dirs per_wast (limited sys dirs limit wasts) c in
      elim (Bool-cases sys.has_wasm_tools) [
        | inl there ↦
            collect_wasts-Grows per_wast (limited sys dirs limit wasts) c c'
              (sym (ap (λ b. if b then rest else some c) there) ∙ h)
        | inr missing ↦
            subst (Grows c) (some_inj (sym (ap (λ b. if b then rest else some c) missing) ∙ h))
              (Grows-refl c)
      ]

-- ===== src/Waxdiff/Collect/Adopt.antt =====
-- `cmd_adopt`: a fuzz find becomes a file of the corpus.
use wax_mb.Base.{
  ℕ, ◌≡◌, refl, ap, Text, codes, Bool, true, false, not, ◌&&◌, Option, none, some, some_inj,
  none-ne-some, [], ◌∷◌, ◌++◌, ◌==◌, list_eq, nat_eq, eq_self, if◌then◌else◌, length, select,
  starts_with, Bool-cases, inl, inr, subst,
}
use wax_mb.Base.{text_before}
use wax_mb.Waxdiff.Process.{Files, write, exists, System}
use wax_mb.Waxdiff.Records.{Dirs}
use wax_mb.Waxdiff.Report.{corpus_path}
use wax_mb.Waxdiff.Collect.{Manifest}

-- `manifest["files"][rel] = ...`
pub set_origin : Text → Text → Manifest → Manifest
set_origin rel origin [] = (rel, origin) ∷ []
set_origin rel origin ((k, o) ∷ m) =
    let rest = set_origin rel origin m in if k == rel then (k, origin) ∷ m else (k, o) ∷ rest

-- `dict(sorted(manifest["files"].items()))`
pub insert_entry : Text × Text → Manifest → Manifest
insert_entry e [] = e ∷ []
insert_entry e (f ∷ m) =
    let rest = insert_entry e m in if text_before e.0 f.0 then e ∷ f ∷ m else f ∷ rest

pub sorted_entries : Manifest → Manifest
unfolding insert_entry
sorted_entries [] = []
sorted_entries (e ∷ m) = insert_entry e (sorted_entries m)

-- `manifest["counts"]["fuzz"]`
abbrev pub fuzz_count : Manifest → ℕ
fuzz_count m = length (select (λ (e : Text × Text). starts_with e.0 (codes "fuzz/")) m)

-- `args.name or src.stem`, and `args.origin or ...`
abbrev pub or_text : Text → Text → Text
or_text [] other = other
or_text (c ∷ s) other = c ∷ s

abbrev pub adopted_name : Text → Text → Text
adopted_name name stem = codes "fuzz/" ++ or_text name stem ++ codes ".wax"

pub data Adopted : Type 0 where
  no_such_file : Text → Adopted
  already_there : Text → Adopted
  not_utf8 : Text → Adopted
  adopted : Files → Manifest → ℕ → Adopted

-- What the arguments of the command say: the file, its name and its stem, and the options, which are
-- empty where they are not given.
pub record Adoption : Type 0 where
  pub file : Text
  pub file_name : Text
  pub stem : Text
  pub name : Text
  pub origin : Text
  pub force : Bool

exists-write : (files : Files) (p b : Text) → exists (write files p b) p ≡ true
exists-write files p b =
    ap (λ (same : Bool). exists (λ q. if same then some b else files q) p) (eq_self p)

module _ (sys : System) (dirs : Dirs) where
  -- `none` is a text that `read_text` does not decode.
  abbrev pub adopt_text : Adoption → Text → Option Text → Files → Manifest → Adopted
  adopt_text a rel none files manifest = not_utf8 a.file
  adopt_text a rel (some text) files manifest =
      let entries =
        sorted_entries
          (set_origin rel (or_text a.origin (codes "fuzz find, from " ++ a.file_name)) manifest) in
      adopted (write files (corpus_path dirs rel) (sys.encode text)) entries (fuzz_count entries)

  abbrev pub adopt_as : Adoption → Text → Option Text → Files → Manifest → Adopted
  adopt_as a rel none files manifest = no_such_file a.file
  adopt_as a rel (some text) files manifest =
      if exists files (corpus_path dirs rel) && not a.force
      then already_there rel
      else adopt_text a rel (sys.decode_strict text) files manifest

  unfoldable pub cmd_adopt : Adoption → Files → Manifest → Adopted
  unfolding sorted_entries set_origin
  cmd_adopt a files manifest = adopt_as a (adopted_name a.name a.stem) (files a.file) files manifest

  abbrev files_of : Adopted → Option Files
  files_of (no_such_file file) = none
  files_of (already_there rel) = none
  files_of (not_utf8 file) = none
  files_of (adopted files manifest n) = some files

  adopted_text-exists :
      (a : Adoption) (rel : Text) (text : Option Text) (files files' : Files) (manifest : Manifest)
      → files_of (adopt_text a rel text files manifest) ≡ some files'
      → exists files' (corpus_path dirs rel) ≡ true
  adopted_text-exists a rel none files files' manifest h = absurd (none-ne-some h)
  adopted_text-exists a rel (some text) files files' manifest h =
      subst (λ (fs : Files). exists fs (corpus_path dirs rel) ≡ true) (some_inj h)
        (exists-write files (corpus_path dirs rel) (sys.encode text))

  adopted-exists :
      (a : Adoption) (rel : Text) (text : Option Text) (files files' : Files) (manifest : Manifest)
      → files_of (adopt_as a rel text files manifest) ≡ some files'
      → exists files' (corpus_path dirs rel) ≡ true
  adopted-exists a rel none files files' manifest h = absurd (none-ne-some h)
  adopted-exists a rel (some text) files files' manifest h =
      elim (Bool-cases (exists files (corpus_path dirs rel) && not a.force)) [
        | inl there ↦ absurd (none-ne-some (rw there at h))
        | inr free ↦
            adopted_text-exists a rel (sys.decode_strict text) files files' manifest (rw free at h)
      ]

  -- Once a find is adopted, adopting another file under the same name is refused unless it is forced:
  -- no file of the corpus is replaced unnoticed.
  pub cmd_adopt-twice :
      (a b : Adoption) (files files' : Files) (manifest manifest' : Manifest) (n : ℕ) (text : Text)
      → cmd_adopt a files manifest ≡ adopted files' manifest' n
      → adopted_name b.name b.stem ≡ adopted_name a.name a.stem
      → files' b.file ≡ some text
      → b.force ≡ false
      → cmd_adopt b files' manifest' ≡ already_there (adopted_name a.name a.stem)
  unfolding cmd_adopt
  cmd_adopt-twice a b files files' manifest manifest' n text h same there unforced =
      let rel = adopted_name a.name a.stem in
      let kept : exists files' (corpus_path dirs rel) ≡ true =
        adopted-exists a rel (files a.file) files files' manifest (ap files_of h) in
      rw (there, same, kept, unforced) refl

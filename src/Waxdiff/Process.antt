-- ===== src/Waxdiff/Process.antt =====
-- Running a child process (`Run`, `_capped`, `run`, `wax`, `impl_run`), and what the harness reads
-- and asks of the system round it.
use wax_mb.Base.{
  ℤ, Text, codes, Bool, Option, none, some, List, [], ◌∷◌, ◌++◌, ◌==◌, list_eq, nat_eq,
  if◌then◌else◌, negsuc, ◌≡◌, refl,
}

pub record Run : Type 0 where
  pub code : ℤ
  pub out : Text
  pub err : Text

-- The files that a process can read, by path.
abbrev pub Files : Type 0
Files = Text → Option Text

abbrev pub write : Files → Text → Text → Files
write files p b q = if q == p then some b else files q

abbrev pub exists : Files → Text → Bool
exists files p = elim (files p) [ none ↦ Bool.false | some _ ↦ Bool.true ]

-- What stands outside the harness. `exec` is a child process: what it reads are the files, its
-- arguments and its standard input, and `none` is a run that took longer than the timeout.
-- `writes` is what a process leaves in the file after its `-o`.
pub record System : Type 0 where
  pub exec : Files → List Text → Option Text → Option Run
  pub writes : Files → List Text → Text
  pub has_systemd_run : Bool
  pub has_wasm_tools : Bool
  pub mem_cap : Text
  -- the path of tools/wax-ref, and a fresh path for a temporary file
  pub reference : Text
  pub temporary : Text
  pub sha256 : Text → Text
  -- `b.decode("utf-8", "replace")` and `s.encode("utf-8")`
  pub decode : Text → Text
  pub encode : Text → Text
  -- `b.decode("utf-8")`; `none` is the UnicodeDecodeError.
  pub decode_strict : Text → Option Text

module _ (sys : System) where
  pub capped : List Text → List Text
  capped argv =
      if sys.has_systemd_run
      then codes "systemd-run"
        ∷ codes "--user"
        ∷ codes "--scope"
        ∷ codes "-q"
        ∷ codes "-p"
        ∷ (codes "MemoryMax=" ++ sys.mem_cap)
        ∷ codes "-p"
        ∷ codes "MemorySwapMax=0"
        ∷ argv
      else argv

  abbrev pub timed_out : Run
  timed_out = record { code = negsuc 0; out = []; err = codes "waxdiff: timed out\n" }

  pub run : Files → Bool → Option Text → List Text → Run
  unfolding capped
  run files cap stdin argv = elim (sys.exec files (if cap then capped argv else argv) stdin) [
    | some r ↦ r
    | none ↦ timed_out
  ]

  unfoldable pub wax : Files → List Text → Run
  unfolding run
  wax files args = run files Bool.true none (sys.reference ∷ args)

  unfoldable pub impl_run : Files → List Text → List Text → Run
  unfolding run
  impl_run files impl args = run files Bool.true none (impl ++ args)

-- With the reference as the implementation, `impl_run` is `wax`.
pub impl_run-reference :
    (sys : System) (files : Files) (args : List Text)
    → impl_run sys files (sys.reference ∷ []) args ≡ wax sys files args
unfolding impl_run wax
impl_run-reference sys files args = refl

-- The command lines that the oracles use.
abbrev pub to_wax : Text → List Text
to_wax path = path ∷ codes "-f" ∷ codes "wax" ∷ []

abbrev pub to_wat : Text → List Text
to_wat path = path ∷ codes "-f" ∷ codes "wat" ∷ []

abbrev pub to_wasm : Text → List Text
to_wasm path = path ∷ codes "-f" ∷ codes "wasm" ∷ codes "-o" ∷ codes "-" ∷ []

abbrev pub check_json : Text → List Text
check_json path = codes "check" ∷ codes "--error-format" ∷ codes "json" ∷ path ∷ []

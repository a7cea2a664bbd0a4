-- ===== src/Stdlib.antt =====
-- `tools/gen-stdlib-test.py`: the ported standard library, embedded in a test of the wap module.
pub mod Literals
pub mod Examples
use mathlib.Core.List.{reverse}
use wax_mb.Base.{
  ℕ, Text, codes, Bool, true, false, Option, none, some, List, [], ◌∷◌, ◌++◌, map, ◌==◌, list_eq,
  nat_eq, if◌then◌else◌, join, split_char, ◌≡◌, refl,
}

-- A file of stdlib-wap, without its suffix: the parts of its path, and its text
pub record Source : Type 0 where
  pub parts : List Text
  pub text : Text

abbrev pub module_path : Source → Text
module_path s = join (codes ".") s.parts

-- `path.replace(".", "_") + "_wap"`
abbrev pub underscored : Text → Text
underscored [] = []
underscored (c ∷ s) = let rest = underscored s in if c == b'.' then b'_' ∷ rest else c ∷ rest

abbrev pub ident : Text → Text
ident path = underscored path ++ codes "_wap"

-- `if body and body[-1] == "": body.pop()`
abbrev pub pop_empty : List Text → List Text
pop_empty [] = []
pop_empty ([] ∷ []) = []
pop_empty ((c ∷ s) ∷ []) = (c ∷ s) ∷ []
pop_empty (s ∷ t ∷ body) = s ∷ pop_empty (t ∷ body)

abbrev pub body_lines : Text → List Text
body_lines text = pop_empty (split_char b'\n' text)

abbrev pub literal_line : Text → Text
literal_line line = codes "  #|" ++ line

unfoldable pub literal : Text → Text → Text
literal name text = join (codes "\n") (
    codes "///|"
    ∷ (codes "let " ++ name ++ codes " : String =")
    ∷ map literal_line (body_lines text))

-- ASSERTIONS: the modules, and for each the expressions with their notes, empty for None
abbrev pub assertions : List (Text × List (Text × Text))
assertions =
    (
      codes "collections.hashing",
      (
        codes "w.contains(\"$hashing__mix_i32\")",
        codes "The module supplies the prefix the .wax file writes by hand.",
      )
          ∷ (
            codes "w.contains(\"i32.shr_u\")",
            codes "`u32` chose the logical shift with no `>>u` in the source.",
          )
          ∷ (codes "w.contains(\"i32.rotl\")", codes "")
          ∷ (codes "w.contains(\"array.get_u\")", codes "")
          ∷ [],
    )
    ∷ (
      codes "collections.persistent_vector",
      (codes "w.contains(\"$persistent_vector__push\")", codes "")
          ∷ (
            codes "w.contains(\"\\\"pv_empty\\\"\")",
            codes "The wasm export name is an ABI and is left alone.",
          )
          ∷ [],
    )
    ∷ (
      codes "collections.persistent_hash_map",
      (codes "w.contains(\"$persistent_hash_map__node_assoc\")", codes "")
          ∷ (codes "w.contains(\"i32.popcnt\")", codes "")
          ∷ (
            codes "!w.contains(\"ref.cast (ref $persistent_hash_map__visit)\")",
            codes "A callback reaches `each` without a cast; see the rec-group tests.",
          )
          ∷ [],
    )
    ∷ (
      codes "collections.persistent_hash_set",
      (
        codes "w.contains(\"$persistent_hash_set__union\")",
        codes "The set reaches the map by name rather than by concatenation.",
      )
          ∷ (codes "w.contains(\"$persistent_hash_map__assoc\")", codes "")
          ∷ [],
    )
    ∷ (
      codes "collections.example",
      (codes "w.contains(\"\\\"collections_example\\\"\")", codes "") ∷ [],
    )
    ∷ (
      codes "text.utf8",
      (codes "w.contains(\"$utf8__validate\")", codes "")
          ∷ (
            codes "w.contains(\"$hashing__bytes_value\")",
            codes "The hash is the one from `collections.hashing`, not a copy of it.",
          )
          ∷ [],
    )
    ∷ (
      codes "data.immutable_value",
      (
        codes "w.contains(\"$jv__equal\")",
        codes "The module is called `jv`, not the file it lives in.",
      )
          ∷ (
            codes "w.contains(\"$jv__record_equal\")",
            codes "The three functions that close the loop with `data/record` live here.",
          )
          ∷ (codes "w.contains(\"$persistent_hash_map__assoc\")", codes "")
          ∷ [],
    )
    ∷ (codes "data.record", (codes "w.contains(\"$record__type_create\")", codes "") ∷ [])
    ∷ (
      codes "data.example",
      (codes "w.contains(\"\\\"immutable_data_example\\\"\")", codes "") ∷ [],
    )
    ∷ []

abbrev pub asserted : Text → List (Text × List (Text × Text)) → List (Text × Text)
asserted path [] = []
asserted path ((p, claims) ∷ rest) =
    let later = asserted path rest in if p == path then claims else later

abbrev pub claim_lines : List (Text × Text) → List Text
claim_lines [] = []
claim_lines ((expr, []) ∷ claims) =
    (codes "  assert_true(" ++ expr ++ codes ")") ∷ claim_lines claims
claim_lines ((expr, c ∷ note) ∷ claims) =
    (codes "  // " ++ c ∷ note) ∷ (codes "  assert_true(" ++ expr ++ codes ")") ∷ claim_lines claims

-- The test of a module
unfoldable pub test_lines : Source → List Text
test_lines s =
    let path = module_path s in
    codes "///|"
    ∷ (codes "test \"the " ++ path ++ codes " stdlib module, ported to wap, compiles\" {")
    ∷ (codes "  let w = stdlib_wat(\"" ++ path ++ codes "\", " ++ ident path ++ codes ")")
    ∷ codes "  if w.contains(\"FAILED\") {"
    ∷ codes "    println(w)"
    ∷ (codes "    fail(\"" ++ path ++ codes " did not compile\")")
    ∷ codes "  }"
    ∷ (claim_lines (asserted path assertions) ++ codes "}" ∷ [] ∷ [])

abbrev pub preamble : List Text
preamble = map codes (
    "// Generated by tools/gen-stdlib-test.py from stdlib-wap/. DO NOT EDIT." ∷ "//"
    ∷ "// The ported Wax standard library, compiled as the wap module's own"
    ∷ "// regression suite. `just wap-stdlib` compiles the same sources from disk"
    ∷ "// through a filesystem loader; this is the copy that runs where there is no"
    ∷ "// filesystem, which is every backend but native." ∷ "" ∷ [])

abbrev pub loader_start : List Text
loader_start = map codes (
    "///|" ∷ "/// Every ported module, under the path its importers name it by."
    ∷ "fn stdlib_loader() -> @resolve.MapLoader {" ∷ "  @resolve.MapLoader::new(entries=[" ∷ [])

abbrev pub loader_end : List Text
loader_end = map codes (
    "  ])" ∷ "}" ∷ "" ∷ "///|" ∷ "/// Compile one module, and everything it imports, to wat."
    ∷ "fn stdlib_wat(path : String, src : String) -> String raise @compile.CompileError {"
    ∷ "  match @wap.compile_program_to_wat(path, src, stdlib_loader()) {" ∷ "    Ok(w) => w"
    ∷ "    Err(d) => {" ∷ "      let sb = StringBuilder()" ∷ "      for r in d.wap {"
    ∷ "        sb.write_string(\"wap: \" + r.message + \"\\n\")" ∷ "      }"
    ∷ "      let sink = @diagnostic.buffer_sink(sb)"
    ∷ "      let theme = @diagnostic.get_theme(is_tty=false)" ∷ "      for r in d.wax {"
    ∷ "        @diagnostic.output_error(sink, theme, Human, Some(src), r)" ∷ "      }"
    ∷ "      \"FAILED\\n\" + sb.to_string()" ∷ "    }" ∷ "  }" ∷ "}" ∷ "" ∷ [])

abbrev pub literals : List Source → List Text
literals [] = []
literals (s ∷ sources) = literal (ident (module_path s)) s.text ∷ [] ∷ literals sources

abbrev pub loader_entry : Source → Text
loader_entry s = codes "(\"" ++ module_path s ++ codes "\", " ++ ident (module_path s) ++ codes ")"

abbrev pub tests : List Source → List Text
tests [] = []
tests (s ∷ sources) = test_lines s ++ tests sources

abbrev pub file_parts : List Source → List Text
file_parts sources =
    preamble
    ++ literals sources
    ++ loader_start
    ++ (codes "    " ++ join (codes ",\n    ") (map loader_entry sources) ++ codes ",")
      ∷ (loader_end ++ tests sources)

-- `s.rstrip("\n")`
abbrev pub drop_newlines : Text → Text
drop_newlines [] = []
drop_newlines (c ∷ s) = let rest = drop_newlines s in if c == b'\n' then rest else c ∷ s

-- The text of wap/stdlib_test.mbt; `none` is the exit without sources.
unfoldable pub main : List Source → Option Text
unfolding literal test_lines
main [] = none
main (s ∷ sources) =
    some (
      reverse (drop_newlines (reverse (join (codes "\n") (file_parts (s ∷ sources)))))
      ++ codes "\n")

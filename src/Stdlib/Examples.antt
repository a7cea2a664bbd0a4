-- ===== src/Stdlib/Examples.antt =====
-- The literals of the standard library, and a whole file of one small module.
use wax_mb.Base.{◌≡◌, refl, codes, some, [], ◌∷◌}
use wax_mb.Stdlib.{literal, test_lines}
use wax_mb.Stdlib.Literals.{literal_value, literal-value}

literal-value_example :
    literal_value (literal (codes "text_utf8_wap") (codes "fn f {\n\n}\n"))
    ≡ some (codes "fn f {\n\n}")
literal-value_example = literal-value (codes "text_utf8_wap") (codes "fn f {\n\n}\n") refl

short_literal :
    literal (codes "a_wap") (codes "x\ny") ≡ codes "///|\nlet a_wap : String =\n  #|x\n  #|y"
unfolding literal
short_literal = refl

utf8_test :
    test_lines (record { parts = codes "text" ∷ codes "utf8" ∷ []; text = [] })
    ≡ codes "///|"
      ∷ codes "test \"the text.utf8 stdlib module, ported to wap, compiles\" {"
      ∷ codes "  let w = stdlib_wat(\"text.utf8\", text_utf8_wap)"
      ∷ codes "  if w.contains(\"FAILED\") {"
      ∷ codes "    println(w)"
      ∷ codes "    fail(\"text.utf8 did not compile\")"
      ∷ codes "  }"
      ∷ codes "  assert_true(w.contains(\"$utf8__validate\"))"
      ∷ codes "  // The hash is the one from `collections.hashing`, not a copy of it."
      ∷ codes "  assert_true(w.contains(\"$hashing__bytes_value\"))"
      ∷ codes "}"
      ∷ []
      ∷ []
unfolding test_lines
utf8_test = refl

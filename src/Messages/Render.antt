-- ===== src/Messages/Render.antt =====
-- `lexeme` and `render`: a token sentence of the golden written out as source.
use wax_mb.Base.{
  ◌+◌, Text, codes, ◌&&◌, Option, none, some, List, [], ◌∷◌, ◌++◌, map, ◌==◌, ◌≡◌, refl, list_eq,
  nat_eq, if◌then◌else◌, join, leb,
}

-- A dict from token names to spellings: ALIAS, which `aliases` reads from the grammar, and
-- VALUE_LEXEME.
abbrev pub Spellings : Type 0
Spellings = List (Text × Text)

unfoldable pub spelling : Spellings → Text → Option Text
spelling [] t = none
spelling ((k, s) ∷ rest) t = if k == t then some s else spelling rest t

abbrev pub value_lexeme : Spellings
value_lexeme =
    (codes "IDENT", codes "x")
    ∷ (codes "INT", codes "1")
    ∷ (codes "FLOAT", codes "1.0")
    ∷ (codes "STRING", codes "\"s\"")
    ∷ (codes "CHAR", codes "'c'")
    ∷ (codes "EOF", [])
    ∷ (codes "INF", codes "inf")
    ∷ (codes "NAN", codes "nan")
    ∷ []

-- `t.lower()`, of ASCII
unfoldable pub lower : Text → Text
lower t = map (λ c. if leb 65 c && leb c 90 then c + 32 else c) t

unfoldable pub lexeme : Spellings → Text → Text
unfolding spelling lower
lexeme alias t = elim (spelling alias t) [
  | some s ↦ s
  | none ↦ elim (spelling value_lexeme t) [ some s ↦ s | none ↦ lower t ]
]

-- One more lexeme: after a quote it is a label, and is joined to the quote.
pub attach : List Text → Text → List Text
attach [] lx = lx ∷ []
attach (p ∷ []) lx = if p == codes "'" then (codes "'" ++ lx) ∷ [] else p ∷ lx ∷ []
attach (p ∷ q ∷ parts) lx = p ∷ attach (q ∷ parts) lx

pub render_parts : Spellings → List Text → List Text → List Text
render_parts alias [] parts = parts
render_parts alias (t ∷ sentence) parts =
    render_parts alias sentence
      (elim (lexeme alias t) [ [] ↦ parts | c ∷ lx ↦ attach parts (c ∷ lx) ])

unfoldable pub render : Spellings → List Text → Text
unfolding render_parts lexeme spelling lower attach
render alias sentence = join (codes " ") (render_parts alias sentence [])

render_label :
    render
      ((codes "QUOTE", codes "'") ∷ [])
      (codes "QUOTE" ∷ codes "IDENT" ∷ codes "LOOP" ∷ codes "EOF" ∷ [])
    ≡ codes "'x loop"
unfolding render
render_label = refl

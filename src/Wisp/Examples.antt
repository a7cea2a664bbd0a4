-- ===== src/Wisp/Examples.antt =====
-- The embedding of small sources.
use wax_mb.Wisp.Laws.{words_of, gaps_of, relabelled, inline_const-words}
use wax_mb.Base.{
  split_char, join, map, contains, ◌&&◌, ◌==◌, list_eq, nat_eq, ◌≡◌, refl, codes, Text, List, Bool,
  none, [],
}
use wax_mb.Waxdiff.Fuzz.Tokens.{span}
use wax_mb.Wisp.Kept.{IsName, IsKept}
use wax_mb.Wisp.{
  const_of, consts_of, drop_const, replace_word, inline_const, inline_consts, export_length,
  strip_exports, before_marker, vector_source, map_source, embed_runtime, stale,
}

abbrev vector : Text
vector = codes "const mask = 31\nexport \"get\" fn get(mask_of) = x & mask;\npub type transient = y"

mask-IsName : IsName (codes "mask")
mask-IsName = (refl, λ h. cc)

inlined : vector_source vector ≡ codes "fn get(mask_of) = x & 31;\n"
unfolding vector_source const_of consts_of drop_const replace_word inline_const inline_consts
    export_length strip_exports before_marker span
inlined = refl

kept : map_source vector ≡ codes "const mask = 31\nfn get(mask_of) = x & mask;\n"
unfolding map_source export_length strip_exports before_marker span
kept = refl

absent : embed_runtime Bool.true none [] [] [] ≡ stale
unfolding embed_runtime
absent = refl

inline_const-words_example :
    (lines : List Text) × IsKept (codes "mask") (split_char b'\n' vector) lines
    × (let kept = join (codes "\n") lines in
        let inlined_vector = inline_const (codes "mask", codes "31") vector in
        (words_of inlined_vector ≡ map (relabelled (codes "mask") (codes "31")) (words_of kept))
        × (gaps_of inlined_vector ≡ gaps_of kept)
        × (contains (codes "mask") (words_of inlined_vector)
            ≡ (contains (codes "mask") (words_of kept) && codes "mask" == codes "31")))
inline_const-words_example = inline_const-words (codes "mask") (codes "31") vector mask-IsName refl

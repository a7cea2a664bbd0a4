-- ===== src/Waxdiff/Cram/Grammar.antt =====
-- The command lines that the port implements, as a grammar of its own: what `_cram_reason` is
-- compared with.
pub mod Scanned
use wax_mb.Base.{
  ℕ, Text, codes, Bool, true, false, not, ◌&&◌, ◌||◌, Option, none, some, List, [], ◌∷◌, ◌≡◌, ◌≢◌,
  ◌↔◌, refl, sym, ◌∙◌, ap, subst, ◌==◌, eq_iff, list_eq, nat_eq, if◌then◌else◌, contains, all,
  has_char, ends_with, Bool-cases, inl, inr, arith,
}
use wax_mb.Waxdiff.Cram.{
  Reason, writes, reads, flag, subcommand, Scan, refused, scanned, is_positional, bad_format,
  or_refuse, keep_word, scan_flag, scan, partition_eq, cram_ok_flags, valued_flags,
  out_format_flags, in_format_flags, cram_ok_out_formats, cram_ok_in_formats, cram_ok_commands,
  names_command, file_reason, positionals_reason, words_reason, cram_opaque,
}

-- A flag for the format of the output, or of the input, has a value that the port implements.
abbrev pub format_ok : Text → Text → Bool
format_ok name val =
    (not (contains name out_format_flags) || contains val cram_ok_out_formats)
    && (not (contains name in_format_flags) || contains val cram_ok_in_formats)

abbrev pub is_switch : Text → Bool
is_switch name = contains name cram_ok_flags && not (contains name valued_flags)

abbrev pub is_option : Text → Text → Bool
is_option name val = contains name cram_ok_flags && contains name valued_flags && format_ok name val

-- The words are implemented flags, each with its value if it takes one, and the positionals that are
-- listed. A flag that takes a value and stands last has an empty one.
pub data Accepts : List Text → List Text → Type 0 where
  stop : Accepts [] []
  positional :
      {w : Text} {ws ps : List Text}
      → is_positional w ≡ true
      → Accepts ws ps
      → Accepts (w ∷ ws) (w ∷ ps)
  switch :
      {w : Text} {ws ps : List Text}
      → is_positional w ≡ false
      → is_switch (partition_eq w).0 ≡ true
      → Accepts ws ps
      → Accepts (w ∷ ws) ps
  inline :
      {w val : Text} {ws ps : List Text}
      → is_positional w ≡ false
      → (partition_eq w).1 ≡ some val
      → is_option (partition_eq w).0 val ≡ true
      → Accepts ws ps
      → Accepts (w ∷ ws) ps
  spaced :
      {w val : Text} {ws ps : List Text}
      → is_positional w ≡ false
      → (partition_eq w).1 ≡ none
      → is_option (partition_eq w).0 val ≡ true
      → Accepts ws ps
      → Accepts (w ∷ val ∷ ws) ps
  last :
      {w : Text}
      → is_positional w ≡ false
      → (partition_eq w).1 ≡ none
      → is_option (partition_eq w).0 [] ≡ true
      → Accepts (w ∷ []) []

-- A file is named without an extension, or is a wax file.
abbrev pub is_wax_file : Text → Bool
is_wax_file w = not (has_char b'.' w) || ends_with w (codes ".wax")

abbrev pub has_command : List Text → Bool
has_command [] = false
has_command (w ∷ ws) = names_command w

-- The words of a segment, behind its assignments, that the port can run: no interpreter, and if
-- wax is run, implemented flags with implemented formats, an implemented subcommand if there is
-- one, and no file but wax files.
pub data InScope : List Text → Type 0 where
  blank : InScope []
  other :
      {w : Text} {args : List Text}
      → contains w cram_opaque ≡ false
      → (w == codes "wax") ≡ false
      → InScope (w ∷ args)
  plain :
      {w : Text} {args ps : List Text}
      → w ≡ codes "wax"
      → Accepts args ps
      → has_command ps ≡ false
      → all is_wax_file ps ≡ true
      → InScope (w ∷ args)
  command :
      {w c : Text} {args ps : List Text}
      → w ≡ codes "wax"
      → Accepts args (c ∷ ps)
      → names_command c ≡ true
      → contains c cram_ok_commands ≡ true
      → all is_wax_file ps ≡ true
      → InScope (w ∷ args)

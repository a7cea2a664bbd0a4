-- ===== src/Waxdiff/Cram/Laws.antt =====
-- Which commands and tests `classify-cram` takes, in terms of the grammar.
use mathlib.Core.List.{Memᴰ}
use mathlib.Core.List.Memᴰ.{head, tail}
use wax_mb.Base.{
  Text, codes, Bool, true, false, not, ◌&&◌, ◌||◌, Option, none, some, none-ne-some, List, [], ◌∷◌,
  ◌≡◌, ◌↔◌, refl, sym, ◌==◌, eq_iff, list_eq, nat_eq, if◌then◌else◌, contains, all, has_char,
  ends_with, Bool-cases, inl, inr, arith, split,
}
use wax_mb.Waxdiff.Cram.{
  Reason, Scan, refused, scanned, scan, scan_reason, cram_opaque, cram_ok_commands, names_command,
  file_reason, positionals_reason, words_reason, drop_assignments,
}
use wax_mb.Waxdiff.Cram.Scope.{
  opaque_reason, first_reason, segments, segment_reason, segments_reason, first_line, cram_reason,
}
use wax_mb.Waxdiff.Cram.Grammar.{
  Accepts, is_wax_file, has_command, InScope, blank, other, plain, command,
}
use wax_mb.Waxdiff.Cram.Grammar.Scanned.{scan-Accepts, Accepts-scan}

file_reason-none : (ws : List Text) → (file_reason ws ≡ none) ↔ (all is_wax_file ws ≡ true)
unfolding file_reason
file_reason-none [] = (λ h. refl, λ h. refl)
file_reason-none (w ∷ ws) =
    file_round (has_char b'.' w) (ends_with w (codes ".wax")) _ (file_reason ws)
      (all is_wax_file ws) (file_reason-none ws)
  where
    file_round :
        (point wax : Bool) (r : Reason) (rest : Option Reason) (others : Bool)
        → (rest ≡ none) ↔ (others ≡ true)
        → ((if point && not wax then some r else rest) ≡ none)
          ↔ (((not point || wax) && others) ≡ true)
    file_round point wax r rest others h = ground arith

-- What no reason against the positionals means.
pub data PassedFiles : List Text → Type 0 where
  only_files :
      {ps : List Text} → has_command ps ≡ false → all is_wax_file ps ≡ true → PassedFiles ps
  with_command :
      {c : Text} {ps : List Text}
      → names_command c ≡ true
      → contains c cram_ok_commands ≡ true
      → all is_wax_file ps ≡ true
      → PassedFiles (c ∷ ps)

positionals_reason-PassedFiles : (ps : List Text) → positionals_reason ps ≡ none → PassedFiles ps
unfolding positionals_reason
positionals_reason-PassedFiles [] h = only_files refl refl
positionals_reason-PassedFiles (w ∷ ws) h = elim (Bool-cases (names_command w)) [
  | inr file ↦ only_files file ((file_reason-none (w ∷ ws)).0 (rw file at h))
  | inl named ↦ elim (Bool-cases (contains w cram_ok_commands)) [
    | inl known ↦ with_command named known ((file_reason-none ws).0 (rw (named, known) at h))
    | inr unknown ↦ absurd (none-ne-some (sym (rw (named, unknown) at h)))
  ]
]

wax_reason-InScope :
    (w : Text) (args : List Text) (s : Scan)
    → w ≡ codes "wax"
    → scan args ≡ s
    → scan_reason s ≡ none
    → InScope (w ∷ args)
wax_reason-InScope w args (refused r) q e h = absurd (none-ne-some (sym h))
wax_reason-InScope w args (scanned ps) q e h =
    accepted ps (scan-Accepts args ps e) (positionals_reason-PassedFiles ps h)
  where
    accepted : (ps' : List Text) → Accepts args ps' → PassedFiles ps' → InScope (w ∷ args)
    accepted ps' a (only_files n f) = plain q a n f
    accepted (c ∷ ps') a (with_command n k f) = command q a n k f

pub words-InScope :
    (words : List Text)
    → first_reason (opaque_reason words) (words_reason words) ≡ none
    → InScope words
unfolding words_reason
words-InScope [] h = blank
words-InScope (w ∷ args) h = elim (Bool-cases (contains w cram_opaque)) [
  | inl script ↦ absurd (none-ne-some (sym (rw script at h)))
  | inr plain_word ↦ elim (Bool-cases (w == codes "wax")) [
    | inr foreign ↦ other plain_word foreign
    | inl wax ↦
        wax_reason-InScope w args (scan args) ((eq_iff w (codes "wax")).0 wax) refl
          (rw (plain_word, wax) at h)
  ]
]

wax_reason-none :
    (w : Text) (args ps : List Text)
    → w ≡ codes "wax"
    → Accepts args ps
    → positionals_reason ps ≡ none
    → first_reason (opaque_reason (w ∷ args)) (words_reason (w ∷ args)) ≡ none
unfolding words_reason
wax_reason-none w args ps q a h = rw (q, Accepts-scan a) h

plain_files-none :
    (ps : List Text)
    → has_command ps ≡ false
    → all is_wax_file ps ≡ true
    → positionals_reason ps ≡ none
unfolding positionals_reason
plain_files-none [] n f = refl
plain_files-none (w ∷ ws) n f = rw n ((file_reason-none (w ∷ ws)).1 f)

command_files-none :
    (c : Text) (ps : List Text)
    → names_command c ≡ true
    → contains c cram_ok_commands ≡ true
    → all is_wax_file ps ≡ true
    → positionals_reason (c ∷ ps) ≡ none
unfolding positionals_reason
command_files-none c ps n k f = rw (n, k) ((file_reason-none ps).1 f)

InScope-words :
    {words : List Text}
    → InScope words
    → first_reason (opaque_reason words) (words_reason words) ≡ none
unfolding words_reason
InScope-words blank = refl
InScope-words (other p q) = rw (p, q) refl
InScope-words (plain {w} {args} {ps} q a n f) =
    wax_reason-none w args ps q a (plain_files-none ps n f)
InScope-words (command {w} {c} {args} {ps} q a n k f) =
    wax_reason-none w args (c ∷ ps) q a (command_files-none c ps n k f)

-- Every segment of the first line of a command is in scope.
pub RunsInScope : Text → Type 0
RunsInScope cmd =
    (seg : Text) → Memᴰ seg (segments (first_line cmd)) → InScope (drop_assignments (split seg))

first_reason-none : (a b : Option Reason) → first_reason a b ≡ none → (a ≡ none) × (b ≡ none)
first_reason-none none b h = (refl, h)
first_reason-none (some r) b h = absurd (none-ne-some (sym h))

segments_reason-none :
    (segs : List Text)
    → segments_reason segs ≡ none
    → (seg : Text) → Memᴰ seg segs
    → InScope (drop_assignments (split seg))
unfolding segments_reason segment_reason
segments_reason-none [] h seg m = elim m [ ]
segments_reason-none (s ∷ segs) h seg (head q) =
    rw q (words-InScope (drop_assignments (split s)) (first_reason-none _ _ h).0)
segments_reason-none (s ∷ segs) h seg (tail m) =
    segments_reason-none segs (first_reason-none _ _ h).1 seg m

none-segments_reason :
    (segs : List Text)
    → ((seg : Text) → Memᴰ seg segs → InScope (drop_assignments (split seg)))
    → segments_reason segs ≡ none
unfolding segments_reason segment_reason
none-segments_reason [] h = refl
none-segments_reason (s ∷ segs) h =
    rw (InScope-words (h s (head refl)), none-segments_reason segs (λ seg m. h seg (tail m))) refl

-- No reason is found against a command exactly if every segment of its first line is in scope.
pub cram_reason-RunsInScope : (cmd : Text) → (cram_reason cmd ≡ none) ↔ RunsInScope cmd
unfolding cram_reason RunsInScope
cram_reason-RunsInScope cmd = (
  segments_reason-none (segments (first_line cmd)),
  none-segments_reason (segments (first_line cmd)),
)

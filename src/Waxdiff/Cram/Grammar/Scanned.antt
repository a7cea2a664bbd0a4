-- ===== src/Waxdiff/Cram/Grammar/Scanned.antt =====
-- The scan accepts exactly the words that the grammar accepts.
use wax_mb.Base.{
  split_and, false_of_not, Text, Bool, true, false, not, ◌&&◌, ◌||◌, Option, none, some, List, [],
  ◌∷◌, ◌≡◌, ◌≢◌, refl, sym, ◌∙◌, ap, subst, list_eq, nat_eq, if◌then◌else◌, contains, Bool-cases,
  inl, inr, arith,
}
use wax_mb.Waxdiff.Cram.{
  Reason, writes, reads, Scan, refused, scanned, is_positional, bad_format, or_refuse, keep_word,
  scan_flag, scan, partition_eq, cram_ok_flags, valued_flags, out_format_flags, in_format_flags,
  cram_ok_out_formats, cram_ok_in_formats,
}
use wax_mb.Waxdiff.Cram.Grammar.{
  format_ok, is_switch, is_option, Accepts, stop, positional, switch, inline, spaced, last,
}

-- What a flag that the scan passes looks like.
data PassedFlag (name : Text) : Option Text → Text → Scan → Scan → List Text → Type 0 where
  as_switch :
      {o : Option Text} {next : Text} {after after_next : Scan} {ps : List Text}
      → is_switch name ≡ true
      → after ≡ scanned ps
      → PassedFlag name o next after after_next ps
  as_inline :
      {val next : Text} {after after_next : Scan} {ps : List Text}
      → is_option name val ≡ true
      → after ≡ scanned ps
      → PassedFlag name (some val) next after after_next ps
  as_spaced :
      {next : Text} {after after_next : Scan} {ps : List Text}
      → is_option name next ≡ true
      → after_next ≡ scanned ps
      → PassedFlag name none next after after_next ps

or_refuse-scanned :
    (name val : Text) (s : Scan) (ps : List Text)
    → or_refuse (bad_format name val) s ≡ scanned ps
    → (format_ok name val ≡ true) × (s ≡ scanned ps)
or_refuse-scanned name val s ps h = ground arith

words_of : Scan → List Text
words_of (refused r) = []
words_of (scanned ws) = ws

scanned-injective : {ps qs : List Text} → scanned ps ≡ scanned qs → ps ≡ qs
unfolding words_of
scanned-injective h = ap words_of h

refused-ne-scanned : {r : Reason} {ps : List Text} → refused r ≢ scanned ps
refused-ne-scanned h = cc

scan_flag-passed :
    (name : Text) (o : Option Text) (next : Text) (after after_next : Scan) (ps : List Text)
    → scan_flag (name, o) next after after_next ≡ scanned ps
    → PassedFlag name o next after after_next ps
scan_flag-passed name o next after after_next ps h =
    elim (Bool-cases (contains name cram_ok_flags)) [
      | inr unknown ↦ absurd (refused-ne-scanned (rw unknown at h))
      | inl known ↦ elim (Bool-cases (contains name valued_flags)) [
        | inr no_value ↦ as_switch (rw (known, no_value) refl) (rw (known, no_value) at h)
        | inl value ↦ with_value o known value (rw (known, value) at h)
      ]
    ]
  where
    with_value :
        (o' : Option Text)
        → contains name cram_ok_flags ≡ true
        → contains name valued_flags ≡ true
        → (elim o' [
          | some val ↦ or_refuse (bad_format name val) after
          | none ↦ or_refuse (bad_format name next) after_next
        ])
          ≡ scanned ps
        → PassedFlag name o' next after after_next ps
    with_value none known value k =
        let r = or_refuse-scanned name next after_next ps k in as_spaced (rw (known, value) r.0) r.1
    with_value (some val) known value k =
        let r = or_refuse-scanned name val after ps k in as_inline (rw (known, value) r.0) r.1

keep_word-scanned :
    (w : Text) (s : Scan) (ps : List Text)
    → keep_word w s ≡ scanned ps
    → (qs : List Text) × (s ≡ scanned qs) × (ps ≡ w ∷ qs)
keep_word-scanned w (refused r) ps h = absurd (refused-ne-scanned h)
keep_word-scanned w (scanned qs) ps h = (qs, refl, ground arith)

accept_flag :
    {w v : Text} {ws ps : List Text} (o : Option Text)
    → is_positional w ≡ false
    → (partition_eq w).1 ≡ o
    → PassedFlag (partition_eq w).0 o v (scan (v ∷ ws)) (scan ws) ps
    → (scan (v ∷ ws) ≡ scanned ps → Accepts (v ∷ ws) ps)
    → (scan ws ≡ scanned ps → Accepts ws ps)
    → Accepts (w ∷ v ∷ ws) ps
accept_flag o p q (as_switch k h) one two = switch p k (one h)
accept_flag (some val) p q (as_inline k h) one two = inline p q k (one h)
accept_flag none p q (as_spaced k h) one two = spaced p q k (two h)

accept_last :
    {w : Text} {ps : List Text} (o : Option Text)
    → is_positional w ≡ false
    → (partition_eq w).1 ≡ o
    → PassedFlag (partition_eq w).0 o [] (scanned []) (scanned []) ps
    → Accepts (w ∷ []) ps
accept_last o p q (as_switch k h) = switch p k (subst (Accepts []) (scanned-injective h) stop)
accept_last (some val) p q (as_inline k h) =
    inline p q k (subst (Accepts []) (scanned-injective h) stop)
accept_last none p q (as_spaced k h) = subst (Accepts (_ ∷ [])) (scanned-injective h) (last p q k)

pub scan-Accepts : (ws ps : List Text) → scan ws ≡ scanned ps → Accepts ws ps
unfolding scan
scan-Accepts [] ps h = subst (Accepts []) (scanned-injective h) stop
scan-Accepts (w ∷ []) ps h = elim (Bool-cases (is_positional w)) [
  | inl word ↦ subst (Accepts (w ∷ [])) (scanned-injective (rw word at h)) (positional word stop)
  | inr option ↦ accept_last (partition_eq w).1 option refl (
      scan_flag-passed (partition_eq w).0 (partition_eq w).1 [] (scanned []) (scanned []) ps
        (rw option at h))
]
scan-Accepts (w ∷ v ∷ ws) ps h = elim (Bool-cases (is_positional w)) [
  | inl word ↦
      let (qs, e, same) = keep_word-scanned w (scan (v ∷ ws)) ps (rw word at h) in
      rw same (positional word (scan-Accepts (v ∷ ws) qs e))
  | inr option ↦
      accept_flag (partition_eq w).1 option refl
        (scan_flag-passed (partition_eq w).0 (partition_eq w).1 v (scan (v ∷ ws)) (scan ws) ps
          (rw option at h))
        (scan-Accepts (v ∷ ws) ps) (scan-Accepts ws ps)
]

scan_positional :
    (w : Text) (ws : List Text) → is_positional w ≡ true → scan (w ∷ ws) ≡ keep_word w (scan ws)
unfolding scan
scan_positional w [] h = rw h refl
scan_positional w (v ∷ ws) h = rw h refl

-- The two tests of a format, from their outcome.
format_passes :
    (out out_ok inp inp_ok : Bool) (name val : Text)
    → ((not out || out_ok) && (not inp || inp_ok)) ≡ true
    → (if out && not out_ok
        then some (writes val)
        else if inp && not inp_ok
        then some (reads val)
        else none)
      ≡ none
format_passes out out_ok inp inp_ok name val h = ground arith

scan_flag-switch :
    (name : Text) (o : Option Text) (next : Text) (after after_next : Scan)
    → is_switch name ≡ true
    → scan_flag (name, o) next after after_next ≡ after
scan_flag-switch name o next after after_next h =
    let parts = split_and (contains name cram_ok_flags) (not (contains name valued_flags)) h in
    rw (parts.0, false_of_not (contains name valued_flags) parts.1) refl

scan_flag-option :
    (name val : Text) (o : Option Text) (next : Text) (after after_next : Scan)
    → is_option name val ≡ true
    → scan_flag (name, o) next after after_next ≡ (elim o [
      | some inline_val ↦ or_refuse (bad_format name inline_val) after
      | none ↦ or_refuse (bad_format name next) after_next
    ])
scan_flag-option name val o next after after_next h =
    let parts =
      split_and (contains name cram_ok_flags && contains name valued_flags) (format_ok name val)
        h in
    let flags = split_and (contains name cram_ok_flags) (contains name valued_flags) parts.0 in
    rw (flags.0, flags.1) refl

bad_format-none : (name val : Text) → is_option name val ≡ true → bad_format name val ≡ none
bad_format-none name val h =
    format_passes (contains name out_format_flags) (contains val cram_ok_out_formats)
      (contains name in_format_flags) (contains val cram_ok_in_formats) name val
      (split_and (contains name cram_ok_flags && contains name valued_flags) (format_ok name val)
        h).1

scan_flagged :
    (w v : Text) (ws : List Text)
    → is_positional w ≡ false
    → scan (w ∷ v ∷ ws) ≡ scan_flag (partition_eq w) v (scan (v ∷ ws)) (scan ws)
unfolding scan
scan_flagged w v ws h = rw h refl

scan_flagged_last :
    (w : Text)
    → is_positional w ≡ false
    → scan (w ∷ []) ≡ scan_flag (partition_eq w) [] (scanned []) (scanned [])
unfolding scan
scan_flagged_last w h = rw h refl

scan_empty : scan [] ≡ scanned []
unfolding scan
scan_empty = refl

scan_inline :
    (w val : Text) (ws : List Text)
    → is_positional w ≡ false
    → (partition_eq w).1 ≡ some val
    → is_option (partition_eq w).0 val ≡ true
    → scan (w ∷ ws) ≡ scan ws
scan_inline w val [] p q k =
    scan_flagged_last w p
    ∙ scan_flag-option (partition_eq w).0 val (partition_eq w).1 [] (scanned []) (scanned []) k
    ∙ rw (q, bad_format-none (partition_eq w).0 val k) (sym scan_empty)
scan_inline w val (v ∷ ws) p q k =
    scan_flagged w v ws p
    ∙ scan_flag-option (partition_eq w).0 val (partition_eq w).1 v (scan (v ∷ ws)) (scan ws) k
    ∙ rw (q, bad_format-none (partition_eq w).0 val k) refl

scan_switch :
    (w : Text) (ws : List Text)
    → is_positional w ≡ false
    → is_switch (partition_eq w).0 ≡ true
    → scan (w ∷ ws) ≡ scan ws
scan_switch w [] p k =
    scan_flagged_last w p
    ∙ scan_flag-switch (partition_eq w).0 (partition_eq w).1 [] (scanned []) (scanned []) k
    ∙ sym scan_empty
scan_switch w (v ∷ ws) p k =
    scan_flagged w v ws p
    ∙ scan_flag-switch (partition_eq w).0 (partition_eq w).1 v (scan (v ∷ ws)) (scan ws) k

pub Accepts-scan : {ws ps : List Text} → Accepts ws ps → scan ws ≡ scanned ps
Accepts-scan stop = scan_empty
Accepts-scan (positional {w} {ws} p a) = scan_positional w ws p ∙ rw (Accepts-scan a) refl
Accepts-scan (switch {w} {ws} p k a) = scan_switch w ws p k ∙ Accepts-scan a
Accepts-scan (inline {w} {val} {ws} p q k a) = scan_inline w val ws p q k ∙ Accepts-scan a
Accepts-scan (spaced {w} {val} {ws} p q k a) =
    scan_flagged w val ws p
    ∙ scan_flag-option (partition_eq w).0 val (partition_eq w).1 val (scan (val ∷ ws)) (scan ws) k
    ∙ rw (q, bad_format-none (partition_eq w).0 val k) (Accepts-scan a)
Accepts-scan (last {w} p q k) =
    scan_flagged_last w p
    ∙ scan_flag-option (partition_eq w).0 [] (partition_eq w).1 [] (scanned []) (scanned []) k
    ∙ rw (q, bad_format-none (partition_eq w).0 [] k) refl

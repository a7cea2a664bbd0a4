-- ===== src/Base/Prefixes.antt =====
-- A text and its beginning: `starts_with` and what `drop` leaves.
use Prim.Native.Nat.{ℕ}
use mathlib.Core.Path.{◌≡◌, refl, ap, ◌∙◌}
use mathlib.Core.Bool.{true}
use mathlib.Core.List.{[], ◌∷◌, ◌++◌}
use wax_mb.Base.Tests.{◌==◌, eq_iff, eq_self, nat_eq, split_and}
use wax_mb.Base.Lists.{length, drop}
use wax_mb.Base.Strings.{Text, starts_with}

pub starts_with-append : (p s : Text) → starts_with (p ++ s) p ≡ true
starts_with-append [] s = refl
starts_with-append (c ∷ p) s = rw (eq_self c, starts_with-append p s) refl

pub drop-append : (p s : Text) → drop (length p) (p ++ s) ≡ s
drop-append [] s = refl
drop-append (c ∷ p) s = drop-append p s

pub starts_with-split : (s p : Text) → starts_with s p ≡ true → s ≡ p ++ drop (length p) s
starts_with-split s [] h = refl
starts_with-split [] (x ∷ p) h = cc
starts_with-split (c ∷ s) (x ∷ p) h =
    let (first, later) = split_and (c == x) (starts_with s p) h in
    ap (λ (d : ℕ). d ∷ s) ((eq_iff c x).0 first)
    ∙ ap (λ (t : Text). x ∷ t) (starts_with-split s p later)

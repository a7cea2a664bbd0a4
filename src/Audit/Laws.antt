-- ===== src/Audit/Laws.antt =====
-- Which names the audit reports, and what its totals count.
use mathlib.Core.List.{Memᴰ}
use mathlib.Core.List.Memᴰ.{head, tail, cases_cons, not-nil}
use wax_mb.Audit.Uses.{Uses, Promises, used_by-Uses, public_names-Promises}
use wax_mb.Base.{
  ◌↔◌, sym, or_true, split_and, ◌+◌, ◌≤◌, ◌≡◌, refl, ap, ◌∙◌, arith, Text, Bool, true, false, not,
  ◌&&◌, ◌||◌, List, [], ◌∷◌, ◌==◌, list_eq, nat_eq, if◌then◌else◌, length, contains,
  contains-append, contains-select, select, any, ltb, Bool-cases, inl, inr,
}
use wax_mb.Audit.{
  Package, public_names, used_by, used, pkg_import_path, unused_names, Row, rows, insert_row,
  sorted_rows, total_promised, total_unused, audit,
}

contains-used :
    (x pkg : Text) (d : Package) (importers : List Package)
    → contains x (used pkg d importers) ≡ any (λ imp. contains x (used_by pkg d imp)) importers
unfolding used
contains-used x pkg d [] = refl
contains-used x pkg d (imp ∷ importers) =
    contains-append x (used_by pkg d imp) (used pkg d importers)
    ∙ ap (λ (b : Bool). contains x (used_by pkg d imp) || b) (contains-used x pkg d importers)

contains-unused_names :
    (x short : Text) (d : Package) (importers : List Package)
    → contains x (unused_names short d importers) ≡ (
        contains x (public_names d.interface)
        && not (any (λ imp. contains x (used_by (pkg_import_path short) d imp)) importers))
unfolding unused_names
contains-unused_names x short d importers =
    contains-select (λ y. not (contains y (used (pkg_import_path short) d importers))) x
      (public_names d.interface)
    ∙ ap (λ (b : Bool). contains x (public_names d.interface) && not b)
        (contains-used x (pkg_import_path short) d importers)

any_of_member :
    (p : Package → Bool) (imp : Package) (imps : List Package)
    → Memᴰ imp imps
    → p imp ≡ true
    → any p imps ≡ true
any_of_member p imp [] m h = absurd (not-nil m)
any_of_member p imp (i ∷ imps) m h = elim (cases_cons m) [
  | inl q ↦ rw (ap p (sym q) ∙ h) refl
  | inr m' ↦ rw (any_of_member p imp imps m' h) (or_true (p i))
]

none_of_members :
    (p : Package → Bool) (imps : List Package)
    → ((imp : Package) → Memᴰ imp imps → p imp ≡ false)
    → any p imps ≡ false
none_of_members p [] h = refl
none_of_members p (i ∷ imps) h =
    rw (h i (head refl), none_of_members p imps (λ imp m. h imp (tail m))) refl

-- A name is reported exactly if a line of the interface declares it and no package other than its
-- own that imports it mentions the name behind what it calls the package, or calls a method of that
-- name.
pub unused_names-unused :
    (x short : Text) (d : Package) (importers : List Package)
    → (contains x (unused_names short d importers) ≡ true) ↔ (
        Promises d.interface x
        × ((imp : Package) → Memᴰ imp importers → ¬ Uses (pkg_import_path short) d imp x))
unused_names-unused x short d importers =
    let pkg = pkg_import_path short in
    let uses = λ (imp : Package). contains x (used_by pkg d imp) in
    let reported = contains-unused_names x short d importers in
    let promised = public_names-Promises d.interface x in
    (
      λ h.
          let (declared, free) =
            split_and (contains x (public_names d.interface)) (not (any uses importers))
              (sym reported ∙ h) in
          (
            promised.0 declared,
            λ imp m u.
                let used_here =
                  any_of_member uses imp importers m ((used_by-Uses pkg x d imp).1 u) in
                cc,
          ),
      λ k.
          let free : any uses importers ≡ false = none_of_members uses importers (λ imp m.
            elim (Bool-cases (uses imp)) [
              | inl u ↦ absurd (k.1 imp m ((used_by-Uses pkg x d imp).0 u))
              | inr f ↦ f
            ]) in
          reported ∙ rw (promised.1 k.0, free) refl,
    )

length-select : (p : Text → Bool) (xs : List Text) → length (select p xs) ≤ length xs
length-select p [] = omega arith
length-select p (x ∷ xs) = ground (arith, length-select p xs)

guarded-bound :
    (b : Bool) (row : Row) (rest : List Row)
    → total_unused rest ≤ total_promised rest
    → length row.unused ≤ row.promised
    → total_unused (if b then rest else row ∷ rest)
      ≤ total_promised (if b then rest else row ∷ rest)
guarded-bound true row rest h k = h
guarded-bound false row rest h k = omega (arith, h, k)

rows-bound :
    (only : Text) (importers : List Package) (packages : List (Text × Package))
    → total_unused (rows only importers packages) ≤ total_promised (rows only importers packages)
unfolding rows unused_names
rows-bound only importers [] = omega arith
rows-bound only importers ((short, d) ∷ packages) =
    guarded-bound
      ((not (only == []) && not (short == only)) || length (public_names d.interface) == 0)
      (record {
        short = short;
        promised = length (public_names d.interface);
        unused = unused_names short d importers;
      })
      (rows only importers packages) (rows-bound only importers packages)
      (length-select (λ y. not (contains y (used (pkg_import_path short) d importers)))
        (public_names d.interface))

insert-totals :
    (r : Row) (rs : List Row)
    → (total_unused (insert_row r rs) ≡ length r.unused + total_unused rs)
      × (total_promised (insert_row r rs) ≡ r.promised + total_promised rs)
unfolding insert_row
insert-totals r [] = (refl, refl)
insert-totals r (s ∷ rs) = elim (Bool-cases (ltb (length r.unused) (length s.unused))) [
  | inl later ↦ rw later (omega (arith, insert-totals r rs), omega (arith, insert-totals r rs))
  | inr first ↦ rw first (refl, refl)
]

sorted-totals :
    (rs : List Row)
    → (total_unused (sorted_rows rs) ≡ total_unused rs)
      × (total_promised (sorted_rows rs) ≡ total_promised rs)
unfolding sorted_rows
sorted-totals [] = (refl, refl)
sorted-totals (r ∷ rs) =
    let (u, p) = insert-totals r (sorted_rows rs) in
    let (u', p') = sorted-totals rs in (omega (arith, u, u'), omega (arith, p, p'))

abbrev is_shown : Row → Bool
is_shown r = not (length r.unused == 0) || false

shown-total : (rs : List Row) → total_unused (select is_shown rs) ≡ total_unused rs
shown-total [] = refl
shown-total (r ∷ rs) = ground (arith, shown-total rs)

-- Without `--pkg`, the printed rows have all the unused names of the total, and the total of unused
-- names is at most that of the promised ones.
pub audit-totals :
    (importers : List Package) (packages : List (Text × Package))
    → let (printed, promised, unused) = audit [] importers packages in
      (total_unused printed ≡ unused) × (unused ≤ promised)
unfolding audit
audit-totals importers packages =
    let rs = rows [] importers packages in
    let (u, p) = sorted-totals rs in
    (shown-total (sorted_rows rs), omega (arith, u, p, rows-bound [] importers packages))

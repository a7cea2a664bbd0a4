-- ===== src/Audit/Examples.antt =====
-- The audit of a small workspace.
use mathlib.Core.List.{Memᴰ}
use wax_mb.Audit.Uses.{Uses, Promises}
use wax_mb.Base.{◌↔◌, true, ◌≡◌, refl, codes, none, some, [], ◌∷◌, list_eq, nat_eq, contains}
use wax_mb.Grammar.Parse.{skip_group, behind}
use wax_mb.Audit.{
  Package, public_names, public_name, used_by, pkg_import_path, unused_names, audit, rows,
  sorted_rows, used, aliases_for, import_line,
}
use wax_mb.Audit.Laws.{unused_names-unused}

abbrev checker : Package
checker = record {
  dir = codes "lib/check";
  config = some (codes "");
  interface = some (
      codes
        "pub fn[T] run(T) -> Int\npub fn Env::add(Env) -> Unit\npub(all) struct Env\npub let limit : Int\nfn hidden(");
  text = codes "limit";
}

abbrev caller : Package
caller = record {
  dir = codes "cli";
  config = some (codes "import { \"marianoguerra/wax/check\" @c, \"x/y\" }");
  interface = none;
  text = codes "let e : @c.Env = f()\n@c.run(e.add(1))";
}

promised_names :
    public_names checker.interface ≡ codes "run" ∷ codes "add" ∷ codes "Env" ∷ codes "limit" ∷ []
unfolding public_names public_name skip_group behind
promised_names = refl

small_audit :
    audit [] (checker ∷ caller ∷ []) ((codes "check", checker) ∷ [])
    ≡ (record { short = codes "check"; promised = 4; unused = codes "limit" ∷ [] } ∷ [], 4, 1)
unfolding audit rows sorted_rows public_names public_name skip_group behind unused_names used
    used_by aliases_for import_line
small_audit = refl

unused_names-unused_example :
    (contains (codes "limit") (unused_names (codes "check") checker (checker ∷ caller ∷ [])) ≡ true)
    ↔ (Promises checker.interface (codes "limit")
        × ((imp : Package)
            → Memᴰ imp (checker ∷ caller ∷ [])
            → ¬ Uses (pkg_import_path (codes "check")) checker imp (codes "limit")))
unused_names-unused_example =
    unused_names-unused (codes "limit") (codes "check") checker (checker ∷ caller ∷ [])

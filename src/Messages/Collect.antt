-- ===== src/Messages/Collect.antt =====
-- `main` of the generator: which messages are recorded for which stacks, and the file's two tables.
pub mod Laws
pub mod Counted
pub mod Examples
use wax_mb.Base.{
  ℕ, zero, suc, ◌+◌, Text, codes, Bool, true, false, not, ◌&&◌, Option, none, some, List, [], ◌∷◌,
  ◌++◌, Eq, ◌==◌, list_eq, nat_eq, if◌then◌else◌, length, select, split, map,
}
use wax_mb.Messages.Render.{Spellings, lexeme, render}
use wax_mb.Messages.Golden.{Entry, Row, labels_of}
use wax_mb.Messages.Table.{Table, Items, build, longest, table_of, max_depth}
use wax_mb.Messages.Arms.{Message, message_eq, arms_of}

-- `[e for e in entries() if e["entry"] != "dummy_ctx"]`
abbrev pub real_entries : List Entry → List Entry
real_entries es = select (λ (e : Entry). not (e.entry == codes "dummy_ctx")) es

abbrev pub sources_of : Spellings → List Entry → List Text
sources_of alias es = map (λ (e : Entry). render alias e.sentence) es

-- `len([t for t in e["sentence"] if lexeme(t) != ""])`
unfoldable pub written_tokens : Spellings → List Text → ℕ
written_tokens alias sentence = length (select (λ t. not (lexeme alias t == [])) sentence)

-- What the loop over the sentences has collected.
pub record Collected : Type 0 where
  pub parsed_fine : ℕ
  pub misplaced : ℕ
  pub items : Items Message
  pub reduced_items : Items Message

abbrev pub nothing_collected : Collected
nothing_collected = record { parsed_fine = 0; misplaced = 0; items = []; reduced_items = [] }

-- `(signature, e["message"], subject, opener)`
unfoldable pub message_of : Entry → Row → Message
message_of e r =
    let (subject, opener) = labels_of e.markers in
    record { signature = r.signature; text = e.message; subject = subject; opener = opener }

abbrev pub add_reduced : Option (List ℕ) → Message → Items Message → Items Message
add_reduced none v items = items
add_reduced (some stack) v items = (stack, v) ∷ items

-- The body of the loop, before what the later sentences give. A sentence without tokens is
-- misplaced: its last index is -1.
unfoldable pub collect_one : Spellings → Entry → Option Row → Collected → Collected
unfolding written_tokens message_of
collect_one alias e none rest = record rest { parsed_fine = 1 + rest.parsed_fine }
collect_one alias e (some r) rest =
    if r.index + 1 == written_tokens alias e.sentence
    then record rest {
      items = (r.stack, message_of e r) ∷ rest.items;
      reduced_items = add_reduced r.reduced (message_of e r) rest.reduced_items;
    }
    else record rest { misplaced = 1 + rest.misplaced }

-- `for e, r in zip(es, results)`
unfoldable pub collect : Spellings → List Entry → List (Option Row) → Collected
unfolding collect_one
collect alias [] rs = nothing_collected
collect alias (e ∷ es) [] = nothing_collected
collect alias (e ∷ es) (r ∷ rs) = collect_one alias e r (collect alias es rs)

-- `sum(1 for k in resolved)`, and of those on one frame
abbrev pub is_resolved : Text × Option Message → Bool
is_resolved (k, none) = false
is_resolved (k, some v) = true

abbrev pub is_shallow : Text × Option Message → Bool
is_shallow e = is_resolved e && length (split e.0) == 1

-- What main prints, and the parts of the file that depend on the golden.
pub record Generated : Type 0 where
  pub entries_read : ℕ
  pub sentences_parsed : ℕ
  pub wrong_token : ℕ
  pub dropped : ℕ
  pub keys : ℕ
  pub shallow : ℕ
  pub reduced_keys : ℕ
  pub reduced_dropped : ℕ
  pub deepest_key : ℕ
  pub body : Text
  pub reduced_body : Text

unfoldable pub generated : List Entry → Collected → Generated
unfolding arms_of
generated es c =
    let table = build (longest c.items) c.items 1 [] in
    let reduced = build (longest c.reduced_items) c.reduced_items 1 [] in
    record {
      entries_read = length es;
      sentences_parsed = c.parsed_fine;
      wrong_token = c.misplaced;
      dropped = table.1;
      keys = length (select is_resolved table.0);
      shallow = length (select is_shallow table.0);
      reduced_keys = length (select is_resolved reduced.0);
      reduced_dropped = reduced.1;
      deepest_key = max_depth table.0 reduced.0;
      body = arms_of table.0;
      reduced_body = arms_of reduced.0;
    }

-- `main` behind the reductions: `results` are the rows of `sources_of`.
unfoldable pub main : Spellings → List Entry → List (Option Row) → Generated
unfolding collect generated
main alias es results = generated (real_entries es) (collect alias (real_entries es) results)

-- ===== src/Messages/Collect/Laws.antt =====
-- From the sentences of the golden to what the generated lookup answers.
use mathlib.Core.List.{Memᴰ}
use mathlib.Core.List.Memᴰ.{head, tail, cases_cons}
use wax_mb.Base.{
  ℕ, ◌+◌, ◌≡◌, refl, ap, sym, ◌∙◌, Text, Bool, true, ◌||◌, Option, none, some, some_inj,
  none-ne-some, List, [], ◌∷◌, ◌==◌, eq_self, list_eq, nat_eq, Bool-cases, inl, inr, subst,
}
use wax_mb.Messages.Render.{Spellings}
use wax_mb.Messages.Golden.{Entry, Row}
use wax_mb.Messages.Table.{table_of, max_depth, lookup}
use wax_mb.Messages.Table.Laws.{ends_apart, table_answers_recorded}
use wax_mb.Messages.Arms.{Message, message_eq, sorted_arms}
use wax_mb.Messages.Arms.Laws.{lookup-sorted_arms}
use wax_mb.Messages.Collect.{written_tokens, Collected, message_of, collect_one, collect}

-- `zip(es, results)`
abbrev pub zipped : List Entry → List (Option Row) → List (Entry × Option Row)
zipped [] rs = []
zipped (e ∷ es) [] = []
zipped (e ∷ es) (r ∷ rs) = (e, r) ∷ zipped es rs

-- The sentence fails on its last token.
abbrev pub is_placed : Spellings → Entry → Row → Bool
is_placed alias e r = r.index + 1 == written_tokens alias e.sentence

pub collect-recorded :
    (alias : Spellings) (es : List Entry) (rs : List (Option Row)) (e : Entry) (r : Row)
    → Memᴰ (e, some r) (zipped es rs)
    → is_placed alias e r ≡ true
    → Memᴰ (r.stack, message_of e r) (collect alias es rs).items
unfolding collect collect_one
collect-recorded alias [] rs e r m h = elim m [ ]
collect-recorded alias (e' ∷ es) [] e r m h = elim m [ ]
collect-recorded alias (e' ∷ es) (none ∷ rs) e r m h = elim (cases_cons m) [
  | inl q ↦ absurd (none-ne-some (sym (ap (λ (p : Entry × Option Row). p.1) q)))
  | inr m' ↦ collect-recorded alias es rs e r m' h
]
collect-recorded alias (e' ∷ es) (some r' ∷ rs) e r m h = elim (cases_cons m) [
  | inl q ↦
      let same_e : e ≡ e' = ap (λ (p : Entry × Option Row). p.0) q in
      let same_r : r ≡ r' = some_inj (ap (λ (p : Entry × Option Row). p.1) q) in
      let placed : is_placed alias e' r' ≡ true =
        subst (λ x. is_placed alias x r' ≡ true) same_e
          (subst (λ y. is_placed alias e y ≡ true) same_r h) in
      rw placed (
        head (
          ap (λ (y : Row). (y.stack, message_of e y)) same_r
          ∙ ap (λ (x : Entry). (r'.stack, message_of x r')) same_e))
  | inr m' ↦
      let rest = collect-recorded alias es rs e r m' h in
      elim (Bool-cases (is_placed alias e' r')) [
        | inl placed ↦ rw placed (tail rest)
        | inr wrong ↦ rw wrong rest
      ]
]

-- One of the sentences fails on its last token, with that stack and that message.
abbrev pub HasSource : Spellings → List (Entry × Option Row) → List ℕ → Message → Type 0
HasSource alias zs s v =
    (e : Entry) × (r : Row) × Memᴰ (e, some r) zs
    × (is_placed alias e r ≡ true)
    × (r.stack ≡ s)
    × (message_of e r ≡ v)

weaken :
    (alias : Spellings) (z : Entry × Option Row) (zs : List (Entry × Option Row)) (s : List ℕ)
    (v : Message)
    → HasSource alias zs s v
    → HasSource alias (z ∷ zs) s v
weaken alias z zs s v (e, r, m, p, q, w) = (e, r, tail m, p, q, w)

pub collect-source :
    (alias : Spellings) (es : List Entry) (rs : List (Option Row)) (s : List ℕ) (v : Message)
    → Memᴰ (s, v) (collect alias es rs).items
    → HasSource alias (zipped es rs) s v
unfolding collect collect_one
collect-source alias [] rs s v m = elim m [ ]
collect-source alias (e ∷ es) [] s v m = elim m [ ]
collect-source alias (e ∷ es) (none ∷ rs) s v m =
    weaken alias (e, none) (zipped es rs) s v (collect-source alias es rs s v m)
collect-source alias (e ∷ es) (some r ∷ rs) s v m = elim (Bool-cases (is_placed alias e r)) [
  | inl placed ↦ elim (cases_cons (rw placed at m)) [
    | inl q ↦ (
      e,
      r,
      head refl,
      placed,
      sym (ap (λ (i : List ℕ × Message). i.0) q),
      sym (ap (λ (i : List ℕ × Message). i.1) q),
    )
    | inr m' ↦ weaken alias (e, some r) (zipped es rs) s v (collect-source alias es rs s v m')
  ]
  | inr wrong ↦
      weaken alias (e, some r) (zipped es rs) s v (collect-source alias es rs s v (rw wrong at m))
]

-- The stacks of the recorded messages are not empty, and none is a proper suffix of another.
abbrev pub is_recordable : Collected → Bool
is_recordable c = ends_apart c.items

-- Under that condition, a sentence that fails on its last token, whose stack no other such sentence
-- shares with another message, gets its own message from the arms that are written: the lookup of
-- its stack and its signature, as deep as the deepest key of both tables, finds it, whatever
-- `message_fits` says.
pub recorded_message :
    (fits : Text → Text → Bool) (alias : Spellings) (es : List Entry) (rs : List (Option Row))
    (e : Entry) (r : Row)
    → is_recordable (collect alias es rs) ≡ true
    → Memᴰ (e, some r) (zipped es rs)
    → is_placed alias e r ≡ true
    → ((e' : Entry) (r' : Row)
        → Memᴰ (e', some r') (zipped es rs)
        → is_placed alias e' r' ≡ true
        → r'.stack ≡ r.stack
        → message_of e' r' ≡ message_of e r)
    → let c = collect alias es rs in
      lookup
        (λ (m : Message). m.signature == r.signature || fits m.text r.signature)
        (max_depth (table_of c.items) (table_of c.reduced_items))
        (sorted_arms (table_of c.items))
        r.stack
      ≡ some (message_of e r)
unfolding message_of
recorded_message fits alias es rs e r apart m placed agree =
    let c = collect alias es rs in
    let accepts : Message → Bool =
      λ (k : Message). k.signature == r.signature || fits k.text r.signature in
    let bound = max_depth (table_of c.items) (table_of c.reduced_items) in
    lookup-sorted_arms accepts bound c.items r.stack
    ∙ (table_answers_recorded accepts c.items (table_of c.reduced_items) r.stack (message_of e r)
          (message_of e r) apart (collect-recorded alias es rs e r m placed)).1
        (
          λ w k.
              let (e', r', k', p, q, v) = collect-source alias es rs r.stack w k in
              sym v ∙ agree e' r' k' p q,
          rw (eq_self r.signature) refl,
        )

-- ===== src/Messages/Arms.antt =====
-- `mbt_string` and `arms_of`: the arms of the generated `entry_of`.
pub mod Laws
use wax_mb.Base.{
  Eq, eq_iff, ◌↔◌, arith, ℕ, zero, suc, ◌+◌, ◌≡◌, refl, Text, codes, Bool, true, false, ◌&&◌, ◌||◌,
  Option, none, some, List, [], ◌∷◌, ◌++◌, map, ◌==◌, list_eq, nat_eq, if◌then◌else◌, length, ltb,
  split, join, text_before,
}
use wax_mb.Messages.Table.{Table}

-- `s.replace("\\", "\\\\").replace('"', '\\"')`
unfoldable pub escaped : Text → Text
escaped [] = []
escaped (c ∷ s) =
    let rest = escaped s in if c == b'\\' || c == b'"' then b'\\' ∷ c ∷ rest else c ∷ rest

unfoldable pub mbt_string : Text → Text
unfolding escaped
mbt_string s = b'"' ∷ (escaped s ++ b'"' ∷ [])

-- A recorded message, a tuple in the generator and `Message` in the generated file.
pub record Message : Type 0 where
  pub signature : Text
  pub text : Text
  pub subject : Text
  pub opener : Text

abbrev pub message_beq : Message → Message → Bool
message_beq a b =
    a.signature == b.signature
    && (a.text == b.text && (a.subject == b.subject && a.opener == b.opener))

pub message_beq_iff : (a b : Message) → (message_beq a b ≡ true) ↔ (a ≡ b)
message_beq_iff a b = ground (
  arith,
  eq_iff a.signature b.signature,
  eq_iff a.text b.text,
  eq_iff a.subject b.subject,
  eq_iff a.opener b.opener,
)

instance abbrev pub message_eq : Eq Message
message_eq = record { decides = message_beq_iff; test = message_beq }

-- `(len(k.split()), k)`, compared
unfoldable pub key_before : Text → Text → Bool
unfolding text_before
key_before j k =
    ltb (length (split j)) (length (split k))
    || (length (split j) == length (split k) && text_before j k)

module _ {V : Type 0} where
  -- `sorted(t, key=...)`, with the entries of the keys
  unfoldable pub insert_arm : Text × Option V → Table V → Table V
  insert_arm e [] = e ∷ []
  insert_arm e (f ∷ t) =
      let rest = insert_arm e t in if key_before e.0 f.0 then e ∷ f ∷ t else f ∷ rest

  unfoldable pub sorted_arms : Table V → Table V
  unfolding insert_arm
  sorted_arms [] = []
  sorted_arms (e ∷ t) = insert_arm e (sorted_arms t)

abbrev pub entry_text : Option Message → Text
entry_text none = codes "Deeper"
entry_text (some m) =
    codes "Msg({signature: "
    ++ mbt_string m.signature
    ++ codes ", text: "
    ++ mbt_string m.text
    ++ codes ", subject: "
    ++ mbt_string m.subject
    ++ codes ", opener: "
    ++ mbt_string m.opener
    ++ codes "})"

abbrev pub arm_text : Text × Option Message → Text
arm_text (key, v) = codes "    " ++ mbt_string key ++ codes " => Some(" ++ entry_text v ++ codes ")"

unfoldable pub arms_of : Table Message → Text
unfolding sorted_arms mbt_string
arms_of t = join (codes "\n") (map arm_text (sorted_arms t))

two_arms :
    arms_of (
      (codes "3 55", none)
      ∷ (
        codes "7",
        some (record {
          signature = codes "s";
          text = codes "a \"b\"";
          subject = [];
          opener = codes "o";
        }),
      )
      ∷ [])
    ≡ codes
        "    \"7\" => Some(Msg({signature: \"s\", text: \"a \\\"b\\\"\", subject: \"\", opener: \"o\"}))\n    \"3 55\" => Some(Deeper)"
unfolding arms_of key_before
two_arms = refl

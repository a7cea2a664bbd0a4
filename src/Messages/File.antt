-- ===== src/Messages/File.antt =====
-- The two files that the generator writes: lib/syntax/parser's table of messages, and the function of
-- `write_error_reduce`.
use wax_mb.Base.{ℕ, Text, codes, Bool, List, [], ◌∷◌, ◌++◌, map, join, sorted_by, ltb}
use wax_mb.Messages.Key.{str}
use wax_mb.Messages.Collect.{Generated}

abbrev pub id_before : ℕ × Text → ℕ × Text → Bool
id_before (i, d) (j, e) = ltb i j

abbrev pub reduce_arm : ℕ × Text → Text
reduce_arm (i, d) = codes "    " ++ str i ++ codes " => true // " ++ d

abbrev pub reduce_arms : List (ℕ × Text) → Text
reduce_arms ids = join (codes "\n") (map reduce_arm (sorted_by id_before ids))

unfoldable pub write_error_reduce : List (ℕ × Text) → Text
write_error_reduce ids = join (codes "\n") (
    codes "// The reference's `%on_error_reduce` set, as OUR nonterminal ids."
    ∷ codes "//"
    ∷ codes "// GENERATED by tools/gen_parser_messages.py from wax/src/lib-wax/parser.mly"
    ∷ codes "// and parser.mbty -- do not edit. The ids are the generated parser's, so this"
    ∷ codes "// is stale the moment the grammar changes: regenerate with the messages."
    ∷ []
    ∷ codes "///|"
    ∷ codes "/// Whether Menhir reduces to `symbol` when an error is detected. See"
    ∷ codes "/// `error_reduction`."
    ∷ codes "fn on_error_reduce(symbol : Int) -> Bool {"
    ∷ codes "  match symbol {"
    ∷ reduce_arms ids
    ∷ codes "    _ => false"
    ∷ codes "  }"
    ∷ codes "}"
    ∷ []
    ∷ [])

-- The table of messages: its head, the lookup with its bound, and the arms of the two tables
abbrev pub file_head : Generated → List Text
file_head g =
    codes "// The reference's syntax messages, keyed by OUR parser stack."
    ∷ codes "//"
    ∷ codes "// GENERATED by tools/gen_parser_messages.py from"
    ∷ codes "// wax/src/lib-wax/parser_messages.expected -- do not edit. Regenerating needs"
    ∷ codes "// the wax/ checkout and is a deliberate local act, like regenerating goldens."
    ∷ codes "//"
    ∷ codes "// The reference derives these from Menhir's automaton with `stele`: the"
    ∷ codes "// \"Assuming that the X is complete\" subject names the grammar symbol the parser"
    ∷ codes "// was in the middle of, which no MoonYacc error value carries and no"
    ∷ codes "// expected-token set determines (\"an expression\", \"a then-branch\" and \"an index"
    ∷ codes "// expression\" share theirs exactly). What CAN be recovered here is the state"
    ∷ codes "// stack (grammar/state.mbt), so the reference's own table is rekeyed onto it:"
    ∷ codes "// each of its error sentences is written out as source, parsed, and the stack"
    ∷ codes "// it fails on becomes the key."
    ∷ codes "//"
    ∷ codes "// The key is the SHALLOWEST stack suffix that names one message. Most are one"
    ∷ codes "// frame; Menhir distinguishes by the reductions it performs at the error, which"
    ∷ codes "// depend on the stack, so where it has several messages our state 55 (\"after an"
    ∷ codes "// expression\") needs a second frame to tell them apart. `Deeper` says to"
    ∷ codes "// extend the key by one more frame."
    ∷ codes "//"
    ∷ (codes "// "
        ++ str g.keys
        ++ codes " keys from the golden's "
        ++ str g.entries_read
        ++ codes " sentences, "
        ++ str g.dropped
        ++ codes " dropped")
    ∷ codes "// as unresolvable. A miss retries with the stack the failure REDUCES to, in a"
    ∷ (codes "// second table built the same way ("
        ++ str g.reduced_keys
        ++ codes " keys, "
        ++ str g.reduced_dropped
        ++ codes " dropped): Menhir")
    ∷ codes "// reports from the state after those reductions, MoonYacc fails before them."
    ∷ codes "// A miss in both falls back to the locally rendered `Expecting ...` list,"
    ∷ codes "// which is always correct if less specific."
    ∷ []
    ∷ codes "///|"
    ∷ codes "/// One recorded message."
    ∷ codes "priv struct Message {"
    ∷ codes "  /// The acceptable-token signature it was recorded with. A stack suffix can"
    ∷ codes "  /// recur in a context whose continuations differ; this is what tells the two"
    ∷ codes "  /// apart."
    ∷ codes "  signature : String"
    ∷ codes "  text : String"
    ∷ codes "  /// The label on the construct the hedge names (\"this statement\"), or \"\" when"
    ∷ codes "  /// the reference emits none. Where it points is `ErrorState::subject_span`."
    ∷ codes "  subject : String"
    ∷ codes "  /// The label on the enclosing construct's opening delimiter, or \"\". Where it"
    ∷ codes "  /// points is `enclosing_opener`."
    ∷ codes "  opener : String"
    ∷ codes "}"
    ∷ []
    ∷ codes "///|"
    ∷ codes "priv enum Entry {"
    ∷ codes "  Msg(Message)"
    ∷ codes "  Deeper"
    ∷ codes "}"
    ∷ []
    ∷ codes "///|"
    ∷ codes "/// The reference's message for a failing stack, bottom first, or None."
    ∷ codes "fn reference_message(stack : ArrayView[Int], signature : String) -> Message? {"
    ∷ codes "  lookup(stack, signature, entry_of)"
    ∷ codes "}"
    ∷ []
    ∷ codes "///|"
    ∷ codes "/// The reference's message for the stack a failure reduces to, or None."
    ∷ codes "fn reduced_message(stack : ArrayView[Int], signature : String) -> Message? {"
    ∷ codes "  lookup(stack, signature, entry_of_reduced)"
    ∷ codes "}"
    ∷ []
    ∷ []

abbrev pub file_body : Generated → List Text
file_body g =
    codes "///|"
    ∷ codes "/// Walks from the top frame down, deepening only where the table says the"
    ∷ codes "/// shallower key stands for more than one message."
    ∷ codes "fn lookup("
    ∷ codes "  stack : ArrayView[Int],"
    ∷ codes "  signature : String,"
    ∷ codes "  entry_of : (String) -> Entry?,"
    ∷ codes ") -> Message? {"
    ∷ codes "  let key = StringBuilder()"
    ∷ (codes "  for depth = 1; depth <= stack.length() && depth <= "
        ++ str g.deepest_key
        ++ codes "; depth = depth + 1 {")
    ∷ codes "    // The key reads bottom-up within the suffix, as the generator writes it."
    ∷ codes "    key.reset()"
    ∷ codes "    let from = stack.length() - depth"
    ∷ codes "    for i in from..<stack.length() {"
    ∷ codes "      if i > from {"
    ∷ codes "        key.write_char(' ')"
    ∷ codes "      }"
    ∷ codes "      key.write_string(stack[i].to_string())"
    ∷ codes "    }"
    ∷ codes "    match entry_of(key.to_string()) {"
    ∷ codes "      None => return None"
    ∷ codes "      // The signature is proof the recorded context is this one. Failing"
    ∷ codes "      // that, the message may still be borrowed if it names only tokens this"
    ∷ codes "      // state accepts -- see `message_fits`."
    ∷ codes "      Some(Msg(m)) =>"
    ∷ codes "        return if m.signature == signature || message_fits(m.text, signature) {"
    ∷ codes "          Some(m)"
    ∷ codes "        } else {"
    ∷ codes "          None"
    ∷ codes "        }"
    ∷ codes "      Some(Deeper) => continue"
    ∷ codes "    }"
    ∷ codes "  }"
    ∷ codes "  None"
    ∷ codes "}"
    ∷ []
    ∷ codes "///|"
    ∷ codes "fn entry_of(key : String) -> Entry? {"
    ∷ codes "  match key {"
    ∷ g.body
    ∷ codes "    _ => None"
    ∷ codes "  }"
    ∷ codes "}"
    ∷ []
    ∷ codes "///|"
    ∷ codes "fn entry_of_reduced(key : String) -> Entry? {"
    ∷ codes "  match key {"
    ∷ g.reduced_body
    ∷ codes "    _ => None"
    ∷ codes "  }"
    ∷ codes "}"
    ∷ []
    ∷ []

unfoldable pub messages_file : Generated → Text
messages_file g = join (codes "\n") (file_head g ++ file_body g)

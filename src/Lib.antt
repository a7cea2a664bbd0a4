-- ===== src/Lib.antt =====
-- wax-mb: a model of the Python tools of the repository, with the theorems that make them correct.
--
-- tools/waxdiff.py is the differential test harness of the MoonBit port of Wax. It runs the
-- implementation under test and the reference over a corpus and grades each file by four oracles.
-- tools/gen_parser_messages.py rekeys the reference's syntax messages onto the stacks of the
-- port's parser. tools/grammar_fidelity.py compares the port's grammar with the reference's.
-- tools/gen-stdlib-test.py embeds the ported standard library in a test. tools/api_audit.py reports
-- the public names that no other package uses. tools/gen-wisp-runtime.py embeds the runtime of wisp.
--
-- Base is shared: tests, lists, texts as lists of code points with Python's methods, lines, parts of
-- a split text, integers.
-- Waxdiff.Process     Run, _capped, run, wax, impl_run; the record System is what stands outside
-- Waxdiff.Diagnostics parse_jsonl, d.get, normalize_file
-- Waxdiff.Records     the buckets, the policy, Failure, Outcome
-- Waxdiff.Verdict     what a grading does to the counters, with a rule for each way to end
-- Waxdiff.Reprint     check_oracle1, _check_idempotent
-- Waxdiff.Binary      check_oracle2, _ladder, _stripped_wat
-- Waxdiff.Errors      check_oracle3, SPAN_FIELDS, SPAN_EXEMPT
-- Waxdiff.TextFormat  check_oracle4
-- Waxdiff.Report      cmd_run
-- Waxdiff.Policy      load_policy
-- Waxdiff.Main        default_jobs, the options of run, and what cmd_run reads before it grades
-- Waxdiff.Golden      classify_one, write_golden, the loop of cmd_golden; Command has corpus_files,
--                     cmd_golden, cmd_classify and load_index, and WholeRun puts golden and run
--                     together
-- Waxdiff.Cram        _cram_commands, _cram_wax_reason, _cram_reason, the selection and
--                     the report of cmd_classify_cram (Scope, Report)
-- Waxdiff.Collect     collect_cram, collect_docs (Docs), collect_wat, collect_spec, cmd_collect
--                     (Recorded has its counts and its manifest), and cmd_adopt (Adopt)
-- Waxdiff.Fuzz        tokenize (Tokens), mutate, render_tokens, _is_finding9, _is_finding12, grade,
--                     minimize, cmd_fuzz (Command)
-- Messages.Key        key_of
-- Messages.Table      build, max_depth, and the lookup of the generated file
-- Messages.Render     lexeme, render
-- Messages.Golden     aliases, entries, labels_of, states_of
-- Messages.Arms       mbt_string, arms_of
-- Messages.Collect    the loop of main over the sentences, and what it writes and counts
-- Messages.Reductions on_error_reduce_ids, with what it reads from the generated parser (Tables)
-- Messages.File       the two files that are written
-- Grammar.Strip       strip_ocaml_comments, strip_actions
-- Grammar.Parse       parse_grammar
-- Grammar.Compare     main of grammar_fidelity.py
-- Audit               public_names, aliases_for and main of api_audit.py
-- Stdlib              literal, ident and main of gen-stdlib-test.py
-- Wisp                gen-wisp-runtime.py
--
-- The parts meet where the source calls across them: cmd_run and grade call the oracles of
-- Waxdiff.Reprint, Binary, Errors and TextFormat, cmd_fuzz calls tokenize, mutate, grade and
-- minimize, cmd_golden leaves the index and the goldens that cmd_run then reads, and main of the
-- generator feeds what it collects to build and its tables to arms_of.
--
-- Conventions. A child process is a function of the files, its arguments and its standard input;
-- that it leaves the files as they are, but for the output of `wasm-tools strip`, is assumed.
-- Temporary files have one fixed path and are not deleted. json.loads, json.dumps, sha256, the
-- UTF-8 codecs and the random generator are parameters; so are the listings of directories, what
-- errstate and moonyacc print, and the modules that wasm-tools splits a script into. The wording
-- of a failure's detail is a constructor with the values that the wording is made from; difflib
-- is not modelled. An exception is `none`. CORPUS and GOLDEN, which grade rebinds, are
-- arguments. The thread pool is a loop: the results are taken in the order of the files. A
-- regular expression of the source is a scanner by clauses: none of them has two ways to match
-- from one place, so that there is nothing to backtrack to. White space, letters and digits are
-- those of ASCII. A text that a JSON file holds is decoded with replacement, where the source
-- stops at one that is not UTF-8; the other texts are decoded as the source does.
--
-- The lookup's test of the signature, with the parser's message_fits, is an argument.
--
-- Fuel. minimize recurs on the attempts that are left in the inner loop, and on the first width
-- plus the budget plus one in the outer one, where each round spends an attempt or halves the
-- width. build recurs on the frames that are left below the depth, those of the longest stack to
-- begin with. str takes as many digits as the number at most. tokenize, the sections of a grammar
-- and the substitutions in an alternative recur on the characters that are left.
--
-- Not modelled: argparse and the dispatch of main, the wording of what is printed, and the drift
-- files. The JSON of the index, the manifest and the policy is read and written by parameters. The
-- MoonBit sources are outside this model.
pub mod Base
pub mod Messages
pub mod Grammar
pub mod Stdlib
pub mod Wisp
pub mod Audit
pub mod Waxdiff

-- ===== src/Grammar.antt =====
-- `tools/grammar_fidelity.py`: the two grammars are stripped (`Strip`), read (`Parse`) and compared
-- by names and production counts (`Compare`).
pub mod Strip
pub mod Parse
pub mod Compare
pub mod Examples

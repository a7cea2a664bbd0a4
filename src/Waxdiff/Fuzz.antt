-- ===== src/Waxdiff/Fuzz.antt =====
-- Fuzzing: mutants (`Mutate`), the shapes of two recorded findings (`Findings`), grading (`Grade`)
-- and shrinking a find (`Minimize`).
pub mod Tokens
pub mod Mutate
pub mod Examples
pub mod Findings
pub mod Grade
pub mod Minimize
pub mod Command

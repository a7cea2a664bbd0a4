-- ===== src/Waxdiff.antt =====
-- tools/waxdiff.py, the differential test harness: one module for each of its parts.
pub mod Process
pub mod Diagnostics
pub mod Records
pub mod Verdict
pub mod Policy
pub mod Main
pub mod Reprint
pub mod Errors
pub mod Binary
pub mod TextFormat
pub mod Report
pub mod Golden
pub mod Cram
pub mod Collect
mod Examples
pub mod Fuzz

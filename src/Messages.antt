-- ===== src/Messages.antt =====
-- tools/gen_parser_messages.py: the reference's syntax messages, keyed by our parser's stacks.
pub mod Key
pub mod Table
pub mod Render
pub mod Arms
pub mod Golden
pub mod Collect
pub mod File
pub mod Reductions
mod Examples

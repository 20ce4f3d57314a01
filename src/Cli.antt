-- ===== src/Cli.antt =====
-- The command line, cmd/cli.
pub mod Batch
pub mod Confirm
pub mod Shell
pub mod Main

-- ===== src/Tests.antt =====
-- The theorems at concrete inputs, and runs of the code.
mod Logged
mod Statements
mod Splitting
mod Sessions
mod Results
mod Registries
mod Commands
mod Logs
mod Transactions
mod Batches
mod Streams
mod Shell

-- ===== src/Lib.antt =====
-- A model of sql-cli, a guarded client for SQL databases in Go: its texts, its guards and its
-- queries are translated to functions, its transactions and its streams also to step relations, and
-- the theorems say what reaches the database and what comes back.
--
-- A statement comes from the command line or a file. SplitStatements cuts a file into statements
-- (internal/sqlnorm/split.go). A session (pkg/db) runs one at a time: Exec asks pkg/guard and
-- internal/sqlnorm whether the statement may pass, a query function puts a LIMIT behind it, and both
-- call sqlx; a stream hands the rows through a channel to its consumer. A transaction has the same
-- operations behind a check of its status, with a goroutine that rolls it back on a timeout. A batch
-- (cmd/cli) runs the statements of a file, in one transaction or each on its own; the shell runs the
-- statements of its lines. The command line chooses the DSN and the driver (pkg/dsn), and
-- pkg/registry keeps sessions under names.
--
-- The files, with the Go files they follow:
--   Base            lists, options, numbers, texts and maps (Base/Assoc) that all the others use
--   Strings         the functions of package strings that the program calls, on ASCII texts
--   Sqlnorm/Quoted, Keyword, Operation, Itoa, Limit
--                   internal/sqlnorm/sqlnorm.go and pagination.go: stripQuoted; matchKeyword and
--                   HasWHERE, HasLIMIT, HasOFFSET; Operation and its tests; itoa; AppendLIMIT,
--                   AppendOFFSET, ApplyCursor
--   Sqlnorm/Split   internal/sqlnorm/split.go: SplitStatements
--   Guard           pkg/guard/guard.go: Policy, IsDangerousOp, Check
--   Config          pkg/config/config.go: Config, DefaultConfig and the options
--   Db/Types        pkg/result/result.go and the errors of pkg/db
--   Db/Driver       what the program calls of sqlx, as a record that the operations take
--   Db/Exec         pkg/db/executor.go, and Exec of pkg/db/transaction.go
--   Db/Rows         the loop over a result set of pkg/db/query.go
--   Db/Query        pkg/db/query.go, pkg/db/query_read.go, and the queries of
--                   pkg/db/transaction.go
--   Db/Transaction  the status of pkg/db/transaction.go, Commit, Rollback and the goroutine
--                   (and Begin of pkg/db/session.go); in Race the calls of several goroutines, and in
--                   Calls any sequence of calls
--   Db/Slots        the concurrency slots of pkg/db/session.go, which pkg/db/stream.go takes
--   Db/Stream       StreamResult of pkg/result/result.go and QueryStream of pkg/db/stream.go; in Moves
--                   the goroutine and the consumer as a step relation
--   Db/Open         pkg/db/driver.go, the constructors of pkg/db/session.go, and the factories of
--                   pkg/db/mysql, pkg/db/postgres and pkg/db/sqlite
--   Registry        pkg/registry/registry.go, and in Refine the map it stands for
--   Dsn             pkg/dsn/parse.go: Detect
--   Sanitize        internal/sanitize/sanitize.go
--   Cli/Batch       cmd/cli/batch.go: several statements, in one transaction or without one
--   Cli/Confirm     execWithConfirmation of cmd/cli/main.go
--   Cli/Shell       executeStmt of cmd/cli/shell.go, with executeQuery and executeExec; in Loop the
--                   loop of runShell
--   Cli/Main        loadDotEnv, looksLikeDSN and main of cmd/cli/main.go: the choice of DSN, statement
--                   and driver, and the commands query and exec with a file; in Dispatch the
--                   course of main up to its command
-- A child such as Sqlnorm/Limit/Kept holds what is proved of its parent.
--
-- A Go string is a list of bytes and the texts are ASCII: for others ToUpper and TrimSpace look at
-- characters of several bytes. An int is an integer; `-n` in itoa wraps at the least int64, and no
-- other arithmetic of the model can leave 64 bits. A call of the database is a function on its
-- state. A function that returns a Go error gives a Result, and a Go panic is a value of its own.
-- The warnings and the results are in, the log lines are not.
--
-- Fuel: the search of matchKeyword runs on the length of the text and two more rounds, and each round
-- starts further in the text, so the fuel is never used up (Sqlnorm/Keyword/Search.antt). The digits
-- of itoa run on the free places of its buffer, as in the source. `%d` runs on the number itself.
--
-- In a stream each operation on a channel is one step, and so is what the goroutine does between two
-- of them; a wait is a state in which the step is not there. It needs no fuel: the steps of the
-- goroutine are counted (Db/Stream/Progress.antt). The order in which a loop meets the entries of a Go
-- map is a parameter of Registry, of which is asked that each entry comes once.
--
-- Not modelled: the drivers and sqlx (parameters), log lines, Stats of a session, and of the command
-- line the flags, the terminal, the printing and the exit. The timeout of a transaction is a step of
-- Db/Transaction/Race and does not fire inside a batch. That a stream closes its result set is left
-- out, and so are the declarations of pkg/db/db.go but for the calls of a transaction.

mod Base
pub mod Strings
pub mod Sqlnorm
pub mod Guard
pub mod Config
pub mod Db
pub mod Registry
pub mod Dsn
pub mod Sanitize
pub mod Cli
mod Tests

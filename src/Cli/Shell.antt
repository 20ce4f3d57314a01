-- ===== src/Cli/Shell.antt =====
-- cmd/cli/shell.go: what the shell does with one statement.
pub mod Loop
pub mod Refused
use sql_cli.Base.{Bool, Bytes, Option, [], ap, codes, false, if◌then◌else◌, none, some, ℤ, ◌≡◌}
use sql_cli.Cli.Confirm.{allowing, with_config}
use sql_cli.Config.{Config}
use sql_cli.Db.Driver.{Ctx, Driver, Timing}
use sql_cli.Db.Exec.{exec, exec_prefix}
use sql_cli.Db.Exec.Safety.{Refuses, exec-stopped}
use sql_cli.Db.Query.{query, query_read, query_with_options}
use sql_cli.Db.Types.{
  Error, ExecResult, Outcome, QueryResult, Result, err, error_text, ok, panicked, returned, wrap,
}
use sql_cli.Sqlnorm.Operation.{is_read_operation, is_select, operation}

pub data ShellResult : Type 0 where
  failed : Bytes → ShellResult
  queried : QueryResult → ShellResult
  executed : ExecResult → ShellResult

pub record ShellOutput : Type 0 where
  pub statement : Bytes
  pub type_name : Bytes
  pub result : ShellResult

abbrev pub query_output : Bytes → Result QueryResult → ShellOutput
query_output sql (ok res) = record {
  statement = sql;
  type_name = codes "query";
  result = queried res;
}
query_output sql (err e) = record {
  statement = sql;
  type_name = codes "query";
  result = failed (error_text e);
}

-- `none`: the query panics.
abbrev pub query_outcome : Bytes → Outcome QueryResult → Option ShellOutput
query_outcome sql (returned r) = some (query_output sql r)
query_outcome sql panicked = none

abbrev pub exec_output : Bytes → Result ExecResult → ShellOutput
exec_output sql (ok res) = record {
  statement = sql;
  type_name = codes "exec";
  result = executed res;
}
exec_output sql (err e) = record {
  statement = sql;
  type_name = codes "exec";
  result = failed (error_text e);
}

module _ (drv : Driver) (cfg : Config) (ctx : Ctx) (t : Timing) where
  open drv use {Db}

  -- `executeQuery`.
  unfoldable pub execute_query : Bytes → ℤ → ℤ → Db → Db × Option ShellOutput
  execute_query sql limit offset db =
      let (db', r) =
        if is_select (operation sql)
        then query_with_options drv cfg ctx t sql limit offset [] db
        else query_read drv cfg ctx t sql [] db in
      (db', query_outcome sql r)

  abbrev pub forced : Bool → Config
  forced force = if force then allowing cfg else cfg

  -- `executeExec`.
  unfoldable pub execute_exec : Bytes → Bool → Db → Config × Db × Option ShellOutput
  execute_exec sql force db =
      let (db', r) = exec drv (forced force) ctx t sql [] db in
      (forced force, db', some (exec_output sql r))

  -- `executeStmt`.
  unfoldable pub execute_stmt : Bytes → ℤ → ℤ → Bool → Db → Config × Db × Option ShellOutput
  execute_stmt sql limit offset force db =
      if is_read_operation (operation sql)
      then with_config cfg (execute_query sql limit offset db)
      else execute_exec sql force db

  -- Without force, the shell keeps a statement that is no read and that the configuration refuses
  -- away from the database, and prints the error.
  pub execute_stmt-refused :
      (sql : Bytes) (limit offset : ℤ) (db : Db) {e : Error}
      → is_read_operation (operation sql) ≡ false
      → Refuses cfg sql e
      → execute_stmt sql limit offset false db
        ≡ (cfg, db, some (exec_output sql (err (wrap (exec_prefix (operation sql)) e))))
  unfolding execute_stmt execute_exec
  execute_stmt-refused sql limit offset db write r =
      rw write
        (ap (λ p. (cfg, p.0, some (exec_output sql p.1))) (exec-stopped drv cfg ctx t sql [] db r))

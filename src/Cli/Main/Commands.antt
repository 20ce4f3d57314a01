-- ===== src/Cli/Main/Commands.antt =====
-- What the commands of `main` do with the database.

use sql_cli.Cli.Batch.Loop.{tx_call}
use sql_cli.Cli.Batch.{Clock, batch_exec}
use sql_cli.Cli.Batch.Atomic.{batch_exec_in_tx-outcome, outcome}
use sql_cli.Sqlnorm.Split.{split_statements}
use sql_cli.Cli.Confirm.{allowing}
use sql_cli.Cli.Batch.Answers.{answers}
use sql_cli.Base.{
  Bool, Bool-cases, Bytes, List, ap, false, if◌then◌else◌, inl, inr, ltb_ℤ, pos, refl, true, ℤ, ◌∙◌,
  ◌∷◌, ◌≡◌,
}
use sql_cli.Cli.Main.{batch_answer, exec_file, exec_statements, query_command}
use sql_cli.Config.{Config}
use sql_cli.Db.Driver.{Ctx, Driver, Timing}
use sql_cli.Db.Query.{guarded_query, query, query_prefix, query_with_limit, query_with_offset}
use sql_cli.Db.Types.{err, non_select_query, ok, returned, wrap}
use sql_cli.Sqlnorm.Operation.{is_select, operation}

module _ (drv : Driver) (cfg : Config) (ctx : Ctx) where
  open drv use {Db}

  -- Whatever the flags of limit and offset, the command `query` refuses what is no SELECT, and the
  -- database is not called.
  pub query_command-refused :
      (t : Timing) (sql : Bytes) (limit offset : ℤ) (db : Db)
      → is_select (operation sql) ≡ false
      → query_command drv cfg ctx t sql limit offset db
        ≡ (db, returned (err (wrap (query_prefix (operation sql)) non_select_query)))
  unfolding query_command query query_with_limit query_with_offset guarded_query
  query_command-refused t sql limit offset db sel = elim (Bool-cases (ltb_ℤ (pos 0) offset)) [
    | inl h ↦ rw (h, sel) refl
    | inr h ↦ elim (Bool-cases (ltb_ℤ (pos 0) limit)) [
      | inl k ↦ rw (h, k, sel) refl
      | inr k ↦ rw (h, k, sel) refl
    ]
  ]

  -- In a transaction, the command `exec` with a file runs the statements it splits into, without
  -- the policy where it was confirmed, as one transaction does: its outcome is that of the batch.
  pub exec_file-outcome :
      (clock : Clock) (confirmed continue_on_error : Bool) (path content : Bytes) (db : Db)
      {stmt : Bytes} {rest : List Bytes} {db' : Db} {tx : drv.Tx}
      → split_statements content ≡ stmt ∷ rest
      → drv.begin_txx ctx db ≡ (db', ok tx)
      → let cfg' = if confirmed then allowing cfg else cfg in
        exec_file drv cfg ctx clock confirmed true continue_on_error path content db
        ≡ batch_answer cfg' (
            outcome drv cfg' ctx clock continue_on_error tx
              (stmt ∷ rest)
              (answers (tx_call drv cfg' ctx clock tx) continue_on_error 0 (stmt ∷ rest) db'))
  unfolding exec_file batch_exec
  exec_file-outcome clock confirmed continue_on_error path content db {stmt} {rest} {db'} {tx} h b =
      let cfg' = if confirmed then allowing cfg else cfg in
      ap (λ l. exec_statements drv cfg ctx clock confirmed true continue_on_error path l db) h
      ∙ ap (batch_answer cfg')
          (batch_exec_in_tx-outcome drv cfg' ctx clock continue_on_error (stmt ∷ rest) db b)

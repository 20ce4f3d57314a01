-- ===== src/Db/Exec.antt =====
-- pkg/db/executor.go, and `Exec` of pkg/db/transaction.go behind its check of the status.
pub mod Safety
pub mod Dangerous
use sql_cli.Base.{Bytes, List, Option, codes, if◌then◌else◌, none, not, some, ℕ, ◌&&◌, ◌++◌}
use sql_cli.Config.{Config}
use sql_cli.Db.Driver.{Ctx, Driver, ExecOutcome, Timing, with_timeout}
use sql_cli.Db.Types.{
  Error, ExecResult, Result, Value, err, guarded, new_exec_result, ok, unconditional_modify, wrap,
  wrapped, ◌>>=◌,
}
use sql_cli.Guard.{check}
use sql_cli.Sqlnorm.Keyword.{has_where}
use sql_cli.Sqlnorm.Operation.{operation, requires_where}

abbrev pub exec_prefix : Bytes → Bytes
exec_prefix op = codes "exec " ++ op

-- The two guards: the error that stops the statement, if one does.
unfoldable pub exec_guards : Config → Bytes → Option Error
exec_guards cfg sql = elim (check cfg.dangerous_op_policy sql) [
  | some e ↦ some (guarded e)
  | none ↦
      if cfg.reject_no_where && requires_where (operation sql) && not (has_where sql)
      then some unconditional_modify
      else none
]

unfoldable pub exec_result : ℕ → ExecOutcome → ExecResult
exec_result elapsed o = new_exec_result o.last_id o.affected elapsed

abbrev pub on_ok {ℓ} : {A B : Type ℓ} → (A → B) → Result A → Result B
on_ok f r = r >>= λ a. ok (f a)

module _ (drv : Driver) where
  open drv use {Db, Tx, rebind, exec_context, tx_exec_context}

  -- `Session.Exec`.
  unfoldable pub exec : Config → Ctx → Timing → Bytes → List Value → Db → Db × Result ExecResult
  exec cfg ctx t sql args db =
      let prefix = exec_prefix (operation sql) in
      let (db', r) = exec_context (with_timeout cfg t.now ctx) (rebind sql) args db in
      elim (exec_guards cfg sql) [
        | some e ↦ (db, err (wrap prefix e))
        | none ↦ (db', wrapped prefix (on_ok (exec_result t.elapsed) r))
      ]

  -- `transaction.Exec` on an active transaction. The source rebinds twice.
  unfoldable pub tx_exec :
      Config → Tx → Ctx → Timing → Bytes → List Value → Db → Db × Result ExecResult
  tx_exec cfg tx ctx t sql args db =
      let prefix = exec_prefix (operation sql) in
      let (db', r) = tx_exec_context tx ctx (rebind (rebind sql)) args db in
      elim (exec_guards cfg sql) [
        | some e ↦ (db, err (wrap prefix e))
        | none ↦ (db', wrapped prefix (on_ok (exec_result t.elapsed) r))
      ]

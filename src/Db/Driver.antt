-- ===== src/Db/Driver.antt =====
-- What the program calls of sqlx and of the database behind it, as a parameter: a state, and the
-- calls as functions on it. A result set is what iterating over it gives.
use sql_cli.Base.{Bytes, List, Option, if◌then◌else◌, ltb_ℤ, none, pos, pos_part, some, ℕ, ℤ, ◌+◌}
use sql_cli.Config.{Config}
use sql_cli.Db.Types.{Error, Result, Value}

-- A context: its deadline, in nanoseconds.
pub record Ctx : Type 0 where
  pub deadline : Option ℕ

-- The clock, as one call reads it: the time at its start, and how long the database took.
pub record Timing : Type 0 where
  pub now : ℕ
  pub elapsed : ℕ

-- `LastInsertId()` and `RowsAffected()` of a `sql.Result`; their errors are dropped.
pub record ExecOutcome : Type 0 where
  pub last_id : ℤ
  pub affected : ℤ

abbrev pub Row : Type 0
Row = List (Bytes × Value)

-- `rows.Columns()`, each `rows.MapScan`, and `rows.Err()`.
pub record Rows : Type 0 where
  pub columns : Result (List Bytes)
  pub scans : List (Result Row)
  pub end_error : Option Error

pub record Driver : Type 1 where
  pub Db : Type 0
  pub Tx : Type 0
  pub rebind : Bytes → Bytes
  pub exec_context : Ctx → Bytes → List Value → Db → Db × Result ExecOutcome
  pub queryx_context : Ctx → Bytes → List Value → Db → Db × Result Rows
  pub begin_txx : Ctx → Db → Db × Result Tx
  pub tx_exec_context : Tx → Ctx → Bytes → List Value → Db → Db × Result ExecOutcome
  pub tx_queryx_context : Tx → Ctx → Bytes → List Value → Db → Db × Result Rows
  pub tx_commit : Tx → Db → Db × Option Error
  pub tx_rollback : Tx → Db → Db × Option Error

-- The session's query timeout, where the context has no deadline.
unfoldable pub with_timeout : Config → ℕ → Ctx → Ctx
with_timeout cfg now ctx =
    if ltb_ℤ (pos 0) cfg.query_timeout
    then elim ctx.deadline [
      | none ↦ record ctx { deadline = some (now + pos_part cfg.query_timeout) }
      | some d ↦ ctx
    ]
    else ctx

-- ===== src/Db/Transaction.antt =====
-- pkg/db/transaction.go: the life of a transaction. `done` says that the channel was closed; closing
-- it again is a Go panic.
pub mod Race
pub mod Closed
pub mod Calls
use sql_cli.Base.{Bool, Bytes, List, Option, codes, false, if◌then◌else◌, none, some, true, ℤ}
use sql_cli.Config.{Config}
use sql_cli.Db.Driver.{Ctx, Driver, Timing}
use sql_cli.Db.Exec.{exec_prefix, on_ok, tx_exec}
use sql_cli.Db.Query.{query_prefix, tx_query, tx_query_with_offset}
use sql_cli.Db.Types.{
  Error, ExecResult, Outcome, QueryResult, Result, Value, err, ok, panicked, returned, tx_done,
  wrap, wrapped,
}
use sql_cli.Sqlnorm.Operation.{operation}

pub data Status : Type 0 where
  active committed rolled_back : Status

pub record Transaction : Type 0 where
  pub status : Status
  pub done : Bool

-- `newTransaction`.
unfoldable pub new_transaction : Transaction
new_transaction = record { status = active; done = false }

pub data Marked : Type 0 where
  marked : Transaction → Marked
  failed : Error → Marked
  panics : Marked

-- `t.status = s; close(t.done)`.
unfoldable pub settle : Status → Transaction → Marked
settle s t = if t.done then panics else marked (record { status = s; done = true })

abbrev pub mark_committed_in : Status → Transaction → Marked
mark_committed_in committed t = failed (wrap (codes "commit") tx_done)
mark_committed_in rolled_back t = failed (wrap (codes "commit") tx_done)
mark_committed_in active t = settle committed t

unfoldable pub mark_committed : Transaction → Marked
mark_committed t = mark_committed_in t.status t

abbrev pub mark_rolled_back_in : Status → Transaction → Marked
mark_rolled_back_in committed t = failed tx_done
mark_rolled_back_in rolled_back t = marked t
mark_rolled_back_in active t = settle rolled_back t

unfoldable pub mark_rolled_back : Transaction → Marked
mark_rolled_back t = mark_rolled_back_in t.status t

abbrev pub is_active : Status → Bool
is_active active = true
is_active _ = false

-- `checkActive`.
unfoldable pub check_active : Transaction → Option Error
check_active t = if is_active t.status then none else some tx_done

abbrev pub reported : Bytes → Option Error → Result (Unit {0})
reported prefix none = ok tt
reported prefix (some e) = err (wrap prefix e)

module _ (drv : Driver) where
  open drv use {Db, Tx, begin_txx, tx_commit, tx_rollback}

  -- `Session.Begin`; the context of the timeout is left to the goroutine.
  unfoldable pub begin : Ctx → Db → Db × Result (Tx × Transaction)
  begin ctx db =
      let (db', r) = begin_txx ctx db in
      (db', wrapped (codes "begin transaction") (on_ok (λ tx. (tx, new_transaction)) r))

  -- `Commit`: the status is marked before the database is called.
  unfoldable pub commit : Tx → Transaction → Db → Transaction × Db × Outcome (Unit {0})
  commit tx t db =
      let (db', e) = tx_commit tx db in
      elim (mark_committed t) [
        | marked t' ↦ (t', db', returned (reported (codes "commit") e))
        | failed e' ↦ (t, db, returned (err e'))
        | panics ↦ (record t { status = committed }, db, panicked)
      ]

  -- `Rollback`.
  unfoldable pub rollback : Tx → Transaction → Db → Transaction × Db × Outcome (Unit {0})
  rollback tx t db =
      let (db', e) = tx_rollback tx db in
      elim (mark_rolled_back t) [
        | marked t' ↦ (t', db', returned (reported (codes "rollback") e))
        | failed e' ↦ (t, db, returned (err (wrap (codes "rollback") e')))
        | panics ↦ (record t { status = rolled_back }, db, panicked)
      ]

  -- The case of the timeout in the goroutine of `newTransaction`; the channel stays open.
  unfoldable pub auto_rollback : Tx → Transaction → Db → Transaction × Db
  auto_rollback tx t db =
      if is_active t.status
      then (record t { status = rolled_back }, (tx_rollback tx db).0)
      else (t, db)

  -- `transaction.Exec`.
  unfoldable pub transaction_exec :
      Config → Tx → Transaction → Ctx → Timing → Bytes → List Value → Db → Db × Result ExecResult
  transaction_exec cfg tx t ctx timing sql args db = elim (check_active t) [
    | some e ↦ (db, err (wrap (exec_prefix (operation sql)) e))
    | none ↦ tx_exec drv cfg tx ctx timing sql args db
  ]

  -- `transaction.Query`.
  unfoldable pub transaction_query :
      Config → Tx → Transaction → Ctx → Timing → Bytes → List Value → Db → Db × Outcome QueryResult
  transaction_query cfg tx t ctx timing sql args db = elim (check_active t) [
    | some e ↦ (db, returned (err (wrap (query_prefix (operation sql)) e)))
    | none ↦ tx_query drv cfg tx ctx timing sql args db
  ]

  -- `transaction.QueryWithOffset`.
  unfoldable pub transaction_query_with_offset :
      Config
      → Tx
      → Transaction
      → Ctx
      → Timing
      → Bytes
      → ℤ
      → ℤ
      → List Value
      → Db
      → Db × Outcome QueryResult
  transaction_query_with_offset cfg tx t ctx timing sql limit offset args db =
      elim (check_active t) [
        | some e ↦ (db, returned (err (wrap (query_prefix (operation sql)) e)))
        | none ↦ tx_query_with_offset drv cfg tx ctx timing sql limit offset args db
      ]

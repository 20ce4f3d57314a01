-- ===== src/Db/Transaction/Closed.antt =====
-- `Commit` and `Rollback` of pkg/db/transaction.go, and what ends a transaction again.
use sql_cli.Base.{arith, codes, false, ◌≡◌}
use sql_cli.Db.Driver.{Driver}
use sql_cli.Db.Transaction.{
  Transaction, active, auto_rollback, commit, mark_committed, mark_rolled_back, reported, rollback,
  settle,
}
use sql_cli.Db.Types.{err, returned, tx_done, wrap}

module _ (drv : Driver) (tx : drv.Tx) (t : Transaction) (db db' : drv.Db) where
  -- `Commit` of an active transaction calls the database's commit once, whether that fails or not,
  -- and ends the transaction: a second `Commit` and a `Rollback` are refused with no call, and the
  -- timeout does nothing.
  pub commit_ends :
      t.status ≡ active
      → t.done ≡ false
      → let (t', after, r) = commit drv tx t db in
        (after ≡ (drv.tx_commit tx db).0)
        × (r ≡ returned (reported (codes "commit") (drv.tx_commit tx db).1))
        × (commit drv tx t' db' ≡ (t', db', returned (err (wrap (codes "commit") tx_done))))
        × (rollback drv tx t' db' ≡ (t', db', returned (err (wrap (codes "rollback") tx_done))))
        × (auto_rollback drv tx t' db' ≡ (t', db'))
  unfolding commit rollback auto_rollback mark_committed mark_rolled_back settle
  commit_ends a d = (ground arith, ground arith, ground arith, ground arith, ground arith)

  -- `Rollback` of an active transaction calls the database's rollback once and ends the transaction:
  -- a `Commit` is refused with no call, and the timeout does nothing. A second `Rollback` is passed
  -- on to the database.
  pub rollback_ends :
      t.status ≡ active
      → t.done ≡ false
      → let (t', after, r) = rollback drv tx t db in
        (after ≡ (drv.tx_rollback tx db).0)
        × (r ≡ returned (reported (codes "rollback") (drv.tx_rollback tx db).1))
        × (commit drv tx t' db' ≡ (t', db', returned (err (wrap (codes "commit") tx_done))))
        × ((rollback drv tx t' db').1 ≡ (drv.tx_rollback tx db').0)
        × (auto_rollback drv tx t' db' ≡ (t', db'))
  unfolding commit rollback auto_rollback mark_committed mark_rolled_back settle
  rollback_ends a d = (ground arith, ground arith, ground arith, ground arith, ground arith)

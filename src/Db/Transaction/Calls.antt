-- ===== src/Db/Transaction/Calls.antt =====
-- Any sequence of the calls of a transaction (pkg/db/db.go, pkg/db/transaction.go), one after the
-- other, and of its timeout.
use sql_cli.Base.{Bool, Bytes, List, [], codes, false, refl, ℤ, ◌∷◌, ◌≡◌}
use sql_cli.Config.{Config}
use sql_cli.Db.Driver.{Ctx, Driver, Timing}
use sql_cli.Db.Exec.{exec_prefix}
use sql_cli.Db.Query.{answer, query_prefix}
use sql_cli.Db.Transaction.{
  Transaction, active, auto_rollback, check_active, commit, committed, mark_committed,
  mark_rolled_back, rollback, rolled_back, settle, transaction_exec, transaction_query,
  transaction_query_with_offset,
}
use sql_cli.Db.Types.{ExecResult, Outcome, QueryResult, Result, Value, err, returned, tx_done, wrap}
use sql_cli.Sqlnorm.Operation.{operation}

pub data TxCall : Type 0 where
  exec_call query_call : Ctx → Timing → Bytes → List Value → TxCall
  offset_call : Ctx → Timing → Bytes → ℤ → ℤ → List Value → TxCall
  commit_call rollback_call timeout_call : TxCall

pub data TxAnswer : Type 0 where
  executed : Result ExecResult → TxAnswer
  queried : Outcome QueryResult → TxAnswer
  ended : Outcome (Unit {0}) → TxAnswer
  nothing : TxAnswer

-- The answer of a committed transaction.
abbrev pub tx_refusal : TxCall → TxAnswer
tx_refusal (exec_call ctx timing sql args) =
    executed (err (wrap (exec_prefix (operation sql)) tx_done))
tx_refusal (query_call ctx timing sql args) =
    queried (returned (err (wrap (query_prefix (operation sql)) tx_done)))
tx_refusal (offset_call ctx timing sql limit offset args) =
    queried (returned (err (wrap (query_prefix (operation sql)) tx_done)))
tx_refusal commit_call = ended (returned (err (wrap (codes "commit") tx_done)))
tx_refusal rollback_call = ended (returned (err (wrap (codes "rollback") tx_done)))
tx_refusal timeout_call = nothing

abbrev pub tx_refusals : List TxCall → List TxAnswer
tx_refusals [] = []
tx_refusals (call ∷ calls) = tx_refusal call ∷ tx_refusals calls

module _ (drv : Driver) (cfg : Config) (tx : drv.Tx) where
  open drv use {Db, tx_commit, tx_rollback}

  abbrev pub transaction_call : TxCall → Transaction → Db → Transaction × Db × TxAnswer
  transaction_call (exec_call ctx timing sql args) t db =
      let (db', r) = transaction_exec drv cfg tx t ctx timing sql args db in (t, db', executed r)
  transaction_call (query_call ctx timing sql args) t db =
      let (db', r) = transaction_query drv cfg tx t ctx timing sql args db in (t, db', queried r)
  transaction_call (offset_call ctx timing sql limit offset args) t db =
      let (db', r) =
        transaction_query_with_offset drv cfg tx t ctx timing sql limit offset args db in
      (t, db', queried r)
  transaction_call commit_call t db = let (t', db', r) = commit drv tx t db in (t', db', ended r)
  transaction_call rollback_call t db =
      let (t', db', r) = rollback drv tx t db in (t', db', ended r)
  transaction_call timeout_call t db =
      let (t', db') = auto_rollback drv tx t db in (t', db', nothing)

  abbrev pub transaction_calls : List TxCall → Transaction → Db → Transaction × Db × List TxAnswer
  transaction_calls [] t db = (t, db, [])
  transaction_calls (call ∷ calls) t db =
      let (t', db', answer) = transaction_call call t db in
      let (t'', db'', answers) = transaction_calls calls t' db' in (t'', db'', answer ∷ answers)

  -- The database behind the calls of `Rollback` alone.
  abbrev pub rolled_again : List TxCall → Db → Db
  rolled_again [] db = db
  rolled_again (rollback_call ∷ calls) db = rolled_again calls (tx_rollback tx db).0
  rolled_again (_ ∷ calls) db = rolled_again calls db

  abbrev committed_tx : Bool → Transaction
  committed_tx done = record { status = committed; done = done }

  call-committed :
      (call : TxCall) (done : Bool) (db : Db)
      → transaction_call call (committed_tx done) db ≡ (committed_tx done, db, tx_refusal call)
  unfolding commit rollback auto_rollback mark_committed mark_rolled_back check_active
      transaction_exec transaction_query transaction_query_with_offset
  call-committed (exec_call ctx timing sql args) done db = refl
  call-committed (query_call ctx timing sql args) done db = refl
  call-committed (offset_call ctx timing sql limit offset args) done db = refl
  call-committed commit_call done db = refl
  call-committed rollback_call done db = refl
  call-committed timeout_call done db = refl

  calls-committed :
      (calls : List TxCall) (done : Bool) (db : Db)
      → transaction_calls calls (committed_tx done) db ≡ (committed_tx done, db, tx_refusals calls)
  calls-committed [] done db = refl
  calls-committed (call ∷ calls) done db =
      rw (call-committed call done db, calls-committed calls done db) refl

  abbrev rolled_back_tx : Bool → Transaction
  rolled_back_tx done = record { status = rolled_back; done = done }

  calls-rolled_back :
      (calls : List TxCall) (done : Bool) (db : Db)
      → (transaction_calls calls (rolled_back_tx done) db).1 ≡ rolled_again calls db
  unfolding commit rollback auto_rollback mark_committed mark_rolled_back check_active
      transaction_exec transaction_query transaction_query_with_offset
  calls-rolled_back [] done db = refl
  calls-rolled_back (exec_call ctx timing sql args ∷ calls) done db =
      calls-rolled_back calls done db
  calls-rolled_back (query_call ctx timing sql args ∷ calls) done db =
      calls-rolled_back calls done db
  calls-rolled_back (offset_call ctx timing sql limit offset args ∷ calls) done db =
      calls-rolled_back calls done db
  calls-rolled_back (commit_call ∷ calls) done db = calls-rolled_back calls done db
  calls-rolled_back (rollback_call ∷ calls) done db =
      calls-rolled_back calls done (tx_rollback tx db).0
  calls-rolled_back (timeout_call ∷ calls) done db = calls-rolled_back calls done db

  -- After the `Commit` of an active transaction no call reaches the database, whatever calls follow
  -- and in whatever order: each is refused with `ErrTxDone`, and the state of the transaction is
  -- kept. After its `Rollback`, or after its timeout, the database sees a further `Rollback` as often
  -- as that is called, and nothing else: no statement and no commit.
  pub calls_after_end :
      (calls : List TxCall) (t : Transaction) (db : Db)
      → t.status ≡ active
      → t.done ≡ false
      → (let (t', after, _) = commit drv tx t db in
          transaction_calls calls t' after ≡ (t', (tx_commit tx db).0, tx_refusals calls))
        × (let (t', after, _) = rollback drv tx t db in
            (transaction_calls calls t' after).1 ≡ rolled_again calls (tx_rollback tx db).0)
        × (let (t', after) = auto_rollback drv tx t db in
            (transaction_calls calls t' after).1 ≡ rolled_again calls (tx_rollback tx db).0)
  unfolding commit rollback auto_rollback mark_committed mark_rolled_back settle
  calls_after_end calls t db a d =
      rw (a, d)
        (calls-committed calls _ _, calls-rolled_back calls _ _, calls-rolled_back calls _ _)

-- ===== src/Cli/Batch.antt =====
-- cmd/cli/batch.go. A batch that panics has no results. The clock gives the time of each statement.
pub mod Answers
pub mod Loop
pub mod Atomic
pub mod Direct
use sql_cli.Base.{
  Bool, Bytes, List, Option, [], codes, false, if◌then◌else◌, none, not, pos, some, true, ℕ, ℤ,
  ◌++◌, ◌+◌, ◌∷◌,
}
use sql_cli.Config.{Config}
use sql_cli.Db.Driver.{Ctx, Driver, Timing}
use sql_cli.Db.Exec.{exec}
use sql_cli.Db.Transaction.{Transaction, begin, commit, rollback, transaction_exec}
use sql_cli.Db.Types.{Error, ExecResult, Outcome, Result, err, error_text, ok, panicked, returned}

pub record StmtResult : Type 0 where
  pub statement : Bytes
  pub last_insert_id : ℤ
  pub rows_affected : ℤ
  pub duration_ms : ℕ
  pub error : Bytes

abbrev pub Clock : Type 0
Clock = ℕ → Timing

abbrev pub failure : Bytes → Bytes → StmtResult
failure stmt said = record {
  statement = stmt;
  last_insert_id = pos 0;
  rows_affected = pos 0;
  duration_ms = 0;
  error = said;
}

-- What the loops append for a statement.
unfoldable pub stmt_result : Bytes → Result ExecResult → StmtResult
stmt_result stmt (ok res) = record {
  statement = stmt;
  last_insert_id = res.last_insert_id;
  rows_affected = res.rows_affected;
  duration_ms = res.duration_ms;
  error = [];
}
stmt_result stmt (err e) = failure stmt (error_text e)

-- The loop's variables, with the transaction and the database.
pub record Run (S : Type 0) : Type 0 where
  pub results : List StmtResult
  pub first_err : Option Error
  pub tx : Transaction
  pub db : S
  pub crashed : Bool

abbrev pub or_first : Option Error → Error → Option Error
or_first none e = some e
or_first (some first) e = some first

abbrev pub is_panic {ℓ} : {A : Type 0} {B : Type ℓ} → B → B → Outcome A → B
is_panic a b panicked = a
is_panic a b (returned r) = b

module _ (drv : Driver) (cfg : Config) (ctx : Ctx) (clock : Clock) (continue_on_error : Bool) where
  open drv use {Db, Tx}

  -- The statement failed and the loop stops.
  unfoldable pub stopped : Tx → Bytes → Error → Run Db → Run Db
  stopped tx stmt e run =
      let (t, db, out) = rollback drv tx run.tx run.db in
      record {
        results = run.results ++ stmt_result stmt (err e) ∷ [];
        first_err = or_first run.first_err e;
        tx = t;
        db = db;
        crashed = is_panic true false out;
      }

  -- The loop's body, on what `tx.Exec` returned; the third argument is the rest of the loop.
  unfoldable pub tx_step : Tx → Bytes → (Run Db → Run Db) → Run Db → Db × Result ExecResult → Run Db
  tx_step tx stmt next run (db, ok res) =
      next (record run { results = run.results ++ stmt_result stmt (ok res) ∷ []; db = db })
  tx_step tx stmt next run (db, err e) = elim continue_on_error [
    | true ↦ next (record run {
      results = run.results ++ stmt_result stmt (err e) ∷ [];
      first_err = or_first run.first_err e;
      db = db;
    })
    | false ↦ stopped tx stmt e (record run { db = db })
  ]

  -- The loop of `batchExecInTx`.
  unfoldable pub tx_loop : Tx → ℕ → List Bytes → Run Db → Run Db
  tx_loop tx i [] run = run
  tx_loop tx i (stmt ∷ rest) run =
      tx_step tx stmt (tx_loop tx (i + 1) rest) run
        (transaction_exec drv cfg tx run.tx ctx (clock i) stmt [] run.db)

  abbrev pub commit_results : List StmtResult → Outcome (Unit {0}) → Option (List StmtResult)
  commit_results results (returned (ok u)) = some results
  commit_results results (returned (err e)) =
      some (results ++ failure [] (codes "commit: " ++ error_text e) ∷ [])
  commit_results results panicked = none

  -- What follows the loop.
  unfoldable pub tx_end : Tx → Run Db → Db × Option (List StmtResult)
  tx_end tx run =
      let (t, db, out) = rollback drv tx run.tx run.db in
      let (t', db', out') = commit drv tx run.tx run.db in
      elim run.first_err [
        | none ↦ (db', commit_results run.results out')
        | some e ↦
            if not continue_on_error
            then (run.db, some run.results)
            else (db, is_panic none (some run.results) out)
      ]

  abbrev pub started : Transaction → Db → Run Db
  started t db = record { results = []; first_err = none; tx = t; db = db; crashed = false }

  abbrev pub unless_crashed : Tx → Run Db → Db × Option (List StmtResult)
  unless_crashed tx run = if run.crashed then (run.db, none) else tx_end tx run

  -- What follows `database.Begin`.
  unfoldable pub batch_begun :
      List Bytes → Db × Result (Tx × Transaction) → Db × Option (List StmtResult)
  batch_begun stmts (db, err e) =
      (db, some (failure [] (codes "begin transaction: " ++ error_text e) ∷ []))
  batch_begun stmts (db, ok (tx, t)) = unless_crashed tx (tx_loop tx 0 stmts (started t db))

  -- `batchExecInTx`.
  unfoldable pub batch_exec_in_tx : List Bytes → Db → Db × Option (List StmtResult)
  batch_exec_in_tx stmts db = batch_begun stmts (begin drv ctx db)

  -- The body of the loop of `batchExecDirect`.
  unfoldable pub direct_step :
      Bytes
      → (List StmtResult → Db → Db × List StmtResult)
      → List StmtResult
      → Db × Result ExecResult
      → Db × List StmtResult
  direct_step stmt next results (db, ok res) = next (results ++ stmt_result stmt (ok res) ∷ []) db
  direct_step stmt next results (db, err e) = elim continue_on_error [
    | true ↦ next (results ++ stmt_result stmt (err e) ∷ []) db
    | false ↦ (db, results ++ stmt_result stmt (err e) ∷ [])
  ]

  -- `batchExecDirect`; the third argument is `results`.
  unfoldable pub direct_loop : ℕ → List Bytes → List StmtResult → Db → Db × List StmtResult
  direct_loop i [] results db = (db, results)
  direct_loop i (stmt ∷ rest) results db =
      direct_step stmt (direct_loop (i + 1) rest) results (exec drv cfg ctx (clock i) stmt [] db)

  unfoldable pub batch_exec_direct : List Bytes → Db → Db × List StmtResult
  batch_exec_direct stmts db = direct_loop 0 stmts [] db

  -- `batchExec`.
  unfoldable pub batch_exec : Bool → List Bytes → Db → Db × Option (List StmtResult)
  batch_exec true stmts db = batch_exec_in_tx stmts db
  batch_exec false stmts db = let (db', results) = batch_exec_direct stmts db in (db', some results)

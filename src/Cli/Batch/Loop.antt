-- ===== src/Cli/Batch/Loop.antt =====
-- The loop of a batch in a transaction.
use sql_cli.Base.{
  Bool, Bool-cases, Bytes, List, Option, [], ap, append-nil, append_assoc, arith, false,
  if◌then◌else◌, inl, inr, refl, true, ℕ, ◌++◌, ◌+◌, ◌||◌, ◌∙◌, ◌∷◌, ◌≡◌,
}
use sql_cli.Cli.Batch.{Clock, Run, StmtResult, or_first, stmt_result, stopped, tx_loop, tx_step}
use sql_cli.Config.{Config}
use sql_cli.Db.Driver.{Ctx, Driver, Timing}
use sql_cli.Db.Exec.{tx_exec}
use sql_cli.Db.Transaction.{
  check_active, mark_rolled_back, new_transaction, rollback, rolled_back, settle, transaction_exec,
}
use sql_cli.Db.Types.{Error, ExecResult, Result, err, ok}
use sql_cli.Cli.Batch.Answers.{Answer-cases, all_ok, answers, answers_err, answers_ok, reports}

abbrev pub first_of : Option Error → List (Result ExecResult) → Option Error
first_of o [] = o
first_of o (ok res ∷ rs) = first_of o rs
first_of o (err e ∷ rs) = first_of (or_first o e) rs

pub or_on : (a : Bool) {b : Bool} → b ≡ true → (a || b) ≡ true
or_on a h = ground arith

module _ (drv : Driver) (cfg : Config) (ctx : Ctx) (clock : Clock) (tx : drv.Tx) where
  abbrev pub tx_call : ℕ → Bytes → drv.Db → drv.Db × Result ExecResult
  tx_call i stmt db = tx_exec drv cfg tx ctx (clock i) stmt [] db

module _ (drv : Driver) (cfg : Config) (ctx : Ctx) (clock : Clock) (continue_on_error : Bool)
    (tx : drv.Tx) where
  exec_active :
      (t : Timing) (stmt : Bytes) (db : drv.Db)
      → transaction_exec drv cfg tx new_transaction ctx t stmt [] db
        ≡ tx_exec drv cfg tx ctx t stmt [] db
  unfolding transaction_exec check_active new_transaction
  exec_active t stmt db = refl

  -- The loop's variables while the transaction is active.
  abbrev pub running : List StmtResult → Option Error → drv.Db → Run drv.Db
  running acc o db = record {
    results = acc;
    first_err = o;
    tx = new_transaction;
    db = db;
    crashed = false;
  }

  loop_step :
      (i : ℕ) (stmt : Bytes) (rest : List Bytes) (acc : List StmtResult) (o : Option Error)
      (db : drv.Db) {p : drv.Db × Result ExecResult}
      → tx_exec drv cfg tx ctx (clock i) stmt [] db ≡ p
      → tx_loop drv cfg ctx clock continue_on_error tx i (stmt ∷ rest) (running acc o db)
        ≡ tx_step drv cfg ctx clock continue_on_error tx stmt
            (tx_loop drv cfg ctx clock continue_on_error tx (i + 1) rest)
            (running acc o db)
            p
  unfolding tx_loop
  loop_step i stmt rest acc o db h =
      ap
        (tx_step drv cfg ctx clock continue_on_error tx stmt
          (tx_loop drv cfg ctx clock continue_on_error tx (i + 1) rest) (running acc o db))
        (exec_active (clock i) stmt db ∙ h)

  loop_ok :
      (i : ℕ) (stmt : Bytes) (rest : List Bytes) (acc : List StmtResult) (o : Option Error)
      (db : drv.Db) {db' : drv.Db} {a : ExecResult}
      → tx_exec drv cfg tx ctx (clock i) stmt [] db ≡ (db', ok a)
      → tx_loop drv cfg ctx clock continue_on_error tx i (stmt ∷ rest) (running acc o db)
        ≡ tx_loop drv cfg ctx clock continue_on_error tx
            (i + 1)
            rest
            (running (acc ++ stmt_result stmt (ok a) ∷ []) o db')
  unfolding tx_step
  loop_ok i stmt rest acc o db h = loop_step i stmt rest acc o db h

  loop_on :
      (i : ℕ) (stmt : Bytes) (rest : List Bytes) (acc : List StmtResult) (o : Option Error)
      (db : drv.Db) {db' : drv.Db} {e : Error}
      → continue_on_error ≡ true
      → tx_exec drv cfg tx ctx (clock i) stmt [] db ≡ (db', err e)
      → tx_loop drv cfg ctx clock continue_on_error tx i (stmt ∷ rest) (running acc o db)
        ≡ tx_loop drv cfg ctx clock continue_on_error tx
            (i + 1)
            rest
            (running (acc ++ stmt_result stmt (err e) ∷ []) (or_first o e) db')
  unfolding tx_step
  loop_on i stmt rest acc o db k h = loop_step i stmt rest acc o db h ∙ rw k

  abbrev pub given_up : List StmtResult → Option Error → drv.Db → Run drv.Db
  given_up acc o db = record {
    results = acc;
    first_err = o;
    tx = record { status = rolled_back; done = true };
    db = (drv.tx_rollback tx db).0;
    crashed = false;
  }

  loop_stops :
      (i : ℕ) (stmt : Bytes) (rest : List Bytes) (acc : List StmtResult) (o : Option Error)
      (db : drv.Db) {db' : drv.Db} {e : Error}
      → continue_on_error ≡ false
      → tx_exec drv cfg tx ctx (clock i) stmt [] db ≡ (db', err e)
      → tx_loop drv cfg ctx clock continue_on_error tx i (stmt ∷ rest) (running acc o db)
        ≡ given_up (acc ++ stmt_result stmt (err e) ∷ []) (or_first o e) db'
  unfolding tx_step
  loop_stops i stmt rest acc o db k h =
      loop_step i stmt rest acc o db h
      ∙ rw k (unfold stopped rollback mark_rolled_back settle new_transaction in refl)

  abbrev pub ended :
      List Bytes → List StmtResult → Option Error → drv.Db × List (Result ExecResult) → Run drv.Db
  ended stmts acc o (db, rs) =
      if all_ok rs || continue_on_error
      then running (acc ++ reports stmts rs) (first_of o rs) db
      else given_up (acc ++ reports stmts rs) (first_of o rs) db

  pub tx_loop_lem :
      (i : ℕ) (stmts : List Bytes) (acc : List StmtResult) (o : Option Error) (db : drv.Db)
      → tx_loop drv cfg ctx clock continue_on_error tx i stmts (running acc o db)
        ≡ ended stmts acc o (answers (tx_call drv cfg ctx clock tx) continue_on_error i stmts db)
  tx_loop_lem i [] acc o db = unfold tx_loop in rw (append-nil acc)
  tx_loop_lem i (stmt ∷ rest) acc o db =
      elim (Answer-cases (tx_exec drv cfg tx ctx (clock i) stmt [] db)) [
        | inl (s, a, h) ↦
            let x = stmt_result stmt (ok a) in
            loop_ok i stmt rest acc o db h
            ∙ tx_loop_lem (i + 1) rest (acc ++ x ∷ []) o s
            ∙ (rw (
              answers_ok (tx_call drv cfg ctx clock tx) continue_on_error i stmt rest db h,
              append_assoc acc (x ∷ []) (
                  reports rest
                    (answers (tx_call drv cfg ctx clock tx) continue_on_error (i + 1) rest s).1),
            ))
        | inr (s, e, h) ↦ elim (Bool-cases continue_on_error) [
          | inl k ↦
              let x = stmt_result stmt (err e) in
              loop_on i stmt rest acc o db k h
              ∙ tx_loop_lem (i + 1) rest (acc ++ x ∷ []) (or_first o e) s
              ∙ rw (
                answers_err (tx_call drv cfg ctx clock tx) continue_on_error i stmt rest db h,
                append_assoc acc (x ∷ []) (
                    reports rest
                      (answers (tx_call drv cfg ctx clock tx) continue_on_error (i + 1) rest s).1),
                or_on
                    (all_ok
                      (answers (tx_call drv cfg ctx clock tx) continue_on_error (i + 1) rest s).1)
                    k,
                k,
              )
          | inr k ↦
              loop_stops i stmt rest acc o db k h
              ∙ (rw (
                answers_err (tx_call drv cfg ctx clock tx) continue_on_error i stmt rest db h,
                k,
              ))
        ]
      ]

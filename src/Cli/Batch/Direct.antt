-- ===== src/Cli/Batch/Direct.antt =====
-- What a batch without a transaction leaves in the database.

use sql_cli.Base.{
  Bool, Bool-cases, Bytes, List, [], ap, append-nil, append_assoc, false, inl, inr, length, true, ℕ,
  ◌++◌, ◌+◌, ◌∙◌, ◌∷◌, ◌≡◌,
}
use sql_cli.Cli.Batch.{Clock, StmtResult, batch_exec_direct, direct_loop, direct_step, stmt_result}
use sql_cli.Config.{Config}
use sql_cli.Db.Driver.{Ctx, Driver}
use sql_cli.Db.Exec.{exec}
use sql_cli.Db.Types.{Error, ExecResult, Result, err, ok}
use sql_cli.Cli.Batch.Answers.{
  Answer-cases, answers, answers_err, answers_ok, length-answers, length-reports, reports,
}

module _ (drv : Driver) (cfg : Config) (ctx : Ctx) (clock : Clock) where
  abbrev pub exec_call : ℕ → Bytes → drv.Db → drv.Db × Result ExecResult
  exec_call i stmt db = exec drv cfg ctx (clock i) stmt [] db

module _ (drv : Driver) (cfg : Config) (ctx : Ctx) (clock : Clock) (continue_on_error : Bool) where
  abbrev direct_end :
      List Bytes → List StmtResult → drv.Db × List (Result ExecResult) → drv.Db × List StmtResult
  direct_end stmts acc (db, rs) = (db, acc ++ reports stmts rs)

  direct_on :
      (stmt : Bytes) (next : List StmtResult → drv.Db → drv.Db × List StmtResult)
      (acc : List StmtResult) (s : drv.Db) (e : Error)
      → continue_on_error ≡ true
      → direct_step drv cfg ctx clock continue_on_error stmt next acc (s, err e)
        ≡ next (acc ++ stmt_result stmt (err e) ∷ []) s
  unfolding direct_step
  direct_on stmt next acc s e k = rw k

  direct_stop :
      (stmt : Bytes) (next : List StmtResult → drv.Db → drv.Db × List StmtResult)
      (acc : List StmtResult) (s : drv.Db) (e : Error)
      → continue_on_error ≡ false
      → direct_step drv cfg ctx clock continue_on_error stmt next acc (s, err e)
        ≡ (s, acc ++ stmt_result stmt (err e) ∷ [])
  unfolding direct_step
  direct_stop stmt next acc s e k = rw k

  direct_loop_lem :
      (i : ℕ) (stmts : List Bytes) (acc : List StmtResult) (db : drv.Db)
      → direct_loop drv cfg ctx clock continue_on_error i stmts acc db
        ≡ direct_end stmts acc (answers (exec_call drv cfg ctx clock) continue_on_error i stmts db)
  unfolding direct_loop direct_step
  direct_loop_lem i [] acc db = rw (append-nil acc)
  direct_loop_lem i (stmt ∷ rest) acc db =
      let call = exec_call drv cfg ctx clock in
      let body =
        direct_step drv cfg ctx clock continue_on_error stmt
          (direct_loop drv cfg ctx clock continue_on_error (i + 1) rest) acc in
      elim (Answer-cases (exec drv cfg ctx (clock i) stmt [] db)) [
        | inl (s, a, h) ↦
            let x = stmt_result stmt (ok a) in
            ap body h
            ∙ direct_loop_lem (i + 1) rest (acc ++ x ∷ []) s
            ∙ rw (
              answers_ok call continue_on_error i stmt rest db h,
              append_assoc acc (x ∷ [])
                  (reports rest (answers call continue_on_error (i + 1) rest s).1),
            )
        | inr (s, e, h) ↦
            let x = stmt_result stmt (err e) in
            elim (Bool-cases continue_on_error) [
              | inl k ↦
                  ap body h
                  ∙ direct_on stmt (direct_loop drv cfg ctx clock continue_on_error (i + 1) rest)
                      acc s e k
                  ∙ direct_loop_lem (i + 1) rest (acc ++ x ∷ []) s
                  ∙ rw (
                    answers_err call continue_on_error i stmt rest db h,
                    append_assoc acc (x ∷ [])
                        (reports rest (answers call continue_on_error (i + 1) rest s).1),
                    k,
                  )
              | inr k ↦
                  ap body h
                  ∙ direct_stop stmt (direct_loop drv cfg ctx clock continue_on_error (i + 1) rest)
                      acc s e k
                  ∙ rw (answers_err call continue_on_error i stmt rest db h, k)
            ]
      ]

  -- A batch without a transaction sends the statements one after the other, each in the state that
  -- the one before left, up to the first failure or past it, and returns the result of each.
  pub batch_exec_direct-answers :
      (stmts : List Bytes) (db : drv.Db)
      → let (end, rs) = answers (exec_call drv cfg ctx clock) continue_on_error 0 stmts db in
        batch_exec_direct drv cfg ctx clock continue_on_error stmts db ≡ (end, reports stmts rs)
  unfolding batch_exec_direct
  batch_exec_direct-answers stmts db = direct_loop_lem 0 stmts [] db

  -- A batch that continues on errors has a result for every statement.
  pub batch_exec_direct-length :
      (stmts : List Bytes) (db : drv.Db)
      → continue_on_error ≡ true
      → length (batch_exec_direct drv cfg ctx clock continue_on_error stmts db).1 ≡ length stmts
  batch_exec_direct-length stmts db k =
      let call = exec_call drv cfg ctx clock in
      ap (λ p. length p.1) (batch_exec_direct-answers stmts db)
      ∙ length-reports stmts (answers call continue_on_error 0 stmts db).1
          (length-answers call continue_on_error 0 stmts db k)

-- ===== src/Cli/Batch/Atomic.antt =====
-- What a batch in a transaction leaves in the database.
use sql_cli.Base.{
  Bool, Bool-cases, Bytes, List, Option, [], ap, append-nil, arith, codes, false, if◌then◌else◌,
  inl, inr, none, refl, some, sym, true, ◌++◌, ◌||◌, ◌∙◌, ◌∷◌, ◌≡◌,
}
use sql_cli.Cli.Batch.{
  Clock, StmtResult, batch_begun, batch_exec_in_tx, commit_results, failure, tx_end, unless_crashed,
}
use sql_cli.Config.{Config}
use sql_cli.Db.Driver.{Ctx, Driver}
use sql_cli.Db.Exec.{on_ok}
use sql_cli.Db.Transaction.{
  begin, commit, mark_committed, mark_rolled_back, new_transaction, reported, rollback, settle,
}
use sql_cli.Db.Types.{Error, ExecResult, Result, err, error_text, ok, returned, wrap, wrapped}
use sql_cli.Cli.Batch.Answers.{all_ok, answers, reports}
use sql_cli.Cli.Batch.Loop.{ended, first_of, given_up, or_on, running, tx_call, tx_loop_lem}

abbrev pub commit_reports : Option Error → List StmtResult
commit_reports none = []
commit_reports (some e) = failure [] (codes "commit: " ++ error_text (wrap (codes "commit") e)) ∷ []

or_off : {a b : Bool} → a ≡ false → b ≡ false → (a || b) ≡ false
or_off h k = ground arith

first_of-all_ok :
    (o : Option Error) (rs : List (Result ExecResult)) → all_ok rs ≡ true → first_of o rs ≡ o
first_of-all_ok o [] h = refl
first_of-all_ok o (ok a ∷ rs) h = first_of-all_ok o rs h
first_of-all_ok o (err e ∷ rs) h = absurd (cc)

first_of-some : (e : Error) (rs : List (Result ExecResult)) → first_of (some e) rs ≡ some e
first_of-some e [] = refl
first_of-some e (ok a ∷ rs) = first_of-some e rs
first_of-some e (err x ∷ rs) = first_of-some e rs

first_of-failed :
    (rs : List (Result ExecResult)) → all_ok rs ≡ false → (e : Error) × (first_of none rs ≡ some e)
first_of-failed [] h = absurd (cc)
first_of-failed (ok a ∷ rs) h = first_of-failed rs h
first_of-failed (err e ∷ rs) h = (e, first_of-some e rs)

module _ (drv : Driver) (cfg : Config) (ctx : Ctx) (clock : Clock) (continue_on_error : Bool)
    (tx : drv.Tx) where
  commit_results_lem :
      (acc : List StmtResult) (o : Option Error)
      → commit_results drv cfg ctx clock continue_on_error acc
          (returned (reported (codes "commit") o))
        ≡ some (acc ++ commit_reports o)
  commit_results_lem acc none = ap some (sym (append-nil acc))
  commit_results_lem acc (some e) = refl

  end_committed :
      (acc : List StmtResult) (db : drv.Db)
      → tx_end drv cfg ctx clock continue_on_error tx
          (running drv cfg ctx clock continue_on_error tx acc none db)
        ≡ ((drv.tx_commit tx db).0, some (acc ++ commit_reports (drv.tx_commit tx db).1))
  unfolding tx_end commit mark_committed settle new_transaction
  end_committed acc db =
      ap (λ x. ((drv.tx_commit tx db).0, x)) (commit_results_lem acc (drv.tx_commit tx db).1)

  end_rolled_back :
      (acc : List StmtResult) (e : Error) (db : drv.Db)
      → continue_on_error ≡ true
      → tx_end drv cfg ctx clock continue_on_error tx
          (running drv cfg ctx clock continue_on_error tx acc (some e) db)
        ≡ ((drv.tx_rollback tx db).0, some acc)
  unfolding tx_end rollback mark_rolled_back settle new_transaction
  end_rolled_back acc e db k = rw k

  end_given_up :
      (acc : List StmtResult) (e : Error) (db : drv.Db)
      → continue_on_error ≡ false
      → tx_end drv cfg ctx clock continue_on_error tx
          (given_up drv cfg ctx clock continue_on_error tx acc (some e) db)
        ≡ ((drv.tx_rollback tx db).0, some acc)
  unfolding tx_end
  end_given_up acc e db k = rw k

  abbrev pub outcome :
      List Bytes → drv.Db × List (Result ExecResult) → drv.Db × Option (List StmtResult)
  outcome stmts (db, rs) =
      if all_ok rs
      then (
        (drv.tx_commit tx db).0,
        some (reports stmts rs ++ commit_reports (drv.tx_commit tx db).1),
      )
      else ((drv.tx_rollback tx db).0, some (reports stmts rs))

  ended-outcome :
      (stmts : List Bytes) (db : drv.Db) (rs : List (Result ExecResult))
      → unless_crashed drv cfg ctx clock continue_on_error tx
          (ended drv cfg ctx clock continue_on_error tx stmts [] none (db, rs))
        ≡ outcome stmts (db, rs)
  ended-outcome stmts db rs = elim (Bool-cases (all_ok rs)) [
    | inl a ↦ rw (a, first_of-all_ok none rs a) (end_committed (reports stmts rs) db)
    | inr a ↦
        let (e, f) = first_of-failed rs a in
        elim (Bool-cases continue_on_error) [
          | inl k ↦ rw (or_on (all_ok rs) k, a, f) (end_rolled_back (reports stmts rs) e db k)
          | inr k ↦ rw (or_off a k, a, f) (end_given_up (reports stmts rs) e db k)
        ]
  ]

begin-new :
    (drv : Driver) (ctx : Ctx) (db : drv.Db) {db' : drv.Db} {tx : drv.Tx}
    → drv.begin_txx ctx db ≡ (db', ok tx)
    → begin drv ctx db ≡ (db', ok (tx, new_transaction))
unfolding begin
begin-new drv ctx db h =
    ap (λ p. (p.0, wrapped (codes "begin transaction") (on_ok (λ tx. (tx, new_transaction)) p.1))) h

module _ (drv : Driver) (cfg : Config) (ctx : Ctx) (clock : Clock) (continue_on_error : Bool) where
  -- A batch in a transaction that could be begun returns a result for each statement that was run,
  -- and never panics. The database gets one commit behind the statements where all of them
  -- succeeded, and otherwise one rollback and no commit, whether the batch goes on after an error
  -- or not. A failed commit is one result more.
  pub batch_exec_in_tx-outcome :
      (stmts : List Bytes) (db : drv.Db) {db' : drv.Db} {tx : drv.Tx}
      → drv.begin_txx ctx db ≡ (db', ok tx)
      → batch_exec_in_tx drv cfg ctx clock continue_on_error stmts db
        ≡ outcome drv cfg ctx clock continue_on_error tx stmts
            (answers (tx_call drv cfg ctx clock tx) continue_on_error 0 stmts db')
  unfolding batch_exec_in_tx batch_begun
  batch_exec_in_tx-outcome stmts db {db'} {tx} h =
      let answers = answers (tx_call drv cfg ctx clock tx) continue_on_error 0 stmts db' in
      ap (batch_begun drv cfg ctx clock continue_on_error stmts) (begin-new drv ctx db h)
      ∙ ap (unless_crashed drv cfg ctx clock continue_on_error tx)
          (tx_loop_lem drv cfg ctx clock continue_on_error tx 0 stmts [] none db')
      ∙ ended-outcome drv cfg ctx clock continue_on_error tx stmts answers.0 answers.1

-- ===== src/Cli/Batch/Answers.antt =====
-- The answers to the statements of a batch, and their results.

use sql_cli.Base.{
  Bool, Bytes, List, [], ap, arith, false, if◌then◌else◌, inl, inr, length, refl, suc, true, ℕ, ◌+◌,
  ◌∙◌, ◌∷◌, ◌≡◌, ◌⊎◌,
}
use sql_cli.Cli.Batch.{StmtResult, stmt_result}
use sql_cli.Db.Types.{Error, ExecResult, Result, err, ok}

abbrev pub all_ok : List (Result ExecResult) → Bool
all_ok [] = true
all_ok (ok res ∷ rs) = all_ok rs
all_ok (err e ∷ rs) = false

-- The results of the statements that were run.
abbrev pub reports : List Bytes → List (Result ExecResult) → List StmtResult
reports stmts [] = []
reports [] (r ∷ rs) = []
reports (stmt ∷ rest) (r ∷ rs) = stmt_result stmt r ∷ reports rest rs

-- Without a failure, or past failures, each statement has its result.
pub length-reports :
    (stmts : List Bytes) (rs : List (Result ExecResult))
    → length rs ≡ length stmts
    → length (reports stmts rs) ≡ length stmts
length-reports [] [] h = refl
length-reports (s ∷ ss) (r ∷ rs) h = ap suc (length-reports ss rs (omega (arith, h)))
length-reports [] (r ∷ rs) h = absurd (omega (arith, h))
length-reports (s ∷ ss) [] h = absurd (omega (arith, h))

pub Answer-cases {ℓ} :
    {S : Type ℓ} (p : S × Result ExecResult)
    → ((s : S) × (a : ExecResult) × (p ≡ (s, ok a))) ⊎ ((s : S) × (e : Error) × (p ≡ (s, err e)))
Answer-cases (s, ok a) = inl (s, a, refl)
Answer-cases (s, err e) = inr (s, e, refl)

module _ {S : Type 0} (call : ℕ → Bytes → S → S × Result ExecResult)
    (continue_on_error : Bool) where
  abbrev pub answer_step :
      (S → S × List (Result ExecResult)) → S × Result ExecResult → S × List (Result ExecResult)
  answer_step next (db, ok res) = let (end, rs) = next db in (end, ok res ∷ rs)
  answer_step next (db, err e) =
      let (end, rs) = next db in if continue_on_error then (end, err e ∷ rs) else (db, err e ∷ [])

  -- The statements one after the other, each in the state that the one before left, up to the first
  -- failure or past it; the state at the end, and the answers.
  abbrev pub answers : ℕ → List Bytes → S → S × List (Result ExecResult)
  answers i [] db = (db, [])
  answers i (stmt ∷ rest) db = answer_step (answers (i + 1) rest) (call i stmt db)

  pub answers_ok :
      (i : ℕ) (stmt : Bytes) (rest : List Bytes) (db : S) {db' : S} {a : ExecResult}
      → call i stmt db ≡ (db', ok a)
      → answers i (stmt ∷ rest) db
        ≡ ((answers (i + 1) rest db').0, ok a ∷ (answers (i + 1) rest db').1)
  answers_ok i stmt rest db h = ap (answer_step (answers (i + 1) rest)) h

  pub answers_err :
      (i : ℕ) (stmt : Bytes) (rest : List Bytes) (db : S) {db' : S} {e : Error}
      → call i stmt db ≡ (db', err e)
      → answers i (stmt ∷ rest) db ≡ (
          if continue_on_error
          then ((answers (i + 1) rest db').0, err e ∷ (answers (i + 1) rest db').1)
          else (db', err e ∷ []))
  answers_err i stmt rest db h = ap (answer_step (answers (i + 1) rest)) h

  answers_on :
      (i : ℕ) (stmt : Bytes) (rest : List Bytes) (db : S) {db' : S} {e : Error}
      → continue_on_error ≡ true
      → call i stmt db ≡ (db', err e)
      → answers i (stmt ∷ rest) db
        ≡ ((answers (i + 1) rest db').0, err e ∷ (answers (i + 1) rest db').1)
  answers_on i stmt rest db {db'} {e} k h =
      let end = answers (i + 1) rest db' in
      answers_err i stmt rest db h
      ∙ ap (λ c. if c then (end.0, err e ∷ end.1) else (db', err e ∷ [])) k

  pub length-answers :
      (i : ℕ) (stmts : List Bytes) (db : S)
      → continue_on_error ≡ true
      → length (answers i stmts db).1 ≡ length stmts
  length-answers i [] db k = refl
  length-answers i (stmt ∷ rest) db k = elim (Answer-cases (call i stmt db)) [
    | inl (s, a, h) ↦ rw (answers_ok i stmt rest db h) (ap suc (length-answers (i + 1) rest s k))
    | inr (s, e, h) ↦ rw (answers_on i stmt rest db k h) (ap suc (length-answers (i + 1) rest s k))
  ]

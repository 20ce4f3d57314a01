-- ===== src/Cli/Shell/Refused.antt =====
-- A shell without force, given statements that its configuration refuses.
use sql_cli.Db.Exec.{exec_prefix}
use sql_cli.Base.{
  All, Bytes, List, [], ap, append-nil, append_assoc, false, map, map-append, refl, subst, sym, ℤ,
  ◌++◌, ◌+◌, ◌∙◌, ◌∷◌, ◌≡◌,
}
use sql_cli.Cli.Batch.{Clock}
use sql_cli.Cli.Shell.{exec_output, execute_stmt-refused}
use sql_cli.Cli.Shell.Loop.{
  ShellRun, is_exit, line_statements, run_shell, running, shell_stmt, shell_stmt_in, shell_stmts,
  shown,
}
use sql_cli.Config.{Config}
use sql_cli.Db.Driver.{Ctx, Driver}
use sql_cli.Db.Exec.Safety.{Refuses}
use sql_cli.Db.Types.{Error, err, wrap}
use sql_cli.Sqlnorm.Operation.{is_read_operation, operation}

-- A statement that is not a read, and that the configuration refuses.
abbrev pub RefusedStmt : Config → Bytes → Type 0
RefusedStmt cfg stmt =
    (is_exit stmt ≡ false)
    × (is_read_operation (operation stmt) ≡ false)
    × ((e : Error) × Refuses cfg stmt e)

abbrev pub RefusedLines : Config → List Bytes → Type 0
RefusedLines cfg [] = Unit
RefusedLines cfg (line ∷ rest) =
    All (RefusedStmt cfg) (line_statements line) × RefusedLines cfg rest

-- The statements of all lines.
abbrev pub statements_of : List Bytes → List Bytes
statements_of [] = []
statements_of (line ∷ rest) = line_statements line ++ statements_of rest

module _ (drv : Driver) (ctx : Ctx) (clock : Clock) (limit offset : ℤ) where
  open drv use {Db}

  -- The shell runs on, with its database and its configuration as they were, and has printed an
  -- output for each of the statements.
  pub record Unmoved (s s' : ShellRun Db) (stmts : List Bytes) : Type 0 where
    pub same_db : s'.db ≡ s.db
    pub same_cfg : s'.cfg ≡ s.cfg
    pub runs : s'.mode ≡ running
    pub answers : map (λ o. o.statement) s'.printed ≡ map (λ o. o.statement) s.printed ++ stmts

  refused-Unmoved :
      (stmt : Bytes) (s : ShellRun Db)
      → s.mode ≡ running
      → RefusedStmt s.cfg stmt
      → Unmoved s (shell_stmt drv ctx clock limit offset false stmt s) (stmt ∷ [])
  unfolding shell_stmt
  refused-Unmoved stmt s m (out, write, (e, r)) =
      let kept = execute_stmt-refused drv s.cfg ctx (clock s.ran) stmt limit offset s.db write r in
      let output = exec_output stmt (err (wrap (exec_prefix (operation stmt)) e)) in
      let after : ShellRun Db = record s { printed = s.printed ++ output ∷ []; ran = s.ran + 1 } in
      let moved : shell_stmt drv ctx clock limit offset false stmt s ≡ after =
        ap (λ k. shell_stmt_in drv ctx clock limit offset false k stmt s) m
        ∙ rw out (ap (shown drv ctx clock limit offset false s) kept) in
      subst (λ s'. Unmoved s s' (stmt ∷ [])) (sym moved)
        (record {
          same_db = refl;
          same_cfg = refl;
          runs = m;
          answers = map-append (λ o. o.statement) s.printed (output ∷ []);
        })

  then-Unmoved :
      {a b c : ShellRun Db} {xs ys : List Bytes}
      → Unmoved a b xs
      → Unmoved b c ys
      → Unmoved a c (xs ++ ys)
  then-Unmoved {a} {b} {c} {xs} {ys} h k = record {
    same_db = k.same_db ∙ h.same_db;
    same_cfg = k.same_cfg ∙ h.same_cfg;
    runs = k.runs;
    answers =
        k.answers
        ∙ ap (λ l. l ++ ys) h.answers
        ∙ append_assoc (map (λ o. o.statement) a.printed) xs ys;
  }

  stmts-Unmoved :
      (stmts : List Bytes) (s : ShellRun Db)
      → s.mode ≡ running
      → All (RefusedStmt s.cfg) stmts
      → Unmoved s (shell_stmts drv ctx clock limit offset false stmts s) stmts
  stmts-Unmoved [] s m h = record {
    same_db = refl;
    same_cfg = refl;
    runs = m;
    answers = sym (append-nil (map (λ o. o.statement) s.printed));
  }
  stmts-Unmoved (stmt ∷ rest) s m h =
      let one = refused-Unmoved stmt s m h.0 in
      let s' = shell_stmt drv ctx clock limit offset false stmt s in
      then-Unmoved one (
        stmts-Unmoved rest s' one.runs
          (subst (λ c. All (RefusedStmt c) rest) (sym one.same_cfg) h.1))

  -- A shell without force, whose lines hold only statements that are no reads and that the
  -- configuration refuses, sends nothing to the database and keeps its configuration, however many
  -- there are; it runs on, and prints one answer for each statement, in their order.
  pub run_shell-Unmoved :
      (lines : List Bytes) (s : ShellRun Db)
      → s.mode ≡ running
      → RefusedLines s.cfg lines
      → Unmoved s (run_shell drv ctx clock limit offset false lines s) (statements_of lines)
  unfolding run_shell
  run_shell-Unmoved [] s m h = stmts-Unmoved [] s m tt
  run_shell-Unmoved (line ∷ rest) s m h =
      let s' = shell_stmts drv ctx clock limit offset false (line_statements line) s in
      let one = stmts-Unmoved (line_statements line) s m h.0 in
      then-Unmoved one (
        run_shell-Unmoved rest s' one.runs
          (subst (λ c. RefusedLines c rest) (sym one.same_cfg) h.1))

-- ===== src/Cli/Shell/Loop.antt =====
-- The loop of `runShell`, cmd/cli/shell.go, over the lines of its input.

use sql_cli.Base.{
  Bool, Bytes, List, Option, [], ap, arith, beq, beq_iff, codes, if◌then◌else◌, inl, inr, none,
  refl, some, true, ℕ, ℤ, ◌++◌, ◌+◌, ◌||◌, ◌∙◌, ◌∷◌, ◌≡◌, ◌⊎◌,
}
use sql_cli.Cli.Batch.{Clock}
use sql_cli.Cli.Shell.{ShellOutput, execute_stmt}
use sql_cli.Config.{Config}
use sql_cli.Db.Driver.{Ctx, Driver}
use sql_cli.Sqlnorm.Split.{split_statements}
use sql_cli.Strings.{has_prefix, is_empty, to_lower, trim_space}

-- Whether the shell runs, was left by `exit` or `quit`, or broke off in a panic.
pub data ShellMode : Type 0 where
  running left crashed : ShellMode

-- The outputs in their order, and how many statements ran.
pub record ShellRun (Db : Type 0) : Type 0 where
  pub cfg : Config
  pub db : Db
  pub printed : List ShellOutput
  pub ran : ℕ
  pub mode : ShellMode

unfoldable pub is_exit : Bytes → Bool
is_exit stmt = beq (to_lower stmt) (codes "exit") || beq (to_lower stmt) (codes "quit")

unfoldable pub is_skipped : Bytes → Bool
is_skipped line = is_empty line || has_prefix line (codes "--")

-- What a line has for the shell to run.
unfoldable pub line_statements : Bytes → List Bytes
line_statements scanned =
    let line = trim_space scanned in if is_skipped line then [] else split_statements line

module _ (drv : Driver) (ctx : Ctx) (clock : Clock) (limit offset : ℤ) (force : Bool) where
  open drv use {Db}

  abbrev pub shown : ShellRun Db → Config × Db × Option ShellOutput → ShellRun Db
  shown s (cfg, db, none) = record s { cfg = cfg; db = db; mode = crashed }
  shown s (cfg, db, some output) = record s {
    cfg = cfg;
    db = db;
    printed = s.printed ++ output ∷ [];
    ran = s.ran + 1;
  }

  abbrev pub shell_stmt_in : ShellMode → Bytes → ShellRun Db → ShellRun Db
  shell_stmt_in running stmt s =
      if is_exit stmt
      then record s { mode = left }
      else shown s (execute_stmt drv s.cfg ctx (clock s.ran) stmt limit offset force s.db)
  shell_stmt_in _ stmt s = s

  -- One statement of a line; a shell that was left runs none.
  unfoldable pub shell_stmt : Bytes → ShellRun Db → ShellRun Db
  shell_stmt stmt s = shell_stmt_in s.mode stmt s

  abbrev pub shell_stmts : List Bytes → ShellRun Db → ShellRun Db
  shell_stmts [] s = s
  shell_stmts (stmt ∷ rest) s = shell_stmts rest (shell_stmt stmt s)

  -- `runShell`, on the lines that the scanner gives.
  unfoldable pub run_shell : List Bytes → ShellRun Db → ShellRun Db
  run_shell [] s = s
  run_shell (line ∷ rest) s = run_shell rest (shell_stmts (line_statements line) s)

  -- Nothing happens in a shell that was left.
  shell_stmts-left :
      (stmts : List Bytes) (s : ShellRun Db) → s.mode ≡ left → shell_stmts stmts s ≡ s
  unfolding shell_stmt
  shell_stmts-left [] s h = refl
  shell_stmts-left (stmt ∷ rest) s h =
      ap (λ m. shell_stmts rest (shell_stmt_in m stmt s)) h ∙ shell_stmts-left rest s h

  run_shell-left : (lines : List Bytes) (s : ShellRun Db) → s.mode ≡ left → run_shell lines s ≡ s
  unfolding run_shell
  run_shell-left [] s h = refl
  run_shell-left (line ∷ rest) s h =
      ap (run_shell rest) (shell_stmts-left (line_statements line) s h) ∙ run_shell-left rest s h

  shell_stmts-append :
      (xs ys : List Bytes) (s : ShellRun Db)
      → shell_stmts (xs ++ ys) s ≡ shell_stmts ys (shell_stmts xs s)
  shell_stmts-append [] ys s = refl
  shell_stmts-append (x ∷ xs) ys s = shell_stmts-append xs ys (shell_stmt x s)

  run_shell-append :
      (xs ys : List Bytes) (s : ShellRun Db)
      → run_shell (xs ++ ys) s ≡ run_shell ys (run_shell xs s)
  unfolding run_shell
  run_shell-append [] ys s = refl
  run_shell-append (x ∷ xs) ys s = run_shell-append xs ys (shell_stmts (line_statements x) s)

  exit_leaves :
      (stmt : Bytes) (s : ShellRun Db)
      → s.mode ≡ running
      → is_exit stmt ≡ true
      → shell_stmt stmt s ≡ record s { mode = left }
  unfolding shell_stmt
  exit_leaves stmt s h e = ap (λ m. shell_stmt_in m stmt s) h ∙ rw e refl

  leaving-is_exit :
      (stmt : Bytes)
      → (to_lower stmt ≡ codes "exit") ⊎ (to_lower stmt ≡ codes "quit")
      → is_exit stmt ≡ true
  unfolding is_exit
  leaving-is_exit stmt (inl h) = rw ((beq_iff (to_lower stmt) (codes "exit")).1 h) refl
  leaving-is_exit stmt (inr h) =
      let same = (beq_iff (to_lower stmt) (codes "quit")).1 h in ground arith

  -- The statement `exit` or `quit`, in upper or lower case and wherever it stands in a line, ends the
  -- shell: what stands before it in the input was run, and nothing behind it runs.
  pub run_shell-exit :
      (lines after : List Bytes) (line : Bytes) (stmts rest : List Bytes) (stmt : Bytes)
      (s : ShellRun Db)
      → line_statements line ≡ stmts ++ stmt ∷ rest
      → (to_lower stmt ≡ codes "exit") ⊎ (to_lower stmt ≡ codes "quit")
      → (shell_stmts stmts (run_shell lines s)).mode ≡ running
      → run_shell (lines ++ line ∷ after) s
        ≡ record (shell_stmts stmts (run_shell lines s)) { mode = left }
  unfolding run_shell
  run_shell-exit lines after line stmts rest stmt s h e m =
      let before = run_shell lines s in
      let last = shell_stmts stmts before in
      run_shell-append lines (line ∷ after) s
      ∙ ap (λ l. run_shell after (shell_stmts l before)) h
      ∙ ap (run_shell after) (
          shell_stmts-append stmts (stmt ∷ rest) before
          ∙ ap (shell_stmts rest) (exit_leaves stmt last m (leaving-is_exit stmt e))
          ∙ shell_stmts-left rest (record last { mode = left }) refl)
      ∙ run_shell-left after (record last { mode = left }) refl

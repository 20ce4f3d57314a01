-- ===== src/Tests/Shell.antt =====
-- A DROP at the prompt and in the shell.
use sql_cli.Sqlnorm.Split.{flush, in_text, scan, split_statements, step_in}
use sql_cli.Cli.Batch.{Clock}
use sql_cli.Cli.Shell.Refused.{RefusedStmt, Unmoved, run_shell-Unmoved, statements_of}
use sql_cli.Cli.Shell.Loop.{
  ShellRun, is_exit, is_skipped, left, line_statements, run_shell, run_shell-exit, running,
}
use sql_cli.Base.{
  All, Bytes, List, [], codes, false, inl, inr, pos, refl, subst, sym, true, ◌∷◌, ◌≡◌, ◌⊎◌,
}
use sql_cli.Cli.Confirm.{
  IsConfirmed, cancelled, exec_with_confirmation, exec_with_confirmation-dangerous,
}
use sql_cli.Config.{default_config}
use sql_cli.Db.Exec.Safety.{Refuses, dangerous}
use sql_cli.Db.Types.{err, guarded}
use sql_cli.Guard.{allow, dangerous_op_prompt, is_boundary}
use sql_cli.Guard.Dangerous.{IsDangerous}
use sql_cli.Sqlnorm.Operation.{is_read_operation, operation}
use sql_cli.Strings.{
  byte_in, has_prefix, index_any, is_space, lower_byte, to_lower, to_upper, trim_left, trim_right,
  trim_space, upper_byte,
}
use sql_cli.Tests.Logged.{ctx0, logged, timing0}

abbrev truncate : Bytes
truncate = codes "truncate t"

truncate-IsDangerous : IsDangerous truncate
unfolding to_upper upper_byte is_boundary
truncate-IsDangerous = inr (record {
  head = codes "truncate";
  rest = codes " t";
  splits = refl;
  same = refl;
  ends = inr (b' ', codes "t", refl, refl);
})

truncate-is_read_operation : is_read_operation (operation truncate) ≡ false
unfolding is_read_operation operation to_upper upper_byte trim_space trim_left trim_right is_space
    index_any byte_in
truncate-is_read_operation = refl

exec_with_confirmation-dangerous_example :
    (IsConfirmed false (codes " Yes ")
      × ((exec_with_confirmation logged false
            (codes " Yes ")
            default_config
            ctx0
            timing0
            truncate
            timing0
            []).0.dangerous_op_policy
          ≡ allow)
      × ((exec_with_confirmation logged false
            (codes " Yes ")
            default_config
            ctx0
            timing0
            truncate
            timing0
            []).1
          ≡ truncate ∷ []))
    ⊎ ((¬ IsConfirmed false (codes " Yes "))
        × (exec_with_confirmation logged false
              (codes " Yes ")
              default_config
              ctx0
              timing0
              truncate
              timing0
              []
            ≡ (default_config, [], err (cancelled truncate))))
unfolding default_config
exec_with_confirmation-dangerous_example =
    exec_with_confirmation-dangerous logged false (codes " Yes ") default_config ctx0 timing0
      truncate timing0 [] refl truncate-IsDangerous

truncate-Refuses : Refuses default_config truncate (guarded dangerous_op_prompt)
unfolding default_config
truncate-Refuses = dangerous dangerous_op_prompt truncate-IsDangerous refl refl

abbrev fresh_shell : ShellRun (List Bytes)
fresh_shell = record { cfg = default_config; db = []; printed = []; ran = 0; mode = running }

abbrev clock0 : Clock
clock0 i = timing0

abbrev truncate_line : Bytes
truncate_line = codes " truncate t;"

truncate_line-statements : line_statements truncate_line ≡ truncate ∷ []
unfolding line_statements is_skipped split_statements scan step_in in_text flush trim_space
    trim_left trim_right is_space has_prefix
truncate_line-statements = refl

truncate-RefusedStmt : RefusedStmt default_config truncate
unfolding is_exit to_lower lower_byte
truncate-RefusedStmt = (refl, truncate-is_read_operation, (_, truncate-Refuses))

run_shell-Unmoved_example :
    Unmoved logged ctx0 clock0
      (pos 0)
      (pos 0)
      fresh_shell
      (run_shell logged ctx0 clock0 (pos 0) (pos 0) false (truncate_line ∷ []) fresh_shell)
      (statements_of (truncate_line ∷ []))
run_shell-Unmoved_example =
    run_shell-Unmoved logged ctx0 clock0 (pos 0) (pos 0) (truncate_line ∷ []) fresh_shell refl (
      subst (λ l. All (RefusedStmt default_config) l) (sym truncate_line-statements)
          (truncate-RefusedStmt, tt),
      tt,
    )

abbrev exit_line : Bytes
exit_line = codes "EXIT; drop table t"

exit_line-statements : line_statements exit_line ≡ codes "EXIT" ∷ codes "drop table t" ∷ []
unfolding line_statements is_skipped split_statements scan step_in in_text flush trim_space
    trim_left trim_right is_space has_prefix
exit_line-statements = refl

exit_line-to_lower : to_lower (codes "EXIT") ≡ codes "exit"
unfolding to_lower lower_byte
exit_line-to_lower = refl

run_shell-exit_example :
    run_shell logged ctx0 clock0 (pos 0) (pos 0) true (exit_line ∷ truncate_line ∷ []) fresh_shell
    ≡ record fresh_shell { mode = left }
unfolding run_shell
run_shell-exit_example =
    run_shell-exit logged ctx0 clock0 (pos 0) (pos 0) true [] (truncate_line ∷ []) exit_line []
      (codes "drop table t" ∷ []) (codes "EXIT") fresh_shell exit_line-statements
      (inl exit_line-to_lower) refl

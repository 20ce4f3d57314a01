-- ===== src/Tests/Batches.antt =====
-- Batches of two statements.

use sql_cli.Base.{Bytes, List, [], codes, false, refl, true, ◌∷◌, ◌≡◌}
use sql_cli.Cli.Batch.{Clock, batch_exec_direct, batch_exec_in_tx}
use sql_cli.Cli.Batch.Answers.{answers, reports}
use sql_cli.Cli.Batch.Loop.{tx_call}
use sql_cli.Cli.Batch.Atomic.{batch_exec_in_tx-outcome, outcome}
use sql_cli.Cli.Batch.Direct.{batch_exec_direct-answers, exec_call}
use sql_cli.Config.{default_config}
use sql_cli.Tests.Logged.{ctx0, logged, timing0}

abbrev clock0 : Clock
clock0 i = timing0

-- The second statement is refused.
abbrev two : List Bytes
two = codes "INSERT t" ∷ codes "DROP TABLE t" ∷ []

batch_exec_in_tx-outcome_example :
    batch_exec_in_tx logged default_config ctx0 clock0 true two []
    ≡ outcome logged default_config ctx0 clock0 true tt two
        (answers (tx_call logged default_config ctx0 clock0 tt) true 0 two [])
batch_exec_in_tx-outcome_example =
    batch_exec_in_tx-outcome logged default_config ctx0 clock0 true two [] refl

batch_exec_direct-answers_example :
    batch_exec_direct logged default_config ctx0 clock0 false two [] ≡ (
      (answers (exec_call logged default_config ctx0 clock0) false 0 two []).0,
      reports two (answers (exec_call logged default_config ctx0 clock0) false 0 two []).1,
    )
batch_exec_direct-answers_example =
    batch_exec_direct-answers logged default_config ctx0 clock0 false two []

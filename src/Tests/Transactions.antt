-- ===== src/Tests/Transactions.antt =====
-- A transaction's life, alone and with calls from several goroutines.

use sql_cli.Db.Query.{panics}
use sql_cli.Base.{List, [], arith, codes, false, refl, true, ◌∷◌, ◌≡◌, ◌≢◌, ◌≤◌, ◌⊎◌}
use sql_cli.Config.{default_config}
use sql_cli.Db.Transaction.{
  Transaction, active, auto_rollback, commit, committed, mark_committed, mark_rolled_back,
  new_transaction, panics, rollback, settle,
}
use sql_cli.Db.Transaction.Race.{
  Reach, Reach-ends, Reach-no_panic, Reach-one_end, Step, World, commit_calls, commit_marks,
  context_ends, expired, here, next, start, timeout_seen,
}
use sql_cli.Db.Transaction.Closed.{commit_ends, rollback_ends}
use sql_cli.Db.Transaction.Calls.{
  TxCall, calls_after_end, commit_call, exec_call, query_call, rollback_call, timeout_call,
  transaction_calls, tx_refusals,
}
use sql_cli.Db.Types.{err, ok, returned, tx_done, wrap}
use sql_cli.Tests.Logged.{ctx0, logged, timing0}

abbrev fresh : Transaction
fresh = record { status = active; done = false }

commit_ends_example :
    let (t', after, r) = commit logged tt fresh [] in
    (after ≡ codes "COMMIT" ∷ [])
    × (r ≡ returned (ok tt))
    × (commit logged tt t' [] ≡ (t', [], returned (err (wrap (codes "commit") tx_done))))
    × (rollback logged tt t' [] ≡ (t', [], returned (err (wrap (codes "rollback") tx_done))))
    × (auto_rollback logged tt t' [] ≡ (t', []))
commit_ends_example = commit_ends logged tt fresh [] [] refl refl

rollback_ends_example :
    let (t', after, r) = rollback logged tt fresh [] in
    (after ≡ codes "ROLLBACK" ∷ [])
    × (r ≡ returned (ok tt))
    × (commit logged tt t' [] ≡ (t', [], returned (err (wrap (codes "commit") tx_done))))
    × ((rollback logged tt t' []).1 ≡ codes "ROLLBACK" ∷ [])
    × (auto_rollback logged tt t' [] ≡ (t', []))
rollback_ends_example = rollback_ends logged tt fresh [] [] refl refl

abbrev late_calls : List TxCall
late_calls =
    exec_call ctx0 timing0 (codes "insert into t") []
    ∷ rollback_call
    ∷ commit_call
    ∷ timeout_call
    ∷ query_call ctx0 timing0 (codes "select a") []
    ∷ []

calls_after_end_example :
    (let (t', after, _) = commit logged tt fresh [] in
      transaction_calls logged default_config tt late_calls t' after
      ≡ (t', codes "COMMIT" ∷ [], tx_refusals late_calls))
    × (let (t', after, _) = rollback logged tt fresh [] in
        (transaction_calls logged default_config tt late_calls t' after).1
        ≡ codes "ROLLBACK" ∷ codes "ROLLBACK" ∷ [])
    × (let (t', after) = auto_rollback logged tt fresh [] in
        (transaction_calls logged default_config tt late_calls t' after).1
        ≡ codes "ROLLBACK" ∷ codes "ROLLBACK" ∷ [])
calls_after_end_example = calls_after_end logged default_config tt late_calls fresh [] refl refl

-- The context ends while a commit that was marked has yet to reach the database.
abbrev after_marking : World
after_marking = record start { tx = record { status = committed; done = true }; committing = 1 }

abbrev after_end : World
after_end = record after_marking { ended = true }

abbrev after_timeout : World
after_timeout = record after_end { waiting = false }

abbrev after_commit : World
after_commit = record after_timeout { committing = 0; commits = 1 }

Reach-after_marking : Reach start after_marking
unfolding new_transaction mark_committed settle
Reach-after_marking =
    next here (commit_marks (record { status = committed; done = true }) refl refl)

Reach-after_commit : Reach start after_commit
unfolding new_transaction mark_committed settle expired
Reach-after_commit =
    let e : Reach start after_end = next Reach-after_marking (context_ends refl) in
    let r : Reach start after_timeout = next e (timeout_seen refl refl refl) in
    next r (commit_calls (omega arith) refl)

Reach-one_end_example :
    (after_commit.commits ≤ 1) × ((after_commit.commits ≡ 0) ⊎ (after_commit.rollbacks ≡ 0))
Reach-one_end_example = Reach-one_end Reach-after_commit

Reach-ends_example :
    ((committed ≡ active) × (true ≡ true))
    ⊎ ((committed ≢ active) × ((true ≡ false) ⊎ ((true ≡ true) × Step after_marking after_timeout)))
Reach-ends_example = Reach-ends Reach-after_marking

Reach-no_panic_example :
    (mark_committed after_commit.tx ≢ panics) × (mark_rolled_back after_commit.tx ≢ panics)
Reach-no_panic_example = Reach-no_panic Reach-after_commit

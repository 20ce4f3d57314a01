-- ===== src/Db/Transaction/Race.antt =====
-- The calls of a transaction from several goroutines, beside its own. Marking the status is one step
-- under the lock; the call of the database that follows it in `Commit` and `Rollback` is a later one.

use sql_cli.Base.{
  Bool, Bool-cases, arith, false, if◌then◌else◌, inl, inr, refl, true, ℕ, ◌+◌, ◌-◌, ◌<◌, ◌≡◌, ◌≢◌,
  ◌≤◌, ◌⊎◌,
}
use sql_cli.Db.Transaction.{
  Status, Transaction, active, committed, is_active, mark_committed, mark_rolled_back, marked,
  new_transaction, panics, rolled_back, settle,
}

-- The transaction, whether the context of the timeout has ended, whether the goroutine waits, the
-- calls that were marked and have yet to reach the database, and how many reached it.
pub record World : Type 0 where
  pub tx : Transaction
  pub ended : Bool
  pub waiting : Bool
  pub committing : ℕ
  pub rolling : ℕ
  pub commits : ℕ
  pub rollbacks : ℕ

abbrev pub start : World
start = record {
  tx = new_transaction;
  ended = false;
  waiting = true;
  committing = 0;
  rolling = 0;
  commits = 0;
  rollbacks = 0;
}

-- What the goroutine does when it sees that the context has ended.
unfoldable pub expired : World → World
expired w =
    if is_active w.tx.status
    then record w {
      tx = record { status = rolled_back; done = w.tx.done };
      waiting = false;
      rollbacks = w.rollbacks + 1;
    }
    else record w { waiting = false }

-- The goroutine ends by the other case, and cancels its context.
abbrev pub released : World → World
released w = record w { waiting = false; ended = true }

-- A goroutine's select takes a case that is ready; a timeout or the parent may end the context at any
-- time.
pub data Step (w w' : World) : Type 0 where
  commit_marks :
      (t : Transaction)
      → mark_committed w.tx ≡ marked t
      → w' ≡ record w { tx = t; committing = w.committing + 1 }
      → Step w w'
  commit_calls :
      0 < w.committing
      → w' ≡ record w { committing = w.committing - 1; commits = w.commits + 1 }
      → Step w w'
  rollback_marks :
      (t : Transaction)
      → mark_rolled_back w.tx ≡ marked t
      → w' ≡ record w { tx = t; rolling = w.rolling + 1 }
      → Step w w'
  rollback_calls :
      0 < w.rolling
      → w' ≡ record w { rolling = w.rolling - 1; rollbacks = w.rollbacks + 1 }
      → Step w w'
  context_ends : w' ≡ record w { ended = true } → Step w w'
  timeout_seen : w.waiting ≡ true → w.ended ≡ true → w' ≡ expired w → Step w w'
  channel_closed : w.waiting ≡ true → w.tx.done ≡ true → w' ≡ released w → Step w w'

pub data Reach (w : World) : World → Type 0 where
  here : Reach w w
  next : {u v : World} → Reach w u → Step u v → Reach w v

record Inv (w : World) : Type 0 where
  idle :
      w.tx.status ≡ active
      → (w.tx.done ≡ false) × (w.committing + w.rolling + w.commits + w.rollbacks ≡ 0)
  committed_once :
      w.tx.status ≡ committed
      → (w.tx.done ≡ true) × (w.committing + w.commits ≡ 1) × (w.rolling + w.rollbacks ≡ 0)
  never_commits : w.tx.status ≡ rolled_back → w.committing + w.commits ≡ 0
  waits : w.tx.status ≡ active → w.waiting ≡ true
  ends : w.tx.status ≢ active → w.waiting ≡ true → w.tx.done ≡ true

start-Inv : Inv start
unfolding new_transaction
start-Inv = ground arith

Step-Inv : {w w' : World} → Inv w → Step w w' → Inv w'
unfolding mark_committed mark_rolled_back settle expired
Step-Inv i (commit_marks t m e) = ground arith
Step-Inv i (commit_calls h e) = ground arith
Step-Inv i (rollback_marks t m e) = ground arith
Step-Inv i (rollback_calls h e) = ground arith
Step-Inv i (context_ends e) = ground arith
Step-Inv i (timeout_seen h t e) = ground arith
Step-Inv i (channel_closed h d e) = ground arith

Reach-Inv : {w : World} → Reach start w → Inv w
Reach-Inv here = start-Inv
Reach-Inv (next r s) = Step-Inv (Reach-Inv r) s

Status-cases : (s : Status) → (s ≡ active) ⊎ (s ≡ committed) ⊎ (s ≡ rolled_back)
Status-cases active = inl refl
Status-cases committed = inr (inl refl)
Status-cases rolled_back = inr (inr refl)

one_end :
    {w : World}
    → (w.tx.status ≡ active) ⊎ (w.tx.status ≡ committed) ⊎ (w.tx.status ≡ rolled_back)
    → Inv w
    → (w.commits ≤ 1) × ((w.commits ≡ 0) ⊎ (w.rollbacks ≡ 0))
one_end (inl e) i = let h = (i.idle e).1 in omega arith
one_end (inr (inl e)) i =
    let h = (i.committed_once e).1 in let k = (i.committed_once e).2 in omega arith
one_end (inr (inr e)) i = let h = i.never_commits e in omega arith

-- In every interleaving the database sees at most one commit, and none together with a rollback.
pub Reach-one_end :
    {w : World} → Reach start w → (w.commits ≤ 1) × ((w.commits ≡ 0) ⊎ (w.rollbacks ≡ 0))
Reach-one_end {w} r = let i = Reach-Inv r in one_end (Status-cases w.tx.status) i

-- In no interleaving is the channel closed twice: marking never panics.
pub Reach-no_panic :
    {w : World} → Reach start w → (mark_committed w.tx ≢ panics) × (mark_rolled_back w.tx ≢ panics)
unfolding mark_committed mark_rolled_back settle
Reach-no_panic {w} r = let i = Reach-Inv r in (λ h. ground arith, λ h. ground arith)

goroutine_ends :
    (w : World)
    → (w.waiting ≡ true) ⊎ (w.waiting ≡ false)
    → Inv w
    → w.tx.status ≢ active
    → (w.waiting ≡ false) ⊎ ((w.tx.done ≡ true) × Step w (released w))
goroutine_ends w (inl h) i over =
    let closed = i.ends over h in inr (closed, channel_closed h closed refl)
goroutine_ends w (inr h) i over = inl h

-- In every interleaving the goroutine waits for as long as the transaction is active. Once the
-- transaction is over, the goroutine has ended, or the channel is closed and it can end at once,
-- whether the context has ended or not.
pub Reach-ends :
    {w : World}
    → Reach start w
    → ((w.tx.status ≡ active) × (w.waiting ≡ true))
      ⊎ ((w.tx.status ≢ active)
          × ((w.waiting ≡ false) ⊎ ((w.tx.done ≡ true) × Step w (released w))))
Reach-ends {w} r =
    let i = Reach-Inv r in
    let ends = goroutine_ends w (Bool-cases w.waiting) i in
    elim (Status-cases w.tx.status) [
      | inl e ↦ inl (e, i.waits e)
      | inr (inl e) ↦ let over : w.tx.status ≢ active = λ h. cc in inr (over, ends over)
      | inr (inr e) ↦ let over : w.tx.status ≢ active = λ h. cc in inr (over, ends over)
    ]

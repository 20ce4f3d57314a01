-- ===== src/Db/Stream/Start.antt =====
-- What `QueryStream` does before its goroutine runs.
use sql_cli.Base.{
  Bool, Bool-cases, Bytes, Option, arith, false, inl, inr, none, pos, refl, some, subst, sym, true,
  ℤ, ◌<◌, ◌≡◌,
}
use sql_cli.Config.{Config}
use sql_cli.Db.Query.{Plan, applied_limit, plan_in_tx}
use sql_cli.Db.Query.Limits.{IsSane, Limited}
use sql_cli.Db.Query.Sent.{plan_limit-Limited, plan_limit-own}
use sql_cli.Db.Slots.{acquire_concurrency_slot}
use sql_cli.Db.Stream.{
  StreamStart, buffer_size, is_started, not_started, query_stream, start_panics, start_with,
}
use sql_cli.Db.Types.{Error}
use sql_cli.Sqlnorm.Keyword.{has_limit}
use sql_cli.Sqlnorm.Operation.{is_select, operation}
use sql_cli.Sqlnorm.Quoted.Laws.{IsBalanced}

-- The text a stream sends: the statement itself where that has a LIMIT clause.
abbrev pub StreamText : Config → Bytes → Bytes → Bool → Type 0
StreamText cfg sql out true = out ≡ sql
StreamText cfg sql out false = Limited cfg sql out (applied_limit cfg (pos 0))

-- What a start promises.
abbrev pub StartOf : Config → Bytes → ℤ → StreamStart → Type 0
StartOf cfg sql active (not_started e after) = after ≡ active
StartOf cfg sql active start_panics = ⊥
StartOf cfg sql active (is_started p cap after) =
    (is_select (operation sql) ≡ true)
    × (0 < cap)
    × (acquire_concurrency_slot cfg active ≡ (after, none))
    × StreamText cfg sql p.sql (has_limit sql)

buffer_size-positive : (cfg : Config) → 0 < buffer_size cfg
unfolding buffer_size
buffer_size-positive cfg = ground arith

refused-unchanged :
    (cfg : Config) (active : ℤ) {after : ℤ} {e : Error}
    → acquire_concurrency_slot cfg active ≡ (after, some e)
    → after ≡ active
unfolding acquire_concurrency_slot
refused-unchanged cfg active h = ground arith

start_with-StartOf :
    (cfg : Config) (sql : Bytes) (active : ℤ) (p : Plan) (got : ℤ × Option Error)
    → acquire_concurrency_slot cfg active ≡ got
    → is_select (operation sql) ≡ true
    → StreamText cfg sql p.sql (has_limit sql)
    → StartOf cfg sql active (start_with cfg p got)
start_with-StartOf cfg sql active p (after, none) h sel l = (sel, buffer_size-positive cfg, h, l)
start_with-StartOf cfg sql active p (after, some e) h sel l = refused-unchanged cfg active h

planned-StreamText :
    (cfg : Config) (sql : Bytes) (has : Bool)
    → IsSane cfg
    → IsBalanced sql
    → has_limit sql ≡ has
    → (p : Plan) × (plan_in_tx cfg (pos 0) sql ≡ some p) × StreamText cfg sql p.sql (has_limit sql)
unfolding plan_in_tx
planned-StreamText cfg sql true sane bal h = (_, plan_limit-own cfg (pos 0) _ sql h, rw h refl)
planned-StreamText cfg sql false sane bal h =
    let (out, e, l) = plan_limit-Limited cfg (pos 0) _ sql sane bal h in (_, e, rw h l)

-- Where the default and the maximum limit are at least 1 and the maximum has twelve digits at most,
-- `QueryStream` does not panic on a statement that closes its quotes. It starts a goroutine only for
-- a SELECT, with a buffer for a row or more, after the session's count of slots had room, and with a
-- LIMIT clause between 1 and the maximum where the statement has none; where it returns an error the
-- count is as it was.
pub query_stream-StartOf :
    (cfg : Config) (sql : Bytes) (active : ℤ)
    → IsSane cfg
    → IsBalanced sql
    → StartOf cfg sql active (query_stream cfg sql active)
unfolding query_stream
query_stream-StartOf cfg sql active sane bal = elim (Bool-cases (is_select (operation sql))) [
  | inl s ↦
      let (p, e, l) = planned-StreamText cfg sql (has_limit sql) sane bal refl in
      subst (StartOf cfg sql active) (sym (rw (s, e)))
        (start_with-StartOf cfg sql active p (acquire_concurrency_slot cfg active) refl s l)
  | inr s ↦ rw s refl
]

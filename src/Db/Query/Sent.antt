-- ===== src/Db/Query/Sent.antt =====
-- What the query functions send to the database.
use sql_cli.Base.{
  Bytes, List, [], arith, false, lt→ltb, none, pos, some, true, ℕ, ℤ, ◌+◌, ◌^◌, ◌≡◌, ◌≢◌, ◌≤◌,
}
use sql_cli.Config.{Config}
use sql_cli.Db.Driver.{Ctx, Driver, Timing, with_timeout}
use sql_cli.Db.Query.{
  Plan, applied_limit, guarded_query, limit_warning, plan_in_tx, plan_limit, plan_offset,
  plan_with_limit, plan_with_offset, query_with_limit, query_with_offset, run_plan, tx_query,
}
use sql_cli.Db.Query.Limits.{IsSane, Limited, append_limit-Limited, applied_limit_bounds}
use sql_cli.Db.Types.{Value, panicked}
use sql_cli.Sqlnorm.Keyword.{has_limit, has_offset}
use sql_cli.Sqlnorm.Itoa.Value.{itoa_panics}
use sql_cli.Sqlnorm.Limit.{append_offset}
use sql_cli.Sqlnorm.Operation.{is_select, operation}
use sql_cli.Sqlnorm.Quoted.Laws.{IsBalanced}

pub plan_limit-Limited :
    (cfg : Config) (limit : ℤ) (warning sql : Bytes)
    → IsSane cfg
    → IsBalanced sql
    → has_limit sql ≡ false
    → (out : Bytes) × (plan_limit cfg limit warning sql
        ≡ some (record { sql = out; applied = applied_limit cfg limit; warning = warning }))
      × Limited cfg sql out (applied_limit cfg limit)
plan_limit-Limited cfg limit warning sql sane bal h =
    let (lo, hi, own) = applied_limit_bounds cfg limit sane in
    let (out, e, l) = append_limit-Limited cfg sql (applied_limit cfg limit) sane bal lo hi in
    (out, unfold plan_limit in rw (h, e), l)

pub plan_limit-own :
    (cfg : Config) (limit : ℤ) (warning sql : Bytes)
    → has_limit sql ≡ true
    → plan_limit cfg limit warning sql ≡ some (record { sql = sql; applied = pos 0; warning = [] })
unfolding plan_limit
plan_limit-own cfg limit warning sql h = rw h

plan_offset_panics :
    (p : Plan) (n : ℕ) → has_offset p.sql ≡ false → 10 ^ 12 ≤ n → plan_offset (pos n) p ≡ none
unfolding plan_offset append_offset
plan_offset_panics p n off big = rw (off, lt→ltb 0 (n + 0) (omega arith), itoa_panics (pos n) big)

module _ (drv : Driver) (cfg : Config) (ctx : Ctx) (t : Timing) (sql : Bytes) (args : List Value)
    (db : drv.Db) where
  -- What the database is left in by one query with a text.
  abbrev pub after_query : Bytes → drv.Db
  after_query out = (drv.queryx_context (with_timeout cfg t.now ctx) (drv.rebind out) args db).0

  abbrev pub after_tx_query : drv.Tx → Bytes → drv.Db
  after_tx_query tx out = (drv.tx_queryx_context tx ctx (drv.rebind out) args db).0

  -- Where the default and the maximum limit are at least 1 and the maximum has twelve digits at most,
  -- a SELECT that closes its quotes and has no LIMIT clause is sent, by `QueryWithLimit` and by
  -- `transaction.Query`, with one whose limit lies between 1 and the maximum, and that a second
  -- check would find; neither of these two calls panics.
  pub query-Limited :
      (tx : drv.Tx) (limit : ℤ)
      → IsSane cfg
      → IsBalanced sql
      → is_select (operation sql) ≡ true
      → has_limit sql ≡ false
      → ((out : Bytes) × ((query_with_limit drv cfg ctx t sql limit args db).0 ≡ after_query out)
          × ((query_with_limit drv cfg ctx t sql limit args db).1 ≢ panicked)
          × Limited cfg sql out (applied_limit cfg limit))
        × ((out : Bytes) × ((tx_query drv cfg tx ctx t sql args db).0 ≡ after_tx_query tx out)
            × ((tx_query drv cfg tx ctx t sql args db).1 ≢ panicked)
            × Limited cfg sql out (applied_limit cfg (pos 0)))
  unfolding query_with_limit tx_query guarded_query plan_with_limit plan_in_tx run_plan
  query-Limited tx limit sane bal sel h =
      let a = applied_limit cfg limit in
      let b = applied_limit cfg (pos 0) in
      let (out, e, l) = plan_limit-Limited cfg limit (limit_warning cfg limit a) sql sane bal h in
      let (out', e', l') = plan_limit-Limited cfg (pos 0) (limit_warning cfg b b) sql sane bal h in
      (
        (out, rw (sel, e), rw (sel, e) (λ k. cc), l),
        (out', rw (sel, e'), rw (sel, e') (λ k. cc), l'),
      )

  -- An offset of more than twelve digits makes `QueryWithOffset` panic, before the database is
  -- called, where the text with its limit has no OFFSET clause.
  pub query_with_offset_panics :
      (limit : ℤ) (n : ℕ) {p : Plan}
      → is_select (operation sql) ≡ true
      → plan_with_limit cfg limit sql ≡ some p
      → has_offset p.sql ≡ false
      → 10 ^ 12 ≤ n
      → query_with_offset drv cfg ctx t sql limit (pos n) args db ≡ (db, panicked)
  unfolding query_with_offset guarded_query plan_with_offset run_plan
  query_with_offset_panics limit n {p} sel e off big = rw (sel, e, plan_offset_panics p n off big)

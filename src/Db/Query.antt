-- ===== src/Db/Query.antt =====
-- pkg/db/query.go, pkg/db/query_read.go, and the queries of pkg/db/transaction.go behind their check
-- of the status. The statement is prepared first (`none`: `itoa` panics), and then sent.
pub mod Limits
pub mod Sent
pub mod Answers
use mathlib.Core.Option
use sql_cli.Base.{
  Bool, Bytes, List, Option, [], codes, if◌then◌else◌, leb_ℤ, length, ltb_ℤ, map, none, not, pos,
  some, ℕ, ℤ, ◌&&◌, ◌++◌,
}
use sql_cli.Config.{Config}
use sql_cli.Db.Driver.{Ctx, Driver, Rows, Timing, with_timeout}
use sql_cli.Db.Rows.{Table, read_rows}
use sql_cli.Db.Types.{
  Error, Outcome, QueryResult, Result, Value, cursor, err, new_query_result, non_select_query,
  not_read_operation, ok, panicked, returned, wrap, wrapped, ◌>>=◌,
}
use sql_cli.Sqlnorm.Itoa.{format_int}
use sql_cli.Sqlnorm.Keyword.{has_limit, has_offset}
use sql_cli.Sqlnorm.Limit.{CursorResult, append_limit, append_offset, apply_cursor, paged}
use sql_cli.Sqlnorm.Operation.{is_read_operation, is_select, operation}

abbrev pub query_prefix : Bytes → Bytes
query_prefix op = codes "query " ++ op

-- `appliedLimit`: the caller's limit, or the default one, capped.
unfoldable pub applied_limit : Config → ℤ → ℤ
applied_limit cfg limit =
    let applied = if leb_ℤ limit (pos 0) then cfg.default_limit else limit in
    if ltb_ℤ cfg.max_limit applied then cfg.max_limit else applied

-- A prepared statement: the text, the limit that was applied (0 where the text has its own), and the
-- warning.
pub record Plan : Type 0 where
  pub sql : Bytes
  pub applied : ℤ
  pub warning : Bytes

unfoldable pub capped_warning : ℤ → Bytes
capped_warning applied = codes "LIMIT capped to " ++ (format_int applied ++ codes " (max allowed)")

unfoldable pub applied_warning : ℤ → Bytes
applied_warning applied = codes "LIMIT " ++ (format_int applied ++ codes " applied automatically")

-- The warning, where a limit was applied; `asked` is what the source compares with MaxLimit.
unfoldable pub limit_warning : Config → ℤ → ℤ → Bytes
limit_warning cfg asked applied =
    if ltb_ℤ cfg.max_limit asked then capped_warning applied else applied_warning applied

-- `AppendLIMIT` unless the text has a LIMIT clause.
unfoldable pub plan_limit : Config → ℤ → Bytes → Bytes → Option Plan
plan_limit cfg limit warning sql =
    if has_limit sql
    then some (record { sql = sql; applied = pos 0; warning = [] })
    else Option.map
        (λ out. record { sql = out; applied = applied_limit cfg limit; warning = warning })
        (append_limit sql (applied_limit cfg limit))

-- `AppendOFFSET` unless the text has an OFFSET clause or none is asked for.
unfoldable pub plan_offset : ℤ → Plan → Option Plan
plan_offset offset p =
    if not (has_offset p.sql) && ltb_ℤ (pos 0) offset
    then Option.map (λ out. record p { sql = out }) (append_offset p.sql offset)
    else some p

abbrev pub then_plan : Option Plan → (Plan → Option Plan) → Option Plan
then_plan none f = none
then_plan (some p) f = f p

-- `queryWithLimit`.
unfoldable pub plan_with_limit : Config → ℤ → Bytes → Option Plan
plan_with_limit cfg limit sql =
    plan_limit cfg limit (limit_warning cfg limit (applied_limit cfg limit)) sql

-- `queryWithOffset`.
unfoldable pub plan_with_offset : Config → ℤ → ℤ → Bytes → Option Plan
plan_with_offset cfg limit offset sql =
    then_plan (plan_with_limit cfg limit sql) (plan_offset offset)

-- `transaction.Query` and, with an offset, `transaction.QueryWithOffset`: the warning compares the
-- capped limit.
unfoldable pub plan_in_tx : Config → ℤ → Bytes → Option Plan
plan_in_tx cfg limit sql =
    let applied = applied_limit cfg limit in
    plan_limit cfg limit (limit_warning cfg applied applied) sql

unfoldable pub plan_in_tx_offset : Config → ℤ → ℤ → Bytes → Option Plan
plan_in_tx_offset cfg limit offset sql = then_plan (plan_in_tx cfg limit sql) (plan_offset offset)

-- `QueryRead`: a LIMIT clause for SELECT and WITH only, and no warning; the default limit is capped.
unfoldable pub read_limit : Config → ℤ
read_limit cfg = if ltb_ℤ cfg.max_limit cfg.default_limit then cfg.max_limit else cfg.default_limit

unfoldable pub plan_read : Config → Bytes → Option Plan
plan_read cfg sql =
    if is_select (operation sql) && not (has_limit sql)
    then Option.map (λ out. record { sql = out; applied = pos 0; warning = [] })
        (append_limit sql (read_limit cfg))
    else some (record { sql = sql; applied = pos 0; warning = [] })

-- `QueryWithOptions`, by what follows: an error of `ApplyCursor`, a statement that is sent as it
-- stands, or one that is rebound first.
pub data Prepared : Type 0 where
  refused : Error → Prepared
  direct : Plan → Prepared
  rebound : Plan → Prepared
  panics : Prepared

abbrev pub cursor_plan : ℤ → Bytes → CursorResult → Prepared
cursor_plan applied warning (CursorResult.refused e) = refused (cursor e)
cursor_plan applied warning (paged out) =
    direct (record { sql = out; applied = applied; warning = warning })

abbrev pub offset_plan : Option Plan → Prepared
offset_plan none = panics
offset_plan (some p) = rebound p

unfoldable pub plan_with_options : Config → ℤ → ℤ → Bytes → Prepared
plan_with_options cfg limit offset sql =
    let applied = applied_limit cfg limit in
    if not (has_limit sql)
    then cursor_plan applied (limit_warning cfg limit applied)
        (apply_cursor sql applied offset cfg.max_limit)
    else offset_plan (plan_offset offset (record { sql = sql; applied = pos 0; warning = [] }))

unfoldable pub has_more : ℤ → ℕ → Bool
has_more applied count = ltb_ℤ (pos 0) applied && leb_ℤ applied (pos count)

unfoldable pub query_result : Plan → ℕ → Table → QueryResult
query_result p elapsed (cols, rows) = record (new_query_result cols rows elapsed p.warning) {
  has_more = has_more p.applied (length rows);
}

-- The result of the call of the database.
unfoldable pub answer : Bytes → Plan → ℕ → Result Rows → Result QueryResult
answer prefix p elapsed r = do
  rows ← wrapped prefix r
  table ← read_rows prefix rows
  ok (query_result p elapsed table)

-- What follows the test of the operation.
unfoldable pub run_plan {ℓ} :
    {S : Type ℓ} → Bytes → ℕ → S → (Plan → S × Result Rows) → Option Plan → S × Outcome QueryResult
run_plan prefix elapsed db call none = (db, panicked)
run_plan prefix elapsed db call (some p) =
    let (db', r) = call p in (db', returned (answer prefix p elapsed r))

-- `if !sqlnorm.IsSELECT(op)` and the like.
unfoldable pub guarded_query {ℓ} :
    {S : Type ℓ}
    → Bool
    → Error
    → Bytes
    → ℕ
    → S
    → (Plan → S × Result Rows)
    → Option Plan
    → S × Outcome QueryResult
guarded_query allowed e prefix elapsed db call p =
    if not allowed then (db, returned (err (wrap prefix e))) else run_plan prefix elapsed db call p

module _ (drv : Driver) where
  open drv use {Db, Tx, rebind, queryx_context, tx_queryx_context}

  abbrev pub session_call : Config → Ctx → Timing → List Value → Db → Plan → Db × Result Rows
  session_call cfg ctx t args db p =
      queryx_context (with_timeout cfg t.now ctx) (rebind p.sql) args db

  -- `Session.QueryWithLimit`; `Session.Query` is at limit 0.
  unfoldable pub query_with_limit :
      Config → Ctx → Timing → Bytes → ℤ → List Value → Db → Db × Outcome QueryResult
  query_with_limit cfg ctx t sql limit args db =
      guarded_query (is_select (operation sql)) non_select_query (query_prefix (operation sql))
        t.elapsed db (session_call cfg ctx t args db) (plan_with_limit cfg limit sql)

  unfoldable pub query : Config → Ctx → Timing → Bytes → List Value → Db → Db × Outcome QueryResult
  query cfg ctx t sql args db = query_with_limit cfg ctx t sql (pos 0) args db

  -- `Session.QueryWithOffset`.
  unfoldable pub query_with_offset :
      Config → Ctx → Timing → Bytes → ℤ → ℤ → List Value → Db → Db × Outcome QueryResult
  query_with_offset cfg ctx t sql limit offset args db =
      guarded_query (is_select (operation sql)) non_select_query (query_prefix (operation sql))
        t.elapsed db (session_call cfg ctx t args db) (plan_with_offset cfg limit offset sql)

  unfoldable pub run_prepared :
      Config → Ctx → Timing → Bytes → List Value → Db → Prepared → Db × Outcome QueryResult
  run_prepared cfg ctx t prefix args db (refused e) = (db, returned (err (wrap prefix e)))
  run_prepared cfg ctx t prefix args db (direct p) =
      run_plan prefix t.elapsed db (λ q. queryx_context (with_timeout cfg t.now ctx) q.sql args db)
        (some p)
  run_prepared cfg ctx t prefix args db (rebound p) =
      run_plan prefix t.elapsed db (session_call cfg ctx t args db) (some p)
  run_prepared cfg ctx t prefix args db panics = (db, panicked)

  -- `Session.QueryWithOptions`.
  unfoldable pub query_with_options :
      Config → Ctx → Timing → Bytes → ℤ → ℤ → List Value → Db → Db × Outcome QueryResult
  query_with_options cfg ctx t sql limit offset args db =
      let prefix = query_prefix (operation sql) in
      if not (is_select (operation sql))
      then (db, returned (err (wrap prefix non_select_query)))
      else run_prepared cfg ctx t prefix args db (plan_with_options cfg limit offset sql)

  -- `Session.QueryRead`.
  unfoldable pub query_read :
      Config → Ctx → Timing → Bytes → List Value → Db → Db × Outcome QueryResult
  query_read cfg ctx t sql args db =
      guarded_query (is_read_operation (operation sql)) not_read_operation
        (query_prefix (operation sql)) t.elapsed db (session_call cfg ctx t args db)
        (plan_read cfg sql)

  abbrev pub tx_call : Tx → Ctx → List Value → Db → Plan → Db × Result Rows
  tx_call tx ctx args db p = tx_queryx_context tx ctx (rebind p.sql) args db

  -- `transaction.Query` on an active transaction.
  unfoldable pub tx_query :
      Config → Tx → Ctx → Timing → Bytes → List Value → Db → Db × Outcome QueryResult
  tx_query cfg tx ctx t sql args db =
      guarded_query (is_select (operation sql)) non_select_query (query_prefix (operation sql))
        t.elapsed db (tx_call tx ctx args db) (plan_in_tx cfg (pos 0) sql)

  -- `transaction.QueryWithOffset` on an active transaction.
  unfoldable pub tx_query_with_offset :
      Config → Tx → Ctx → Timing → Bytes → ℤ → ℤ → List Value → Db → Db × Outcome QueryResult
  tx_query_with_offset cfg tx ctx t sql limit offset args db =
      guarded_query (is_select (operation sql)) non_select_query (query_prefix (operation sql))
        t.elapsed db (tx_call tx ctx args db) (plan_in_tx_offset cfg limit offset sql)

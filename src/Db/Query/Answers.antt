-- ===== src/Db/Query/Answers.antt =====
-- What the query functions return.
use sql_cli.Config.{Config}
use sql_cli.Base.{
  All, Bool, Bytes, List, Option, arith, false, length, none, pos, refl, some, subst, true, ℕ, ℤ,
  ◌↔◌, ◌≡◌, ◌≤ℤ◌,
}
use sql_cli.Db.Driver.{Ctx, Driver, Rows, Timing, with_timeout}
use sql_cli.Db.Query.{
  Plan, answer, guarded_query, has_more, plan_with_limit, query_prefix, query_result,
  query_with_limit, run_plan, session_call,
}
use sql_cli.Sqlnorm.Operation.{is_select, operation}
use sql_cli.Db.Rows.{Table, read_rows}
use sql_cli.Db.Rows.Shape.{HasWidth, IsScanned, read_rows_lem, scanned, slices}
use sql_cli.Db.Types.{
  Error, QueryResult, Result, Value, bind_ok, new_query_result, non_select_query, ok, ok_inj,
  returned, wrapped, wrapped_ok,
}

-- A result is the table of a result set that was read to its end without an error; the count is its
-- number of rows, and `has_more` says that a limit was applied and that many rows came.
pub record Answers (p : Plan) (r : Rows) (q : QueryResult) : Type 0 where
  pub columns : r.columns ≡ ok q.columns
  pub complete : All IsScanned r.scans × (r.end_error ≡ none)
  pub rows : q.rows ≡ slices q.columns (scanned r.scans)
  pub widths : All (HasWidth q.columns) q.rows
  pub count : q.row_count ≡ length r.scans
  pub warning : q.warning ≡ p.warning
  pub more : (q.has_more ≡ true) ↔ ((pos 1 ≤ℤ p.applied) × (p.applied ≤ℤ pos q.row_count))

has_more_iff :
    (applied : ℤ) (count : ℕ)
    → (has_more applied count ≡ true) ↔ ((pos 1 ≤ℤ applied) × (applied ≤ℤ pos count))
unfolding has_more
has_more_iff applied count = (λ h. (ground arith, ground arith), λ h. ground arith)

table_answer :
    (p : Plan) (elapsed : ℕ) (table : Table) (r : Rows)
    → r.columns ≡ ok table.0
    → All IsScanned r.scans
    → r.end_error ≡ none
    → table.1 ≡ slices table.0 (scanned r.scans)
    → All (HasWidth table.0) table.1
    → length table.1 ≡ length r.scans
    → Answers p r (query_result p elapsed table)
unfolding query_result new_query_result
table_answer p elapsed (cols, rows) r c all_ok no_error are widths count = record {
  columns = c;
  complete = (all_ok, no_error);
  rows = are;
  widths = widths;
  count = count;
  warning = refl;
  more = has_more_iff p.applied (length rows);
}

answer-Answers :
    (prefix : Bytes) (p : Plan) (elapsed : ℕ) (r : Result Rows) {q : QueryResult}
    → answer prefix p elapsed r ≡ ok q
    → (rows : Rows) × (r ≡ ok rows) × Answers p rows q
unfolding answer
answer-Answers prefix p elapsed r {q} h =
    let (rows, e, h') = bind_ok (wrapped prefix r) _ h in
    let (table, e', h'') = bind_ok (read_rows prefix rows) _ h' in
    let (cols, all_ok, no_error, are, widths, count) = read_rows_lem prefix rows e' in
    (
      rows,
      wrapped_ok prefix r e,
      subst (Answers p rows) (ok_inj h'')
          (table_answer p elapsed table rows cols all_ok no_error are widths count),
    )

returned_inj : {a b : Result QueryResult} → returned a ≡ returned b → a ≡ b
returned_inj h = cc

run_plan-Answers {ℓ} :
    {S : Type ℓ} (prefix : Bytes) (elapsed : ℕ) (db : S) (call : Plan → S × Result Rows)
    (o : Option Plan) {q : QueryResult}
    → (run_plan prefix elapsed db call o).1 ≡ returned (ok q)
    → (p : Plan) × (o ≡ some p) × ((r : Rows) × ((call p).1 ≡ ok r) × Answers p r q)
unfolding run_plan
run_plan-Answers prefix elapsed db call none h = absurd (cc)
run_plan-Answers prefix elapsed db call (some p) h =
    (p, refl, answer-Answers prefix p elapsed (call p).1 (returned_inj h))

-- Whatever a guarded query returns without an error answers its prepared statement with the result
-- set that the database gave for it.
pub guarded_query-Answers {ℓ} :
    {S : Type ℓ} (allowed : Bool) (e : Error) (prefix : Bytes) (elapsed : ℕ) (db : S)
    (call : Plan → S × Result Rows) (o : Option Plan) {q : QueryResult}
    → (guarded_query allowed e prefix elapsed db call o).1 ≡ returned (ok q)
    → (allowed ≡ true)
      × ((p : Plan) × (o ≡ some p) × ((r : Rows) × ((call p).1 ≡ ok r) × Answers p r q))
unfolding guarded_query
guarded_query-Answers false e prefix elapsed db call o h = absurd (cc)
guarded_query-Answers true e prefix elapsed db call o h =
    (refl, run_plan-Answers prefix elapsed db call o h)

module _ (drv : Driver) (cfg : Config) (ctx : Ctx) (t : Timing) (sql : Bytes) (args : List Value)
    (db : drv.Db) where
  -- A result of `QueryWithLimit` is that of a SELECT. It is the table of the whole result set that
  -- the database gave for the prepared statement, every row as wide as the columns, with the number
  -- of rows scanned as its count, and `has_more` exactly where a positive limit was applied and at
  -- least so many rows came.
  pub query_with_limit-Answers :
      (limit : ℤ) {q : QueryResult}
      → (query_with_limit drv cfg ctx t sql limit args db).1 ≡ returned (ok q)
      → (is_select (operation sql) ≡ true)
        × ((p : Plan) × (plan_with_limit cfg limit sql ≡ some p)
            × ((r : Rows) × ((drv.queryx_context
                    (with_timeout cfg t.now ctx)
                    (drv.rebind p.sql)
                    args
                    db).1
                  ≡ ok r)
                × Answers p r q))
  unfolding query_with_limit
  query_with_limit-Answers limit h =
      guarded_query-Answers (is_select (operation sql)) non_select_query
        (query_prefix (operation sql)) t.elapsed db (session_call drv cfg ctx t args db)
        (plan_with_limit cfg limit sql) h

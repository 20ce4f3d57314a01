-- ===== src/Tests/Results.antt =====
-- What a query returns, with one row in the result set.

use sql_cli.Db.Driver.{Rows, with_timeout}
use sql_cli.Db.Query.Answers.{Answers, query_with_limit-Answers}
use sql_cli.Sqlnorm.Operation.{is_select, operation}
use sql_cli.Base.{Bytes, List, [], codes, pos, refl, some, true, ◌∷◌, ◌≡◌}
use sql_cli.Config.{default_config}
use sql_cli.Db.Query.{
  Plan, answer, applied_limit, applied_warning, guarded_query, limit_warning, plan_limit,
  plan_with_limit, query_result, query_with_limit, run_plan,
}
use sql_cli.Db.Rows.{collect, convert_row_bytes, convert_value, get, read_rows, row_slice}
use sql_cli.Db.Types.{Outcome, QueryResult, Result, Value, non_select_query, ok, returned, text}
use sql_cli.Sqlnorm.Itoa.{emit, finish, format_int, itoa}
use sql_cli.Sqlnorm.Keyword.{
  has_limit, is_delimiter, keyword_loop, match_keyword, next_index, stands_alone,
}
use sql_cli.Sqlnorm.Limit.{append_limit, body_of, has_semi, suffix}
use sql_cli.Sqlnorm.Quoted.{strip_byte, strip_from, strip_quoted}
use sql_cli.Strings.{
  byte_in, has_prefix, has_suffix, index, index_any, is_space, to_upper, trim_left, trim_right,
  trim_space, upper_byte,
}
use sql_cli.Tests.Logged.{ctx0, logged, one_row, timing0}

abbrev id_name : List Bytes
id_name = codes "id" ∷ codes "name" ∷ []

abbrev seven_ann : List (List Value)
seven_ann = (Value.number (pos 7) ∷ text (codes "ann") ∷ []) ∷ []

one_row-read : read_rows [] one_row ≡ ok (id_name, seven_ann)
unfolding read_rows collect convert_row_bytes convert_value row_slice get
one_row-read = refl

abbrev limit_one : Bytes
limit_one = codes "select a"

abbrev limited_plan : Plan
limited_plan = record {
  sql = codes "select a LIMIT 1";
  applied = pos 1;
  warning = codes "LIMIT 1 applied automatically";
}

limit_one-plan : plan_with_limit default_config (pos 1) limit_one ≡ some limited_plan
unfolding default_config plan_with_limit plan_limit limit_warning applied_warning format_int
    applied_limit has_limit match_keyword keyword_loop stands_alone next_index is_delimiter
    strip_quoted strip_from strip_byte to_upper upper_byte index has_prefix append_limit body_of
    has_semi suffix itoa emit finish trim_space trim_left trim_right is_space has_suffix
limit_one-plan = refl

limit_one-is_select : is_select (operation limit_one) ≡ true
unfolding is_select operation to_upper upper_byte trim_space trim_left trim_right is_space index_any
    byte_in
limit_one-is_select = refl

abbrev limit_one_query : List Bytes × Outcome QueryResult
limit_one_query = query_with_limit logged default_config ctx0 timing0 limit_one (pos 1) [] []

limit_one_query-returned :
    limit_one_query.1 ≡ returned (ok (query_result limited_plan 2000000 (id_name, seven_ann)))
unfolding query_with_limit guarded_query run_plan answer read_rows collect convert_row_bytes
    convert_value row_slice get
limit_one_query-returned = rw (limit_one-is_select, limit_one-plan)

query_with_limit-Answers_example :
    (is_select (operation limit_one) ≡ true)
    × ((p : Plan) × (plan_with_limit default_config (pos 1) limit_one ≡ some p)
        × ((r : Rows) × ((logged.queryx_context (with_timeout default_config 5 ctx0) p.sql [] []).1
              ≡ ok r)
            × Answers p r (query_result limited_plan 2000000 (id_name, seven_ann))))
query_with_limit-Answers_example =
    query_with_limit-Answers logged default_config ctx0 timing0 limit_one [] [] (pos 1)
      limit_one_query-returned

abbrev call : Plan → List Bytes × Result Rows
call p = (p.sql ∷ [], ok one_row)

direct_answer :
    (guarded_query true non_select_query [] 2000000 [] call (some limited_plan)).1
    ≡ returned (ok (query_result limited_plan 2000000 (id_name, seven_ann)))
unfolding guarded_query run_plan answer read_rows collect convert_row_bytes convert_value row_slice
    get
direct_answer = refl

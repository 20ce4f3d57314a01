-- ===== src/Tests/Sessions.antt =====
-- Statements in a session: pkg/db/executor.go and the query functions.

use sql_cli.Db.Stream.{query_stream}
use sql_cli.Db.Stream.Start.{StartOf, query_stream-StartOf}
use sql_cli.Tests.Logged.{ctx0, logged, timing0}
use sql_cli.Db.Query.{
  applied_limit, plan_limit, plan_with_limit, query_with_limit, query_with_offset, tx_query,
}
use sql_cli.Db.Query.Limits.{IsSane, Limited}
use sql_cli.Db.Query.Sent.{query-Limited, query_with_offset_panics}
use sql_cli.Guard.Dangerous.{IsDangerous}
use sql_cli.Sqlnorm.Operation.{is_select, operation, requires_where}
use sql_cli.Sqlnorm.Keyword.{
  has_limit, has_offset, is_delimiter, keyword_loop, match_keyword, next_index, stands_alone,
}
use sql_cli.Strings.{
  byte_in, has_prefix, index, index_any, is_space, to_upper, trim_left, trim_right, trim_space,
  upper_byte,
}
use sql_cli.Base.{
  Bytes, [], arith, codes, false, inl, inr, none, pos, refl, some, true, ◌↔◌, ◌∷◌, ◌≡◌, ◌≢◌,
}
use sql_cli.Config.{default_config}
use sql_cli.Db.Driver.{with_timeout}
use sql_cli.Db.Exec.{exec, exec_guards, exec_prefix, tx_exec}
use sql_cli.Db.Exec.Safety.{Refuses, dangerous, exec-allowed, exec-refused, exec_guards_iff}
use sql_cli.Sqlnorm.Quoted.{strip_byte, strip_from, strip_quoted}
use sql_cli.Sqlnorm.Quoted.Laws.{IsBalanced, quote_after}
use sql_cli.Db.Types.{Error, err, guarded, panicked, wrap}
use sql_cli.Guard.{
  any_op, check, dangerous_op_prompt, is_boundary, is_dangerous_op, matches_op, same_upper,
}

abbrev drop_table : Bytes
drop_table = codes "DROP TABLE t"

exec_guards_iff_example :
    (exec_guards default_config drop_table ≡ some (guarded dangerous_op_prompt))
    ↔ Refuses default_config drop_table (guarded dangerous_op_prompt)
exec_guards_iff_example = exec_guards_iff default_config drop_table (guarded dangerous_op_prompt)

drop_table-IsDangerous : IsDangerous drop_table
unfolding to_upper upper_byte is_boundary
drop_table-IsDangerous = inl (record {
  head = codes "DROP";
  rest = codes " TABLE t";
  splits = refl;
  same = refl;
  ends = inr (b' ', codes "TABLE t", refl, refl);
})

drop_table-Refuses : Refuses default_config drop_table (guarded dangerous_op_prompt)
unfolding default_config
drop_table-Refuses = dangerous dangerous_op_prompt drop_table-IsDangerous refl refl

exec-refused_example :
    (exec logged default_config ctx0 timing0 drop_table [] []
      ≡ ([], err (wrap (exec_prefix (operation drop_table)) (guarded dangerous_op_prompt))))
    × (tx_exec logged default_config tt ctx0 timing0 drop_table [] []
        ≡ ([], err (wrap (exec_prefix (operation drop_table)) (guarded dangerous_op_prompt))))
exec-refused_example =
    exec-refused logged default_config tt ctx0 timing0 drop_table [] [] drop_table-Refuses

abbrev insert : Bytes
insert = codes "INSERT t"

insert-allowed : (e : Error) → ¬ Refuses default_config insert e
insert-allowed e r =
    let no_guard : exec_guards default_config insert ≡ none =
      unfold exec_guards default_config check is_dangerous_op any_op matches_op same_upper
        requires_where operation to_upper upper_byte trim_space trim_left trim_right is_space
        index_any byte_in in
      cc in
    absurd (cc (no_guard, (exec_guards_iff default_config insert e).1 r))

exec-allowed_example :
    (exec logged default_config ctx0 timing0 insert [] []).0
    ≡ (logged.exec_context (with_timeout default_config 5 ctx0) insert [] []).0
exec-allowed_example = exec-allowed logged default_config ctx0 timing0 insert [] [] insert-allowed

default-IsSane : IsSane default_config
unfolding default_config
default-IsSane = record {
  default_positive = omega arith;
  max_positive = omega arith;
  max_fits = omega arith;
}

abbrev select : Bytes
select = codes "select a"

select-is_select : is_select (operation select) ≡ true
unfolding is_select operation to_upper upper_byte trim_space trim_left trim_right is_space index_any
    byte_in
select-is_select = refl

select-has_limit : has_limit select ≡ false
unfolding has_limit match_keyword keyword_loop stands_alone next_index is_delimiter strip_quoted
    strip_from strip_byte to_upper upper_byte index has_prefix
select-has_limit = refl

select-IsBalanced : IsBalanced select
unfolding quote_after strip_byte
select-IsBalanced = refl

query-Limited_example :
    ((out : Bytes) × ((query_with_limit logged default_config ctx0 timing0 select (pos 5) [] []).0
        ≡ out ∷ [])
      × ((query_with_limit logged default_config ctx0 timing0 select (pos 5) [] []).1 ≢ panicked)
      × Limited default_config select out (applied_limit default_config (pos 5)))
    × ((out : Bytes) × ((tx_query logged default_config tt ctx0 timing0 select [] []).0 ≡ out ∷ [])
        × ((tx_query logged default_config tt ctx0 timing0 select [] []).1 ≢ panicked)
        × Limited default_config select out (applied_limit default_config (pos 0)))
query-Limited_example =
    query-Limited logged default_config ctx0 timing0 select [] [] tt (pos 5) default-IsSane
      select-IsBalanced select-is_select select-has_limit

abbrev own : Bytes
own = codes "select a limit 9000"

own-is_select : is_select (operation own) ≡ true
unfolding is_select operation to_upper upper_byte trim_space trim_left trim_right is_space index_any
    byte_in
own-is_select = refl

own-has_limit : has_limit own ≡ true
unfolding has_limit match_keyword keyword_loop stands_alone next_index is_delimiter strip_quoted
    strip_from strip_byte to_upper upper_byte index has_prefix
own-has_limit = refl

own-plan :
    plan_with_limit default_config (pos 5) own
    ≡ some (record { sql = own; applied = pos 0; warning = [] })
unfolding plan_with_limit plan_limit
own-plan = rw own-has_limit

own-has_offset : has_offset own ≡ false
unfolding has_offset match_keyword keyword_loop stands_alone next_index is_delimiter strip_quoted
    strip_from strip_byte to_upper upper_byte index has_prefix
own-has_offset = refl

query_with_offset_panics_example :
    query_with_offset logged default_config ctx0 timing0 own (pos 5) (pos 1000000000000) [] []
    ≡ ([], panicked)
query_with_offset_panics_example =
    query_with_offset_panics logged default_config ctx0 timing0 own [] [] (pos 5) 1000000000000
      own-is_select own-plan own-has_offset (omega arith)

query_stream-StartOf_example :
    StartOf default_config select (pos 0) (query_stream default_config select (pos 0))
query_stream-StartOf_example =
    query_stream-StartOf default_config select (pos 0) default-IsSane select-IsBalanced

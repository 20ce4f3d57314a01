-- ===== src/Tests/Statements.antt =====
-- internal/sqlnorm and pkg/guard at concrete statements.
use sql_cli.Base.{Bytes, arith, codes, false, negsuc, none, pos, refl, some, true, ◌↔◌, ◌∷◌, ◌≡◌}
use sql_cli.Guard.{block, check, is_dangerous_op}
use sql_cli.Guard.Dangerous.{IsDangerous, check_behind_space, is_dangerous_op_iff}
use sql_cli.Sqlnorm.Itoa.{emit, finish, itoa}
use sql_cli.Sqlnorm.Itoa.Value.{itoa-value, value}
use sql_cli.Sqlnorm.Keyword.{
  has_where, is_delimiter, keyword_loop, match_keyword, next_index, stands_alone,
}
use sql_cli.Sqlnorm.Keyword.Correct.{StandsIn, match_keyword_iff}
use sql_cli.Sqlnorm.Limit.{append_limit, append_offset, body_of, has_semi, suffix}
use sql_cli.Sqlnorm.Operation.{operation}
use sql_cli.Sqlnorm.Quoted.{strip_byte, strip_from, strip_quoted}
use sql_cli.Strings.{
  has_prefix, has_suffix, index, is_space, to_upper, trim_left, trim_right, trim_space, upper_byte,
}

abbrev users : Bytes
users = codes "select * from users;"

users_limited : append_limit users (pos 100) ≡ some (codes "select * from users LIMIT 100;")
unfolding append_limit body_of has_semi suffix itoa emit finish trim_space trim_left trim_right
    is_space has_suffix
users_limited = refl

where_in_literal : has_where (codes "DELETE FROM t -- 'WHERE'") ≡ false
unfolding has_where match_keyword keyword_loop stands_alone next_index is_delimiter strip_quoted
    strip_from strip_byte to_upper upper_byte index has_prefix
where_in_literal = refl

-- A comment is not hidden: the guard of an unconditional DELETE is passed.
where_in_comment : has_where (codes "DELETE FROM t -- WHERE") ≡ true
unfolding has_where match_keyword keyword_loop stands_alone next_index is_delimiter strip_quoted
    strip_from strip_byte to_upper upper_byte index has_prefix
where_in_comment = refl

match_keyword_iff_example :
    (match_keyword (codes "a where b") (codes "WHERE") ≡ true)
    ↔ StandsIn (to_upper (codes "a where b")) (codes "WHERE")
match_keyword_iff_example = match_keyword_iff (codes "a where b") (codes "WHERE") cc

itoa-value_example : (d : Bytes) × (itoa (negsuc 41) ≡ some d) × (value d ≡ negsuc 41)
itoa-value_example = itoa-value (negsuc 41) (omega arith)

users_offset : append_offset users (pos 20) ≡ some (codes "select * from users OFFSET 20;")
unfolding append_offset body_of has_semi suffix itoa emit finish trim_space trim_left trim_right
    is_space has_suffix
users_offset = refl

is_dangerous_op_iff_example :
    (is_dangerous_op (codes "drop table t") ≡ true) ↔ IsDangerous (codes "drop table t")
is_dangerous_op_iff_example = is_dangerous_op_iff (codes "drop table t")

check_behind_space_example :
    (check block (b' ' ∷ codes "DROP TABLE t") ≡ none)
    × (operation (b' ' ∷ codes "DROP TABLE t") ≡ operation (codes "DROP TABLE t"))
unfolding is_space
check_behind_space_example = check_behind_space block b' ' (codes "DROP TABLE t") refl

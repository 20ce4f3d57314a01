-- ===== src/Sqlnorm/Operation.antt =====
-- internal/sqlnorm/sqlnorm.go, `Operation` and the tests of an operation.
pub mod Laws
use sql_cli.Base.{
  Bool, Bytes, Option, [], beq, codes, if◌then◌else◌, length, none, some, take, ℕ, ◌==◌, ◌||◌,
}
use sql_cli.Strings.{index_any, to_upper, trim_space}

abbrev pub separators : Bytes
separators = codes " \t\n\r("

-- The text up to an index, or all of it.
abbrev pub cut_at : Bytes → Option ℕ → Bytes
cut_at s none = s
cut_at s (some i) = take i s

unfoldable pub operation : Bytes → Bytes
operation sql =
    let s = trim_space sql in
    if length s == 0 then [] else to_upper (cut_at s (index_any s separators))

unfoldable pub is_select : Bytes → Bool
is_select op = beq op (codes "SELECT") || beq op (codes "WITH")

unfoldable pub is_read_operation : Bytes → Bool
is_read_operation op =
    beq op (codes "SELECT")
    || beq op (codes "WITH")
    || beq op (codes "SHOW")
    || beq op (codes "DESCRIBE")
    || beq op (codes "DESC")
    || beq op (codes "EXPLAIN")

unfoldable pub requires_where : Bytes → Bool
requires_where op = beq op (codes "UPDATE") || beq op (codes "DELETE")

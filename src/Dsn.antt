-- ===== src/Dsn.antt =====
-- pkg/dsn/parse.go: which driver a DSN is for.
pub mod Schemes
pub mod Drivers
use sql_cli.Base.{
  Bool, Bytes, Option, [], beq, codes, drop, false, if◌then◌else◌, leb, length, none, not, some,
  take, true, ℕ, ◌&&◌, ◌++◌, ◌+◌, ◌/◌, ◌||◌, ◌∷◌,
}
use sql_cli.Db.Types.{Result, err, foreign, ok, quoted}
use sql_cli.Strings.{
  contains, has_prefix, has_suffix, index, index_any, is_empty, to_lower, trim_space,
}

abbrev pub driver_mysql : Bytes
driver_mysql = codes "mysql"

abbrev pub driver_postgres : Bytes
driver_postgres = codes "postgres"

abbrev pub driver_sqlite : Bytes
driver_sqlite = codes "sqlite3"

abbrev pub driver_oracle : Bytes
driver_oracle = codes "oracle"

-- `strings.EqualFold`, on ASCII texts.
abbrev pub equal_fold : Bytes → Bytes → Bool
equal_fold s t = beq (to_lower s) (to_lower t)

unfoldable pub has_prefix_fold : Bytes → Bytes → Bool
has_prefix_fold s prefix =
    leb (length prefix) (length s) && equal_fold (take (length prefix) s) prefix

unfoldable pub looks_like_sqlite_path : Bytes → Bool
looks_like_sqlite_path dsn =
    let lower = to_lower dsn in
    has_suffix lower (codes ".db")
    || has_suffix lower (codes ".sqlite")
    || has_suffix lower (codes ".sqlite3")
    || has_suffix lower (codes ".s3db")
    || has_suffix lower (codes ".db3")

-- `strings.LastIndex(s, "/") > 0`.
abbrev pub slash_inside : Bytes → Bool
slash_inside [] = false
slash_inside (c ∷ s) = contains s (codes "/")

-- The tests behind the `@`, on the trimmed text.
unfoldable pub oracle_host : Bytes → Bool
oracle_host after =
    not (contains after (codes "tcp("))
    && (contains after (codes ":")
        || has_prefix after (codes "//")
        || (not (is_empty after)
            && elim (index_any after (codes " \t=()")) [ none ↦ true | some i ↦ false ]))

abbrev pub oracle_parts : Bytes → Option ℕ → Bool
oracle_parts dsn none = false
oracle_parts dsn (some at) =
    contains (take at dsn) (codes "/")
    && slash_inside (trim_space (take at dsn))
    && oracle_host (trim_space (drop (at + 1) dsn))

unfoldable pub looks_like_oracle : Bytes → Bool
looks_like_oracle dsn = oracle_parts dsn (index dsn (codes "@"))

-- The cases of `Detect`, on the trimmed text.
unfoldable pub detect_trimmed : Bytes → Result Bytes
detect_trimmed dsn =
    if has_prefix_fold dsn (codes "postgres://") || has_prefix_fold dsn (codes "postgresql://")
    then ok driver_postgres
    else if has_prefix_fold dsn (codes "mysql://")
    then ok driver_mysql
    else if contains dsn (codes "@tcp(")
        || contains dsn (codes "@unix(")
        || contains dsn (codes "@tcp4(")
        || contains dsn (codes "@tcp6(")
    then ok driver_mysql
    else if beq dsn (codes ":memory:")
    then ok driver_sqlite
    else if has_prefix_fold dsn (codes "file:")
    then ok driver_sqlite
    else if looks_like_sqlite_path dsn
    then ok driver_sqlite
    else if looks_like_oracle dsn
    then ok driver_oracle
    else if contains dsn (codes "@") && contains dsn (codes "/")
    then ok driver_mysql
    else err (foreign (codes "unrecognized DSN format: " ++ quoted dsn))

unfoldable pub detect : Bytes → Result Bytes
detect dsn =
    let trimmed = trim_space dsn in
    if is_empty trimmed then err (foreign (codes "empty DSN")) else detect_trimmed trimmed

-- ===== src/Sqlnorm/Limit.antt =====
-- internal/sqlnorm/sqlnorm.go, `AppendLIMIT`, `AppendOFFSET` and `suffix`, and
-- internal/sqlnorm/pagination.go. `none` is the panic of `itoa`.
pub mod Kept
pub mod Cursor
use mathlib.Core.Option
use sql_cli.Base.{
  Bool, Bytes, Option, [], codes, if◌then◌else◌, leb_ℤ, length, ltb_ℤ, map, pos, take, ℤ, ◌&&◌,
  ◌++◌, ◌-◌,
}
use sql_cli.Sqlnorm.Itoa.{format_int, itoa}
use sql_cli.Strings.{has_suffix, trim_space}

abbrev pub semicolon : Bytes
semicolon = codes ";"

-- `s[:len(s)-1]` where the trimmed text ends with a semicolon.
unfoldable pub body_of : Bytes → Bytes
body_of sql = let s = trim_space sql in if has_suffix s semicolon then take (length s - 1) s else s

unfoldable pub has_semi : Bytes → Bool
has_semi sql = has_suffix (trim_space sql) semicolon

unfoldable pub suffix : Bool → Bytes
suffix semi = if semi then semicolon else []

-- The text with a clause behind it and the semicolon last.
abbrev pub with_clause : Bytes → Bytes → Bytes → Bytes
with_clause sql clause digits = body_of sql ++ (clause ++ (digits ++ suffix (has_semi sql)))

unfoldable pub append_limit : Bytes → ℤ → Option Bytes
append_limit sql limit = Option.map (with_clause sql (codes " LIMIT ")) (itoa limit)

unfoldable pub append_offset : Bytes → ℤ → Option Bytes
append_offset sql offset = Option.map (with_clause sql (codes " OFFSET ")) (itoa offset)

pub record Pagination : Type 0 where
  pub limit : ℤ
  pub offset : ℤ

unfoldable pub is_zero : Pagination → Bool
is_zero p = leb_ℤ p.limit (pos 0) && leb_ℤ p.offset (pos 0)

pub data CursorError : Type 0 where
  negative_limit negative_offset : ℤ → CursorError

pub data CursorResult : Type 0 where
  paged : Bytes → CursorResult
  refused : CursorError → CursorResult

-- `appliedLimit`.
unfoldable pub cursor_limit : ℤ → ℤ → ℤ
cursor_limit limit max_limit =
    let applied = if leb_ℤ limit (pos 0) then pos 100 else limit in
    if ltb_ℤ (pos 0) max_limit && ltb_ℤ max_limit applied then max_limit else applied

unfoldable pub apply_cursor : Bytes → ℤ → ℤ → ℤ → CursorResult
apply_cursor text limit offset max_limit =
    let applied = format_int (cursor_limit limit max_limit) in
    let page =
      if ltb_ℤ (pos 0) offset
      then codes " LIMIT " ++ (applied ++ (codes " OFFSET " ++ format_int offset))
      else codes " LIMIT " ++ applied in
    if ltb_ℤ limit (pos 0)
    then refused (negative_limit limit)
    else if ltb_ℤ offset (pos 0)
    then refused (negative_offset offset)
    else paged (body_of text ++ (page ++ (if has_semi text then semicolon else [])))

-- ===== src/Sqlnorm/Quoted.antt =====
-- internal/sqlnorm/sqlnorm.go, `stripQuoted`. The flags `inSingle` and `inDouble` are never set
-- together, so they are one value of three.
pub mod Laws
use sql_cli.Base.{ℕ, [], ◌∷◌, ◌==◌, if◌then◌else◌, Bytes}

pub data Quote : Type 0 where
  outside in_single in_double : Quote

-- One round of the loop: the flags after it, and the byte that is written.
unfoldable pub strip_byte : Quote → ℕ → Quote × ℕ
strip_byte in_single c = (if c == b'\'' then outside else in_single, b' ')
strip_byte in_double c = (if c == b'"' then outside else in_double, b' ')
strip_byte outside c =
    if c == b'\'' then (in_single, b' ') else if c == b'"' then (in_double, b' ') else (outside, c)

unfoldable pub strip_from : Quote → Bytes → Bytes
strip_from q [] = []
strip_from q (c ∷ s) = (strip_byte q c).1 ∷ strip_from (strip_byte q c).0 s

unfoldable pub strip_quoted : Bytes → Bytes
strip_quoted = strip_from outside

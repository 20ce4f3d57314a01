-- ===== src/Sqlnorm/Itoa.antt =====
-- internal/sqlnorm/sqlnorm.go, `itoa`, and what `%d` of package fmt prints. The buffer of 12 bytes is
-- the number of its free places with the bytes written behind them; a write in front of the buffer
-- is a Go panic, `none`.
pub mod Value
use sql_cli.Base.{
  Bool, Bytes, Option, [], false, if◌then◌else◌, negsuc, none, pos, some, suc, true, zero, ℕ, ℤ,
  ◌%◌, ◌+◌, ◌/◌, ◌==◌, ◌^◌, ◌∷◌,
}

-- `for n > 0`, from `i` free places.
unfoldable pub emit : ℕ → ℕ → Bytes → Option (ℕ × Bytes)
emit zero n out = if n == 0 then some (zero, out) else none
emit (suc i) n out =
    let rest = emit i (n / 10) ((b'0' + n % 10) ∷ out) in if n == 0 then some (suc i, out) else rest

-- `buf[i:]`, behind the sign where there is one.
unfoldable pub finish : Bool → Option (ℕ × Bytes) → Option Bytes
finish neg none = none
finish false (some (i, out)) = some out
finish true (some (zero, out)) = none
finish true (some (suc i, out)) = some (b'-' ∷ out)

-- `n = -n` on an int64: the least one, -2^63, is its own negation, and the loop ends at once.
abbrev pub magnitude : ℕ → ℕ
magnitude m = if m == 2 ^ 63 then 0 else m

unfoldable pub itoa : ℤ → Option Bytes
itoa (pos n) = if n == 0 then some (b'0' ∷ []) else finish false (emit 12 n [])
itoa (negsuc m) = finish true (emit 12 (magnitude (suc m)) [])

abbrev pub written : Option (ℕ × Bytes) → Bytes
written none = []
written (some (i, out)) = out

-- `%d`: a number has fewer digits than its value.
unfoldable pub format_int : ℤ → Bytes
format_int (pos n) = if n == 0 then b'0' ∷ [] else written (emit n n [])
format_int (negsuc m) = b'-' ∷ written (emit (suc m) (suc m) [])

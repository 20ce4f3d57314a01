-- ===== src/Db/Types.antt =====
-- pkg/result/result.go, and the errors of pkg/db. A Go error is its sentinel value with the text that
-- `fmt.Errorf` put in front of it.
use sql_cli.Base.{
  Bool, Bytes, List, [], codes, false, if◌then◌else◌, length, ltb, refl, true, ℕ, ℤ, ◌%◌, ◌++◌, ◌+◌,
  ◌-◌, ◌/◌, ◌==◌, ◌||◌, ◌∷◌, ◌≡◌,
}
use sql_cli.Sqlnorm.Itoa.{format_int}
use sql_cli.Guard.{GuardError, dangerous_op, dangerous_op_prompt}
use sql_cli.Sqlnorm.Limit.{CursorError, negative_limit, negative_offset}

-- What a column holds, as far as the program tells it apart.
pub data Value : Type 0 where
  null : Value
  bytes : Bytes → Value
  text : Bytes → Value
  number : ℤ → Value

pub data Error : Type 0 where
  guarded : GuardError → Error
  unconditional_modify non_select_query not_read_operation tx_done : Error
  cursor : CursorError → Error
  max_concurrent : ℤ → Error
  foreign : Bytes → Error
  wrap : Bytes → Error → Error

-- The texts behind `err.Error()`; `wrap` is the format "%s: %w".
unfoldable pub guard_text : GuardError → Bytes
guard_text dangerous_op = codes "dangerous operation blocked"
guard_text dangerous_op_prompt = codes "dangerous operation requires confirmation"

unfoldable pub cursor_text : CursorError → Bytes
cursor_text (negative_limit n) = codes "negative limit: " ++ format_int n
cursor_text (negative_offset n) = codes "negative offset: " ++ format_int n

unfoldable pub error_text : Error → Bytes
error_text (guarded g) = guard_text g
error_text unconditional_modify = codes "UPDATE/DELETE without WHERE clause"
error_text non_select_query = codes "only SELECT queries are allowed"
error_text not_read_operation =
    codes "only read operations are allowed (SELECT, SHOW, DESCRIBE, EXPLAIN)"
error_text tx_done = codes "transaction is already committed or rolled back"
error_text (cursor e) = cursor_text e
error_text (max_concurrent n) =
    codes "max concurrent queries reached (" ++ (format_int n ++ codes ")")
error_text (foreign s) = s
error_text (wrap s e) = s ++ (codes ": " ++ error_text e)

-- A digit of a number in base 16.
abbrev pub hex_digit : ℕ → ℕ
hex_digit n = if ltb n 10 then b'0' + n else n - 10 + b'a'

-- One byte of `%q`.
unfoldable pub quoted_byte : ℕ → Bytes
quoted_byte c =
    if c == b'"'
    then codes "\\\""
    else if c == b'\\'
    then codes "\\\\"
    else if c == 7
    then codes "\\a"
    else if c == 8
    then codes "\\b"
    else if c == b'\t'
    then codes "\\t"
    else if c == b'\n'
    then codes "\\n"
    else if c == 11
    then codes "\\v"
    else if c == 12
    then codes "\\f"
    else if c == b'\r'
    then codes "\\r"
    else if ltb c 32 || c == 127
    then codes "\\x" ++ (hex_digit (c / 16) ∷ hex_digit (c % 16) ∷ [])
    else c ∷ []

unfoldable pub quoted_bytes : Bytes → Bytes
quoted_bytes [] = []
quoted_bytes (c ∷ s) = quoted_byte c ++ quoted_bytes s

-- `%q`, on ASCII.
abbrev pub quoted : Bytes → Bytes
quoted s = codes "\"" ++ (quoted_bytes s ++ codes "\"")

-- `errors.Is(err, guard.ErrDangerousOpPrompt)`.
unfoldable pub is_prompt : Error → Bool
is_prompt (guarded dangerous_op_prompt) = true
is_prompt (wrap s e) = is_prompt e
is_prompt _ = false

pub data Result {ℓ} (A : Type ℓ) : Type ℓ where
  ok : A → Result A
  err : Error → Result A

-- A call that may panic.
pub data Outcome (A : Type 0) : Type 0 where
  returned : Result A → Outcome A
  panicked : Outcome A

-- What follows a call that returned no error.
infixl 5 ◌>>=◌
abbrev pub ◌>>=◌ {ℓ κ} : {A : Type ℓ} {B : Type κ} → Result A → (A → Result B) → Result B
err e >>= _ = err e
ok a >>= follow = follow a

pub ok_inj {ℓ} : {A : Type ℓ} {a b : A} → ok a ≡ ok b → a ≡ b
ok_inj h = cc

pub bind_ok {ℓ κ} :
    {A : Type ℓ} {B : Type κ} (first : Result A) (follow : A → Result B) {b : B}
    → (first >>= follow) ≡ ok b
    → (a : A) × (first ≡ ok a) × (follow a ≡ ok b)
bind_ok (err e) _ h = cc
bind_ok (ok a) _ h = (a, refl, h)

-- `if err != nil { return nil, fmt.Errorf("...: %w", err) }`.
abbrev pub wrapped {ℓ} : {A : Type ℓ} → Bytes → Result A → Result A
wrapped s (ok a) = ok a
wrapped s (err e) = err (wrap s e)

pub wrapped_ok {ℓ} : {A : Type ℓ} (s : Bytes) (m : Result A) {a : A} → wrapped s m ≡ ok a → m ≡ ok a
wrapped_ok s (ok a) h = h
wrapped_ok s (err e) h = cc

pub record ExecResult : Type 0 where
  pub last_insert_id : ℤ
  pub rows_affected : ℤ
  pub duration_ms : ℕ
  pub error : Bytes

pub record QueryResult : Type 0 where
  pub columns : List Bytes
  pub rows : List (List Value)
  pub row_count : ℕ
  pub duration_ms : ℕ
  pub warning : Bytes
  pub has_more : Bool
  pub error : Bytes

-- `duration.Milliseconds()`, of nanoseconds.
abbrev pub milliseconds : ℕ → ℕ
milliseconds d = d / 1000000

unfoldable pub new_exec_result : ℤ → ℤ → ℕ → ExecResult
new_exec_result id affected duration = record {
  last_insert_id = id;
  rows_affected = affected;
  duration_ms = milliseconds duration;
  error = [];
}

unfoldable pub new_query_result : List Bytes → List (List Value) → ℕ → Bytes → QueryResult
new_query_result columns rows duration warning = record {
  columns = columns;
  rows = rows;
  row_count = length rows;
  duration_ms = milliseconds duration;
  warning = warning;
  has_more = false;
  error = [];
}

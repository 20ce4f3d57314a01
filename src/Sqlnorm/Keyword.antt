-- ===== src/Sqlnorm/Keyword.antt =====
-- internal/sqlnorm/sqlnorm.go, `matchKeyword`, `isDelimiter` and the three tests that call them.
pub mod Search
pub mod Correct
use sql_cli.Base.{
  ℕ, zero, suc, ◌+◌, ◌-◌, Bool, true, false, ◌&&◌, ◌||◌, Option, none, some, leb, ◌==◌,
  if◌then◌else◌, Bytes, codes, length, drop, get_or,
}
use sql_cli.Sqlnorm.Quoted.{strip_quoted}
use sql_cli.Strings.{shift, index, to_upper}

unfoldable pub is_delimiter : ℕ → Bool
is_delimiter c =
    c == b' '
    || c == b'\t'
    || c == b'\n'
    || c == b'\r'
    || c == b'('
    || c == b')'
    || c == b','
    || c == b';'
    || c == b'='
    || c == b'<'
    || c == b'>'
    || c == b'!'
    || c == b'+'
    || c == b'-'
    || c == b'*'
    || c == b'/'
    || c == b'\''
    || c == b'"'

-- The two tests inside the loop, at an occurrence; an index is read only where it is in range.
unfoldable pub stands_alone : Bytes → Bytes → ℕ → Bool
stands_alone upper keyword idx =
    (idx == 0 || is_delimiter (get_or upper (idx - 1) 0))
    && (leb (length upper) (idx + length keyword)
        || is_delimiter (get_or upper (idx + length keyword) 0))

-- The end of the loop's body: where the next occurrence is.
unfoldable pub next_index : Bytes → Bytes → ℕ → Option ℕ
next_index upper keyword idx =
    if leb (length upper) (idx + 1)
    then none
    else shift (idx + 1) (index (drop (idx + 1) upper) keyword)

-- `for idx >= 0`, on fuel; the result is `none` where the fuel runs out.
unfoldable pub keyword_loop : ℕ → Bytes → Bytes → Option ℕ → Option Bool
keyword_loop zero upper keyword idx = none
keyword_loop (suc f) upper keyword none = some false
keyword_loop (suc f) upper keyword (some idx) =
    let rest = keyword_loop f upper keyword (next_index upper keyword idx) in
    if stands_alone upper keyword idx then some true else rest

abbrev pub is_found : Option Bool → Bool
is_found none = false
is_found (some b) = b

unfoldable pub match_keyword : Bytes → Bytes → Bool
match_keyword sql keyword =
    let upper = to_upper sql in
    is_found (keyword_loop (length upper + 2) upper keyword (index upper keyword))

unfoldable pub has_where : Bytes → Bool
has_where sql = match_keyword (strip_quoted sql) (codes "WHERE")

unfoldable pub has_limit : Bytes → Bool
has_limit sql = match_keyword (strip_quoted sql) (codes "LIMIT")

unfoldable pub has_offset : Bytes → Bool
has_offset sql = match_keyword (strip_quoted sql) (codes "OFFSET")

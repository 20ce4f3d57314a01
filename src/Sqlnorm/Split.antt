-- ===== src/Sqlnorm/Split.antt =====
-- internal/sqlnorm/split.go. Of the five flags of the loop one at most is set at a time, so they are
-- one value of six; `normal` is none. `i++` inside the body is the flag `skip` of the next round.
pub mod Output
pub mod Lexing
pub mod Comments
use sql_cli.Base.{
  Bool, Bytes, List, Option, [], false, head?, if◌then◌else◌, none, some, true, ℕ, ◌&&◌, ◌++◌, ◌==◌,
  ◌∷◌,
}
use sql_cli.Strings.{trim_space}

pub data Mode : Type 0 where
  normal line_comment block_comment : Mode
  in_single in_double in_backtick : Mode

pub record Splitter : Type 0 where
  pub mode : Mode
  pub current : Bytes
  pub statements : List Bytes

-- `i+1 < len(sql) && sql[i+1] == c`.
abbrev pub next_is : Option ℕ → ℕ → Bool
next_is none c = false
next_is (some d) c = d == c

abbrev pub write : Splitter → Bytes → Splitter
write s text = record s { current = s.current ++ text }

abbrev pub nonempty : Bytes → List Bytes
nonempty [] = []
nonempty (c ∷ s) = (c ∷ s) ∷ []

-- At a semicolon, and at the end of the text.
unfoldable pub flush : Splitter → Splitter
flush s = record s { current = []; statements = s.statements ++ nonempty (trim_space s.current) }

-- Inside quotes of one kind: a doubled quote is written and skipped, a single one ends the text.
unfoldable pub in_quotes : ℕ → Splitter → ℕ → Option ℕ → Splitter × Bool
in_quotes quote s c next =
    if c == quote && next_is next quote
    then (write s (c ∷ quote ∷ []), true)
    else if c == quote
    then (record s { mode = normal; current = s.current ++ c ∷ [] }, false)
    else (write s (c ∷ []), false)

-- The `switch`, outside quotes and comments.
unfoldable pub in_text : Splitter → ℕ → Option ℕ → Splitter × Bool
in_text s c next =
    if c == b'-' && next_is next b'-'
    then (record s { mode = line_comment }, false)
    else if c == b'/' && next_is next b'*'
    then (record s { mode = block_comment }, true)
    else if c == b'\''
    then (record s { mode = in_single; current = s.current ++ c ∷ [] }, false)
    else if c == b'"'
    then (record s { mode = in_double; current = s.current ++ c ∷ [] }, false)
    else if c == b'`'
    then (record s { mode = in_backtick; current = s.current ++ c ∷ [] }, false)
    else if c == b';'
    then (flush s, false)
    else (write s (c ∷ []), false)

-- One round of the loop, by the flag that is set.
unfoldable pub step_in : Mode → Splitter → ℕ → Option ℕ → Splitter × Bool
step_in line_comment s c next =
    if c == b'\n' then (record s { mode = normal }, false) else (s, false)
step_in block_comment s c next =
    if c == b'*' && next_is next b'/' then (record s { mode = normal }, true) else (s, false)
step_in in_single s c next = in_quotes b'\'' s c next
step_in in_double s c next = in_quotes b'"' s c next
step_in in_backtick s c next = in_quotes b'`' s c next
step_in normal s c next = in_text s c next

abbrev pub step : Splitter → ℕ → Option ℕ → Splitter × Bool
step s c next = step_in s.mode s c next

-- The loop over the bytes.
unfoldable pub scan : Bytes → Bool → Splitter → Splitter
scan [] skip s = s
scan (c ∷ rest) true s = scan rest false s
scan (c ∷ rest) false s = scan rest (step s c (head? rest)).1 (step s c (head? rest)).0

abbrev pub initial : Splitter
initial = record { mode = normal; current = []; statements = [] }

unfoldable pub split_statements : Bytes → List Bytes
split_statements text = (flush (scan text false initial)).statements

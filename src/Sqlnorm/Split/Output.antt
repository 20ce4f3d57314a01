-- ===== src/Sqlnorm/Split/Output.antt =====
-- What `SplitStatements` returns is trimmed and not empty.
use mathlib.Core.List.{cons-ne-nil}
use sql_cli.Base.{
  All, All-append, Bool, Bytes, Option, [], arith, false, head?, true, ℕ, ◌∷◌, ◌≡◌, ◌≢◌,
}
use sql_cli.Sqlnorm.Split.{
  Mode, Splitter, flush, in_quotes, in_text, initial, nonempty, normal, scan, split_statements,
  step, step_in,
}
use sql_cli.Strings.{trim_space, trim_space-trim_space}

-- A statement of the output.
abbrev pub IsStatement : Bytes → Type 0
IsStatement s = (trim_space s ≡ s) × (s ≢ [])

nonempty-All : (t : Bytes) → trim_space t ≡ t → All IsStatement (nonempty t)
nonempty-All [] h = tt
nonempty-All (c ∷ t) h = ((h, cons-ne-nil c t), tt)

flush-All : (s : Splitter) → All IsStatement s.statements → All IsStatement (flush s).statements
unfolding flush
flush-All s h =
    All-append IsStatement s.statements (nonempty (trim_space s.current)) h
      (nonempty-All (trim_space s.current) (trim_space-trim_space s.current))

step_in-All :
    (m : Mode) (s : Splitter) (c : ℕ) (next : Option ℕ)
    → All IsStatement s.statements
    → All IsStatement (step_in m s c next).0.statements
unfolding step_in in_text in_quotes
step_in-All normal s c next h = ground (arith, flush-All s)
step_in-All _ s c next h = ground arith

scan-All :
    (text : Bytes) (skip : Bool) (s : Splitter)
    → All IsStatement s.statements
    → All IsStatement (scan text skip s).statements
unfolding scan
scan-All [] skip s h = h
scan-All (c ∷ rest) true s h = scan-All rest false s h
scan-All (c ∷ rest) false s h =
    scan-All rest (step s c (head? rest)).1 (step s c (head? rest)).0
      (step_in-All s.mode s c (head? rest) h)

-- Every statement that `SplitStatements` returns is trimmed and not empty.
pub split_statements-All : (text : Bytes) → All IsStatement (split_statements text)
unfolding split_statements
split_statements-All text = flush-All (scan text false initial) (scan-All text false initial tt)

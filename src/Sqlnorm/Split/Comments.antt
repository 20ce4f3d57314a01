-- ===== src/Sqlnorm/Split/Comments.antt =====
-- How `SplitStatements` reads comments: nothing is written for them.
use sql_cli.Base.{
  All, Bool, Bytes, List, [], and_left, and_right, ap, append-nil, arith, false, head?, not,
  not-true, refl, sym, true, ℕ, ◌&&◌, ◌++◌, ◌==◌, ◌∙◌, ◌∷◌, ◌≡◌, ◌≢◌,
}
use sql_cli.Sqlnorm.Split.Lexing.{Piece, WellFormed, at, render, scan_pieces}
use sql_cli.Strings.{trim_space}
use sql_cli.Sqlnorm.Split.{
  block_comment, flush, in_text, line_comment, next_is, nonempty, normal, scan, split_statements,
  step_in,
}
use sql_cli.Strings.{trim_space}

scan_line_comment :
    (body rest cur : Bytes) (out : List Bytes)
    → All (λ c. c ≢ b'\n') body
    → scan (body ++ b'\n' ∷ rest) false (at line_comment cur out)
      ≡ scan rest false (at normal cur out)
unfolding scan step_in
scan_line_comment [] rest cur out h = refl
scan_line_comment (c ∷ body) rest cur out h =
    ground (arith, scan_line_comment body rest cur out h.1)

-- The mark that ends a block comment does not stand in the text.
abbrev pub never_closes : Bytes → Bool
never_closes [] = true
never_closes (c ∷ s) = not (c == b'*' && next_is (head? s) b'/') && never_closes s

next-close :
    (c : ℕ) (body rest : Bytes)
    → (c == b'*' && next_is (head? body) b'/') ≡ false
    → (c == b'*' && next_is (head? (body ++ b'*' ∷ rest)) b'/') ≡ false
next-close c [] rest h = ground arith
next-close c (d ∷ body) rest h = h

scan_block_comment :
    (body rest cur : Bytes) (out : List Bytes)
    → never_closes body ≡ true
    → scan (body ++ (b'*' ∷ b'/' ∷ rest)) false (at block_comment cur out)
      ≡ scan rest false (at normal cur out)
unfolding scan step_in
scan_block_comment [] rest cur out h = refl
scan_block_comment (c ∷ body) rest cur out h =
    let here = not-true (c == b'*' && next_is (head? body) b'/') (and_left _ _ h) in
    rw (next-close c body (b'/' ∷ rest) here, scan)
      (scan_block_comment body rest cur out (and_right _ _ h))

scan_to_end :
    (ps : List Piece) (cur : Bytes)
    → WellFormed [] ps
    → scan (render ps) false (at normal cur []) ≡ at normal (cur ++ render ps) []
scan_to_end ps cur w =
    ap (λ t. scan t false (at normal cur [])) (sym (append-nil (render ps)))
    ∙ scan_pieces ps [] cur [] w
    ∙ unfold scan in refl

scan_block_open :
    (rest cur : Bytes)
    → scan (b'/' ∷ b'*' ∷ rest) false (at normal cur []) ≡ scan rest false (at block_comment cur [])
unfolding scan step_in in_text
scan_block_open rest cur = refl

scan_line_open :
    (rest cur : Bytes)
    → scan (b'-' ∷ b'-' ∷ rest) false (at normal cur []) ≡ scan rest false (at line_comment cur [])
unfolding scan step_in in_text
scan_line_open rest cur = refl

ended :
    (tail : Bytes) (ps qs : List Piece)
    → scan (render ps ++ tail) false (at normal [] []) ≡ at normal (render ps ++ render qs) []
    → split_statements (render ps ++ tail) ≡ nonempty (trim_space (render ps ++ render qs))
unfolding split_statements flush
ended tail ps qs e = ap (λ s. (flush s).statements) e

-- A block comment between two parts of a statement leaves nothing behind, not even a space: the
-- statement is the two parts with nothing between them.
pub split_statements-block_comment :
    (ps qs : List Piece) (body : Bytes)
    → never_closes body ≡ true
    → WellFormed (b'/' ∷ b'*' ∷ (body ++ (b'*' ∷ b'/' ∷ render qs))) ps
    → WellFormed [] qs
    → split_statements (render ps ++ (b'/' ∷ b'*' ∷ (body ++ (b'*' ∷ b'/' ∷ render qs))))
      ≡ nonempty (trim_space (render ps ++ render qs))
split_statements-block_comment ps qs body never wp wq =
    ended (b'/' ∷ b'*' ∷ (body ++ (b'*' ∷ b'/' ∷ render qs))) ps qs (
      scan_pieces ps _ [] [] wp
      ∙ scan_block_open (body ++ (b'*' ∷ b'/' ∷ render qs)) (render ps)
      ∙ scan_block_comment body (render qs) (render ps) [] never
      ∙ scan_to_end qs (render ps) wq)

-- A line comment leaves nothing behind either, and takes the end of its line with it.
pub split_statements-line_comment :
    (ps qs : List Piece) (body : Bytes)
    → All (λ c. c ≢ b'\n') body
    → WellFormed (b'-' ∷ b'-' ∷ (body ++ (b'\n' ∷ render qs))) ps
    → WellFormed [] qs
    → split_statements (render ps ++ (b'-' ∷ b'-' ∷ (body ++ (b'\n' ∷ render qs))))
      ≡ nonempty (trim_space (render ps ++ render qs))
split_statements-line_comment ps qs body never wp wq =
    ended (b'-' ∷ b'-' ∷ (body ++ (b'\n' ∷ render qs))) ps qs (
      scan_pieces ps _ [] [] wp
      ∙ scan_line_open (body ++ (b'\n' ∷ render qs)) (render ps)
      ∙ scan_line_comment body (render qs) (render ps) [] never
      ∙ scan_to_end qs (render ps) wq)

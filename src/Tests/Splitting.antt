-- ===== src/Tests/Splitting.antt =====
-- `SplitStatements` at concrete texts.
use sql_cli.Base.{All, List, [], codes, refl, ℕ, ◌++◌, ◌∷◌, ◌≡◌}
use sql_cli.Sqlnorm.Split.Output.{IsStatement, split_statements-All}
use sql_cli.Sqlnorm.Split.{flush, in_quotes, in_text, nonempty, scan, split_statements, step_in}
use sql_cli.Sqlnorm.Split.Comments.{split_statements-block_comment}
use sql_cli.Sqlnorm.Split.Lexing.{
  Piece, joined, literal, outputs, plain, render, single, split_statements-joined,
}
use sql_cli.Strings.{is_space, trim_left, trim_right, trim_space}

split_run :
    split_statements (codes "SELECT ';'; -- a;b\n INSERT `x``;`;;/* ; */")
    ≡ codes "SELECT ';'" ∷ codes "INSERT `x``;`" ∷ []
unfolding split_statements scan step_in in_text in_quotes flush trim_space trim_left trim_right
    is_space
split_run = refl

-- The comment stands for a space in SQL, and is not one in the output.
split_glues : split_statements (codes "DELETE/**/FROM t") ≡ codes "DELETEFROM t" ∷ []
unfolding split_statements scan step_in in_text in_quotes flush trim_space trim_left trim_right
    is_space
split_glues = refl

abbrev quoted : List Piece
quoted = plain b'a' ∷ literal single (codes "it's; --") ∷ plain b' ' ∷ []

split_statements-joined_example :
    split_statements (joined (quoted ∷ [] ∷ [])) ≡ outputs (quoted ∷ [] ∷ [])
split_statements-joined_example =
    split_statements-joined (quoted ∷ [] ∷ []) ((refl, (refl, (refl, tt))), (tt, tt))

abbrev word : ℕ → List Piece
word c = plain c ∷ []

split_statements-block_comment_example :
    split_statements
      (render (word b'a') ++ (b'/' ∷ b'*' ∷ (codes " ; " ++ (b'*' ∷ b'/' ∷ render (word b'b')))))
    ≡ nonempty (trim_space (render (word b'a') ++ render (word b'b')))
split_statements-block_comment_example =
    split_statements-block_comment (word b'a') (word b'b') (codes " ; ") refl (refl, tt) (refl, tt)

split_statements-All_example : All IsStatement (split_statements (codes " a = ';' ;; -- b"))
split_statements-All_example = split_statements-All (codes " a = ';' ;; -- b")

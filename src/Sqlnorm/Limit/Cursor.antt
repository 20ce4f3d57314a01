-- ===== src/Sqlnorm/Limit/Cursor.antt =====
-- internal/sqlnorm/pagination.go: what `ApplyCursor` returns.
use sql_cli.Base.{Bool-cases, Bytes, arith, inl, inr, ltb_ℤ, negsuc, pos, ℤ, ◌↔◌, ◌≡◌, ◌≤ℤ◌, ◌⊎◌}
use sql_cli.Sqlnorm.Limit.{CursorError, apply_cursor, negative_limit, negative_offset, refused}

-- Which error `ApplyCursor` returns for a page: the limit is looked at first.
abbrev pub BadPage : ℤ → ℤ → CursorError → Type 0
BadPage limit offset e =
    ((limit ≤ℤ negsuc 0) × (e ≡ negative_limit limit))
    ⊎ ((pos 0 ≤ℤ limit) × (offset ≤ℤ negsuc 0) × (e ≡ negative_offset offset))

apply_cursor-BadPage :
    (text : Bytes) (limit offset max_limit : ℤ) (e : CursorError)
    → apply_cursor text limit offset max_limit ≡ refused e
    → BadPage limit offset e
unfolding apply_cursor
apply_cursor-BadPage text limit offset max_limit e h = elim (Bool-cases (ltb_ℤ limit (pos 0))) [
  | inl l ↦ inl (ground arith, ground arith)
  | inr l ↦ inr (ground arith, ground arith, ground arith)
]

BadPage-apply_cursor :
    (text : Bytes) (limit offset max_limit : ℤ) (e : CursorError)
    → BadPage limit offset e
    → apply_cursor text limit offset max_limit ≡ refused e
unfolding apply_cursor
BadPage-apply_cursor text limit offset max_limit e h = ground arith

-- `ApplyCursor` refuses exactly the pages with a negative limit or offset, the limit first.
pub apply_cursor_refused_iff :
    (text : Bytes) (limit offset max_limit : ℤ) (e : CursorError)
    → (apply_cursor text limit offset max_limit ≡ refused e) ↔ BadPage limit offset e
apply_cursor_refused_iff text limit offset max_limit e = (
  apply_cursor-BadPage text limit offset max_limit e,
  BadPage-apply_cursor text limit offset max_limit e,
)

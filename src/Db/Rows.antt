-- ===== src/Db/Rows.antt =====
-- pkg/db/query.go, `convertRowBytes` and the loop over a result set, which every query function
-- repeats: each scanned row becomes a slice with a value for each column.
pub mod Shape
use sql_cli.Base.{Bytes, List, Option, [], beq, if◌then◌else◌, none, some, ◌++◌, ◌∷◌}
use sql_cli.Db.Driver.{Row, Rows}
use sql_cli.Db.Types.{Error, Result, Value, bytes, err, null, ok, text, wrap, wrapped, ◌>>=◌}

unfoldable pub convert_value : Value → Value
convert_value (bytes b) = text b
convert_value v = v

-- `convertRowBytes`.
unfoldable pub convert_row_bytes : Row → Row
convert_row_bytes [] = []
convert_row_bytes ((k, v) ∷ row) = (k, convert_value v) ∷ convert_row_bytes row

-- `row[col]`: nil where the map has no such key.
unfoldable pub get : Row → Bytes → Value
get [] col = null
get ((k, v) ∷ row) col = if beq k col then v else get row col

-- The inner loop over the columns.
unfoldable pub row_slice : Row → List Bytes → List Value
row_slice row [] = []
row_slice row (col ∷ cols) = get row col ∷ row_slice row cols

-- `for rows.Next()`; the last argument is `resultRows`.
unfoldable pub collect :
    Bytes → List Bytes → List (Result Row) → List (List Value) → Result (List (List Value))
collect prefix cols [] acc = ok acc
collect prefix cols (err e ∷ rest) acc = err (wrap prefix e)
collect prefix cols (ok row ∷ rest) acc =
    collect prefix cols rest (acc ++ row_slice (convert_row_bytes row) cols ∷ [])

-- `rows.Err()`.
abbrev pub finished {ℓ} : {A : Type ℓ} → Bytes → Option Error → A → Result A
finished prefix none a = ok a
finished prefix (some e) a = err (wrap prefix e)

abbrev pub Table : Type 0
Table = List Bytes × List (List Value)

-- From the result set to the columns and the rows.
unfoldable pub read_rows : Bytes → Rows → Result Table
read_rows prefix r = do
  cols ← wrapped prefix r.columns
  rows ← collect prefix cols r.scans []
  finished prefix r.end_error (cols, rows)

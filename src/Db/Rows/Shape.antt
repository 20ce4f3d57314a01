-- ===== src/Db/Rows/Shape.antt =====
-- A result that a query returns is a table: as many rows as were scanned, each with a value for each
-- column.
use sql_cli.Base.{
  All, Bytes, List, Option, [], ap, append-nil, append_assoc, length, none, refl, some, subst, suc,
  sym, ◌++◌, ◌∙◌, ◌∷◌, ◌≡◌,
}
use sql_cli.Db.Driver.{Row, Rows}
use sql_cli.Db.Rows.{collect, convert_row_bytes, finished, read_rows, row_slice}
use sql_cli.Db.Types.{Error, Result, Value, bind_ok, err, ok, wrapped, wrapped_ok}

length-row_slice : (row : Row) (cols : List Bytes) → length (row_slice row cols) ≡ length cols
unfolding row_slice
length-row_slice row [] = refl
length-row_slice row (c ∷ cols) = ap suc (length-row_slice row cols)

abbrev pub HasWidth : List Bytes → List Value → Type 0
HasWidth cols r = length r ≡ length cols

-- What `MapScan` gave where it succeeded.
abbrev pub scanned : List (Result Row) → List Row
scanned [] = []
scanned (ok r ∷ rest) = r ∷ scanned rest
scanned (err e ∷ rest) = scanned rest

abbrev pub slices : List Bytes → List Row → List (List Value)
slices cols [] = []
slices cols (r ∷ rest) = row_slice (convert_row_bytes r) cols ∷ slices cols rest

abbrev pub IsScanned : Result Row → Type 0
IsScanned (ok r) = Unit
IsScanned (err e) = ⊥

collect_lem :
    (prefix : Bytes) (cols : List Bytes) (scans : List (Result Row)) (acc : List (List Value))
    {rows : List (List Value)}
    → collect prefix cols scans acc ≡ ok rows
    → All IsScanned scans × (rows ≡ acc ++ slices cols (scanned scans))
unfolding collect
collect_lem prefix cols [] acc {rows} h = (tt, cc (append-nil acc))
collect_lem prefix cols (err e ∷ rest) acc h = absurd (cc)
collect_lem prefix cols (ok row ∷ rest) acc h =
    let (a, e) =
      collect_lem prefix cols rest (acc ++ row_slice (convert_row_bytes row) cols ∷ []) h in
    ((tt, a), e ∙ append_assoc acc _ _)

finished_ok {ℓ} :
    {A : Type ℓ} (prefix : Bytes) (o : Option Error) (a : A) {b : A}
    → finished prefix o a ≡ ok b
    → (o ≡ none) × (a ≡ b)
finished_ok prefix none a h = (refl, cc)
finished_ok prefix (some e) a h = absurd (cc)

slices-HasWidth : (cols : List Bytes) (rs : List Row) → All (HasWidth cols) (slices cols rs)
slices-HasWidth cols [] = tt
slices-HasWidth cols (r ∷ rs) =
    (length-row_slice (convert_row_bytes r) cols, slices-HasWidth cols rs)

length-slices :
    (cols : List Bytes) (scans : List (Result Row))
    → All IsScanned scans
    → length (slices cols (scanned scans)) ≡ length scans
length-slices cols [] h = refl
length-slices cols (ok r ∷ rest) h = ap suc (length-slices cols rest h.1)
length-slices cols (err e ∷ rest) h = elim h.0 [ ]

-- What `read_rows` returns: the columns of the result set, no scan failed and the iteration ended
-- without an error, and the rows are those scanned, in order, each with a value for each column.
pub read_rows_lem :
    (prefix : Bytes) (r : Rows) {cols : List Bytes} {rows : List (List Value)}
    → read_rows prefix r ≡ ok (cols, rows)
    → (r.columns ≡ ok cols)
      × All IsScanned r.scans
      × (r.end_error ≡ none)
      × (rows ≡ slices cols (scanned r.scans))
      × All (HasWidth cols) rows
      × (length rows ≡ length r.scans)
unfolding read_rows
read_rows_lem prefix r {cols} {rows} h =
    let (c, e, h') = bind_ok (wrapped prefix r.columns) _ h in
    let (rs, e', h'') = bind_ok (collect prefix c r.scans []) _ h' in
    let (no_error, same) = finished_ok prefix r.end_error (c, rs) h'' in
    let (all_ok, are) = collect_lem prefix c r.scans [] e' in
    let same_cols : c ≡ cols = ap (λ p. p.0) same in
    let same_rows : rows ≡ slices cols (scanned r.scans) =
      ap (λ p. p.1) (sym same) ∙ are ∙ ap (λ k. slices k (scanned r.scans)) same_cols in
    (
      wrapped_ok prefix r.columns e ∙ ap ok same_cols,
      all_ok,
      no_error,
      same_rows,
      subst (All (HasWidth cols)) (sym same_rows) (slices-HasWidth cols (scanned r.scans)),
      ap length same_rows ∙ length-slices cols r.scans all_ok,
    )

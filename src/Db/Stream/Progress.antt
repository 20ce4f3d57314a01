-- ===== src/Db/Stream/Progress.antt =====
-- The goroutine of a stream ends, unless it waits for the consumer.
use sql_cli.Db.Driver.{Row, Rows}
use sql_cli.Db.Types.{Error, Result, err, ok}
use sql_cli.Base.{
  Bool-cases, Bytes, List, Option, [], arith, false, inl, inr, length, ltb, none, refl, some, true,
  ℕ, ◌*◌, ◌++◌, ◌+◌, ◌<◌, ◌∷◌, ◌≡◌, ◌≢◌, ◌⊎◌,
}
use sql_cli.Db.Stream.{
  StreamResult, StreamRow, close_rows, next, send, set_columns, set_error, set_producer_done,
}
use sql_cli.Db.Stream.Moves.{
  Phase, ProducerMove, StreamQuery, StreamWorld, Streaming, closes_rows, closing_rows, columns_fail,
  fail, finishes, leaving, looping, marks_done, opens, over, query_fails, querying, releases,
  releasing, rows_err, scan_fails, scans, sees_closed, sees_end, sending, sends, starting, starts,
  starts_late, stream_row,
}
use sql_cli.Db.Stream.Ends.{EndInv, Streaming-EndInv}

abbrev scans_of : Result Rows → ℕ
scans_of (ok r) = length r.scans
scans_of (err e) = 0

-- How many steps the goroutine has left, at most.
abbrev pub steps_left : StreamQuery → Phase → ℕ
steps_left q starting = 6 + 2 * scans_of q.answer
steps_left q querying = 5 + 2 * scans_of q.answer
steps_left q (looping rest o) = 4 + 2 * length rest
steps_left q (sending row rest o) = 5 + 2 * length rest
steps_left q leaving = 3
steps_left q closing_rows = 2
steps_left q releasing = 1
steps_left q over = 0

ProducerMove-decreases :
    {q : StreamQuery} {w w' : StreamWorld}
    → ProducerMove q w w'
    → steps_left q w'.phase < steps_left q w.phase
unfolding fail set_error set_columns
ProducerMove-decreases (starts_late p h e) = ground arith
ProducerMove-decreases (starts p h e) = ground arith
ProducerMove-decreases (query_fails x p h e) = ground arith
ProducerMove-decreases (columns_fail r x p h k e) = ground arith
ProducerMove-decreases (opens r cols p h k e) = ground arith
ProducerMove-decreases (scan_fails x rest o p e) = ground arith
ProducerMove-decreases (scans row rest o p e) = ground arith
ProducerMove-decreases (sends row rest o sr p h s e) = ground arith
ProducerMove-decreases (sees_closed row rest o p h e) = ground arith
ProducerMove-decreases (sees_end row rest o p h e) = ground arith
ProducerMove-decreases (rows_err x p e) = ground arith
ProducerMove-decreases (finishes p e) = ground arith
ProducerMove-decreases (marks_done sr p h e) = ground arith
ProducerMove-decreases (closes_rows sr p h e) = ground arith
ProducerMove-decreases (releases p e) = ground arith

abbrev CanMove : StreamQuery → StreamWorld → Type 0
CanMove q w = (w' : StreamWorld) × ProducerMove q w w'

-- The consumer has not closed the stream, and has a row to take.
abbrev pub HasRow : StreamWorld → Type 0
HasRow w = (w.sr.closed ≡ false) × ((sr : StreamResult) × (next w.sr ≡ some (sr, true)))

opening_moves :
    {q : StreamQuery} {w : StreamWorld} (r : Rows) (c : Result (List Bytes))
    → w.phase ≡ querying
    → q.answer ≡ ok r
    → r.columns ≡ c
    → CanMove q w
opening_moves r (err e) p h k = (_, columns_fail r e p h k refl)
opening_moves r (ok cols) p h k = (_, opens r cols p h k refl)

querying_moves :
    {q : StreamQuery} {w : StreamWorld} (a : Result Rows)
    → w.phase ≡ querying
    → q.answer ≡ a
    → CanMove q w
querying_moves (err e) p h = (_, query_fails e p h refl)
querying_moves (ok r) p h = opening_moves r r.columns p h refl

looping_moves :
    {q : StreamQuery} {w : StreamWorld} (rest : List (Result Row)) (o : Option Error)
    → w.phase ≡ looping rest o
    → CanMove q w
looping_moves [] none p = (_, finishes p refl)
looping_moves [] (some e) p = (_, rows_err e p refl)
looping_moves (ok row ∷ rest) o p = (_, scans row rest o p refl)
looping_moves (err e ∷ rest) o p = (_, scan_fails e rest o p refl)

waiting_row :
    (w : StreamWorld) (l : List StreamRow)
    → w.sr.queue ≡ l
    → 0 < length l
    → w.sr.closed ≡ false
    → (sr : StreamResult) × (next w.sr ≡ some (sr, true))
unfolding next
waiting_row w [] e h c = absurd (omega (arith, h))
waiting_row w (r ∷ rest) e h c =
    (record w.sr { queue = rest; current = r; index = w.sr.index + 1 }, rw (c, e))

no_close :
    {w : StreamWorld} {row : Row} {rest : List (Result Row)} {o : Option Error}
    → EndInv w
    → w.phase ≡ sending row rest o
    → w.sr.done ≡ false
    → w.sr.closed ≡ false
no_close i p d = ground arith

sending_moves :
    {q : StreamQuery} {w : StreamWorld} (row : Row) (rest : List (Result Row)) (o : Option Error)
    → 0 < q.cap
    → EndInv w
    → w.phase ≡ sending row rest o
    → CanMove q w ⊎ HasRow w
unfolding send next
sending_moves {q} {w} row rest o room i p = elim (Bool-cases (ltb (length w.sr.queue) q.cap)) [
  | inl h ↦ inl (
    _,
    sends row rest o (record w.sr { queue = w.sr.queue ++ stream_row w row ∷ [] }) p (ground arith)
        (ground arith) refl,
  )
  | inr h ↦ elim (Bool-cases w.sr.done) [
    | inl d ↦ inl (_, sees_closed row rest o p d refl)
    | inr d ↦ inr (no_close i p d, waiting_row w w.sr.queue refl (ground arith) (no_close i p d))
  ]
]

phase_moves :
    {q : StreamQuery} {w : StreamWorld} (p : Phase)
    → 0 < q.cap
    → EndInv w
    → w.phase ≡ p
    → p ≢ over
    → CanMove q w ⊎ HasRow w
unfolding set_producer_done close_rows
phase_moves {q} {w} starting room i p n = elim (Bool-cases w.ended) [
  | inl h ↦ inl (_, starts_late p h refl)
  | inr h ↦ inl (_, starts p h refl)
]
phase_moves {q} {w} querying room i p n = inl (querying_moves q.answer p refl)
phase_moves (looping rest o) room i p n = inl (looping_moves rest o p)
phase_moves (sending row rest o) room i p n = sending_moves row rest o room i p
phase_moves {q} {w} leaving room i p n =
    inl (_, marks_done (record w.sr { prod_done = true }) p (ground arith) refl)
phase_moves {q} {w} closing_rows room i p n =
    inl (_, closes_rows (record w.sr { rows_closed = true }) p (ground arith) refl)
phase_moves releasing room i p n = inl (_, releases p refl)
phase_moves over room i p n = absurd (n refl)

-- Every step of the goroutine leaves fewer of them, of which the result set gives the bound at the
-- start. With a buffer for a row or more, a goroutine that is not over can take a step, or else the
-- stream is not closed and `Next` has a row for the consumer.
pub Streaming-progress :
    {q : StreamQuery} {w : StreamWorld}
    → Streaming q w
    → 0 < q.cap
    → w.phase ≢ over
    → ((w' : StreamWorld) → ProducerMove q w w' → steps_left q w'.phase < steps_left q w.phase)
      × (((w' : StreamWorld) × ProducerMove q w w') ⊎ HasRow w)
Streaming-progress {q} {w} r room n =
    (λ w' m. ProducerMove-decreases m, phase_moves w.phase room (Streaming-EndInv r) refl n)

-- ===== src/Db/Stream/Moves.antt =====
-- The goroutine of `QueryStream` and the consumer of its stream, as a step relation. The deferred
-- calls run last first: `SetProducerDone`, `close(rowChan)`, `releaseConcurrencySlot`.
use sql_cli.Base.{
  Bool, Bytes, List, Option, [], false, length, none, some, true, ℕ, ◌++◌, ◌+◌, ◌-◌, ◌<◌, ◌∷◌, ◌≡◌,
}
use sql_cli.Db.Driver.{Row, Rows}
use sql_cli.Db.Rows.{convert_row_bytes}
use sql_cli.Db.Stream.{
  StreamResult, StreamRow, close, close_rows, new_stream_result, next, scan, send, set_columns,
  set_error, set_producer_done,
}
use sql_cli.Db.Types.{Error, Result, err, ok, wrap}

-- What the goroutine meets: the answer of the database, the error of its context once that has ended,
-- the text in front of its errors, and the size of the buffer.
pub record StreamQuery : Type 0 where
  pub answer : Result Rows
  pub ctx_error : Error
  pub prefix : Bytes
  pub cap : ℕ

-- Where the goroutine stands.
pub data Phase : Type 0 where
  starting querying : Phase
  looping : List (Result Row) → Option Error → Phase
  sending : Row → List (Result Row) → Option Error → Phase
  leaving closing_rows releasing over : Phase

-- `row_count`, whether the context has ended, how often the slot was given back, and the rows that
-- the consumer has scanned.
pub record StreamWorld : Type 0 where
  pub sr : StreamResult
  pub phase : Phase
  pub row_count : ℕ
  pub ended : Bool
  pub released : ℕ
  pub received : List Row

abbrev pub opened : StreamWorld
opened = record {
  sr = new_stream_result [];
  phase = starting;
  row_count = 0;
  ended = false;
  released = 0;
  received = [];
}

-- `sr.SetError(e); return`.
unfoldable pub fail : Error → StreamWorld → StreamWorld
fail e w = record w { sr = set_error e w.sr; phase = leaving }

abbrev pub stream_row : StreamWorld → Row → StreamRow
stream_row w row = record { row = row; index = w.row_count - 1; error = [] }

-- One step of the goroutine.
pub data ProducerMove (q : StreamQuery) (w w' : StreamWorld) : Type 0 where
  starts_late : w.phase ≡ starting → w.ended ≡ true → w' ≡ fail q.ctx_error w → ProducerMove q w w'
  starts :
      w.phase ≡ starting
      → w.ended ≡ false
      → w' ≡ record w { phase = querying }
      → ProducerMove q w w'
  query_fails :
      (e : Error)
      → w.phase ≡ querying
      → q.answer ≡ err e
      → w' ≡ fail (wrap q.prefix e) w
      → ProducerMove q w w'
  columns_fail :
      (r : Rows) (e : Error)
      → w.phase ≡ querying
      → q.answer ≡ ok r
      → r.columns ≡ err e
      → w' ≡ fail (wrap q.prefix e) w
      → ProducerMove q w w'
  opens :
      (r : Rows) (cols : List Bytes)
      → w.phase ≡ querying
      → q.answer ≡ ok r
      → r.columns ≡ ok cols
      → w' ≡ record w { sr = set_columns cols w.sr; phase = looping r.scans r.end_error }
      → ProducerMove q w w'
  scan_fails :
      (e : Error) (rest : List (Result Row)) (o : Option Error)
      → w.phase ≡ looping (err e ∷ rest) o
      → w' ≡ fail (wrap q.prefix e) w
      → ProducerMove q w w'
  scans :
      (row : Row) (rest : List (Result Row)) (o : Option Error)
      → w.phase ≡ looping (ok row ∷ rest) o
      → w'
        ≡ record w { phase = sending (convert_row_bytes row) rest o; row_count = w.row_count + 1 }
      → ProducerMove q w w'
  sends :
      (row : Row) (rest : List (Result Row)) (o : Option Error) (sr : StreamResult)
      → w.phase ≡ sending row rest o
      → length w.sr.queue < q.cap
      → send (stream_row w row) w.sr ≡ some sr
      → w' ≡ record w { sr = sr; phase = looping rest o }
      → ProducerMove q w w'
  sees_closed :
      (row : Row) (rest : List (Result Row)) (o : Option Error)
      → w.phase ≡ sending row rest o
      → w.sr.done ≡ true
      → w' ≡ record w { phase = leaving }
      → ProducerMove q w w'
  sees_end :
      (row : Row) (rest : List (Result Row)) (o : Option Error)
      → w.phase ≡ sending row rest o
      → w.ended ≡ true
      → w' ≡ fail q.ctx_error w
      → ProducerMove q w w'
  rows_err :
      (e : Error)
      → w.phase ≡ looping [] (some e)
      → w' ≡ fail (wrap q.prefix e) w
      → ProducerMove q w w'
  finishes : w.phase ≡ looping [] none → w' ≡ record w { phase = leaving } → ProducerMove q w w'
  marks_done :
      (sr : StreamResult)
      → w.phase ≡ leaving
      → set_producer_done w.sr ≡ some sr
      → w' ≡ record w { sr = sr; phase = closing_rows }
      → ProducerMove q w w'
  closes_rows :
      (sr : StreamResult)
      → w.phase ≡ closing_rows
      → close_rows w.sr ≡ some sr
      → w' ≡ record w { sr = sr; phase = releasing }
      → ProducerMove q w w'
  releases :
      w.phase ≡ releasing
      → w' ≡ record w { phase = over; released = w.released + 1 }
      → ProducerMove q w w'

-- A step of the consumer, or the end of the context.
pub data ConsumerMove (w w' : StreamWorld) : Type 0 where
  nexts :
      (sr : StreamResult)
      → next w.sr ≡ some (sr, true)
      → w' ≡ record w { sr = sr; received = w.received ++ scan sr ∷ [] }
      → ConsumerMove w w'
  next_fails :
      (sr : StreamResult)
      → next w.sr ≡ some (sr, false)
      → w' ≡ record w { sr = sr }
      → ConsumerMove w w'
  closes :
      (sr : StreamResult) → close w.sr ≡ some sr → w' ≡ record w { sr = sr } → ConsumerMove w w'
  context_ends : w' ≡ record w { ended = true } → ConsumerMove w w'

pub data Streaming (q : StreamQuery) : StreamWorld → Type 0 where
  open_stream : Streaming q opened
  produced : {w w' : StreamWorld} → Streaming q w → ProducerMove q w w' → Streaming q w'
  consumed : {w w' : StreamWorld} → Streaming q w → ConsumerMove w w' → Streaming q w'

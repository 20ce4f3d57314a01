-- ===== src/Db/Stream/Ends.antt =====
-- How a stream ends: the goroutine's deferred calls.

use sql_cli.Base.{Bool, Option, [], arith, false, none, refl, some, true, ℕ, ◌≡◌, ◌≢◌}
use sql_cli.Db.Stream.{
  StreamResult, close, close_rows, new_stream_result, next, send, set_columns, set_error,
  set_producer_done,
}
use sql_cli.Db.Stream.Moves.{
  ConsumerMove, Phase, ProducerMove, StreamQuery, StreamWorld, Streaming, closes, closes_rows,
  closing_rows, columns_fail, consumed, context_ends, fail, finishes, leaving, looping, marks_done,
  next_fails, nexts, open_stream, opened, opens, over, produced, query_fails, querying, releases,
  releasing, rows_err, scan_fails, scans, sees_closed, sees_end, sending, sends, starting, starts,
  starts_late, stream_row,
}

abbrev marked_done : Phase → Bool
marked_done closing_rows = true
marked_done releasing = true
marked_done over = true
marked_done _ = false

abbrev pub rows_done : Phase → Bool
rows_done releasing = true
rows_done over = true
rows_done _ = false

abbrev pub given_back : Phase → ℕ
given_back over = 1
given_back _ = 0

-- The channels are closed, and the slot is given back, as the phase says.
pub record EndInv (w : StreamWorld) : Type 0 where
  pub prod_done : w.sr.prod_done ≡ marked_done w.phase
  pub rows_closed : w.sr.rows_closed ≡ rows_done w.phase
  pub released : w.released ≡ given_back w.phase
  pub closed_first : w.sr.done ≡ true → w.sr.closed ≡ true
  pub read_out :
      w.sr.closed ≡ true → w.sr.done ≡ false → (w.sr.rows_closed ≡ true) × (w.sr.queue ≡ [])

opened-EndInv : EndInv opened
unfolding new_stream_result
opened-EndInv = ground arith

ProducerMove-EndInv :
    {q : StreamQuery} {w w' : StreamWorld} → EndInv w → ProducerMove q w w' → EndInv w'
unfolding fail set_error set_columns send set_producer_done close_rows
ProducerMove-EndInv i (starts_late p h e) = ground arith
ProducerMove-EndInv i (starts p h e) = ground arith
ProducerMove-EndInv i (query_fails x p h e) = ground arith
ProducerMove-EndInv i (columns_fail r x p h k e) = ground arith
ProducerMove-EndInv i (opens r cols p h k e) = ground arith
ProducerMove-EndInv i (scan_fails x rest o p e) = ground arith
ProducerMove-EndInv i (scans row rest o p e) = ground arith
ProducerMove-EndInv i (sends row rest o sr p h s e) = ground arith
ProducerMove-EndInv i (sees_closed row rest o p h e) = ground arith
ProducerMove-EndInv i (sees_end row rest o p h e) = ground arith
ProducerMove-EndInv i (rows_err x p e) = ground arith
ProducerMove-EndInv i (finishes p e) = ground arith
ProducerMove-EndInv i (marks_done sr p h e) = ground arith
ProducerMove-EndInv i (closes_rows sr p h e) = ground arith
ProducerMove-EndInv i (releases p e) = ground arith

ConsumerMove-EndInv : {w w' : StreamWorld} → EndInv w → ConsumerMove w w' → EndInv w'
unfolding next close
ConsumerMove-EndInv i (nexts sr h e) = ground arith
ConsumerMove-EndInv i (next_fails sr h e) = ground arith
ConsumerMove-EndInv i (closes sr h e) = ground arith
ConsumerMove-EndInv i (context_ends e) = ground arith

pub Streaming-EndInv : {q : StreamQuery} {w : StreamWorld} → Streaming q w → EndInv w
Streaming-EndInv open_stream = opened-EndInv
Streaming-EndInv (produced r m) = ProducerMove-EndInv (Streaming-EndInv r) m
Streaming-EndInv (consumed r m) = ConsumerMove-EndInv (Streaming-EndInv r) m

-- The call with a channel that the goroutine makes next; `none` is a panic.
abbrev pub next_call : StreamWorld → Phase → Option StreamResult
next_call w leaving = set_producer_done w.sr
next_call w closing_rows = close_rows w.sr
next_call w (sending row rest o) = send (stream_row w row) w.sr
next_call w _ = some w.sr

call_succeeds : (w : StreamWorld) (p : Phase) → w.phase ≡ p → EndInv w → next_call w p ≢ none
unfolding set_producer_done close_rows send
call_succeeds w leaving p i = λ h. ground arith
call_succeeds w closing_rows p i = λ h. ground arith
call_succeeds w (sending row rest o) p i = λ h. ground arith
call_succeeds w starting p i = λ h. cc
call_succeeds w querying p i = λ h. cc
call_succeeds w (looping rest o) p i = λ h. cc
call_succeeds w releasing p i = λ h. cc
call_succeeds w over p i = λ h. cc

-- However the goroutine and the consumer move, no channel is closed twice and nothing is sent on a
-- closed one, by the goroutine or by `Close`, and the slot is given back once, in the last step.
pub Streaming-no_panic :
    {q : StreamQuery} {w : StreamWorld}
    → Streaming q w
    → (next_call w w.phase ≢ none) × (close w.sr ≢ none) × (w.released ≡ given_back w.phase)
unfolding close
Streaming-no_panic {q} {w} r =
    let i = Streaming-EndInv r in (call_succeeds w w.phase refl i, λ h. ground arith, i.released)

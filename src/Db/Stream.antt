-- ===== src/Db/Stream.antt =====
-- `StreamResult` of pkg/result/result.go and `QueryStream` of pkg/db/stream.go up to its goroutine. A
-- channel of rows is the list of what it holds, and whether it was closed; closing a channel twice is
-- a Go panic, `none`.
pub mod Moves
pub mod Calls
pub mod Delivery
pub mod Ends
pub mod Progress
pub mod Received
pub mod Start
use sql_cli.Base.{
  Bool, Bytes, List, Option, [], codes, false, if◌then◌else◌, leb_ℤ, none, not, pos, pos_part, some,
  true, ℕ, ℤ, ◌++◌, ◌+◌, ◌∷◌,
}
use sql_cli.Config.{Config}
use sql_cli.Db.Driver.{Row}
use sql_cli.Db.Query.{Plan, plan_in_tx, query_prefix}
use sql_cli.Db.Slots.{acquire_concurrency_slot}
use sql_cli.Db.Types.{Error, foreign, non_select_query, wrap}
use sql_cli.Sqlnorm.Operation.{is_select, operation}

pub record StreamRow : Type 0 where
  pub row : Row
  pub index : ℕ
  pub error : Bytes

-- `done` and `prod_done` say that the channel was closed.
pub record StreamResult : Type 0 where
  pub columns : List Bytes
  pub err : Option Error
  pub closed : Bool
  pub done : Bool
  pub queue : List StreamRow
  pub rows_closed : Bool
  pub current : StreamRow
  pub index : ℕ
  pub prod_done : Bool

abbrev pub no_row : StreamRow
no_row = record { row = []; index = 0; error = [] }

-- `NewStreamResult`, on a fresh channel.
unfoldable pub new_stream_result : List Bytes → StreamResult
new_stream_result columns = record {
  columns = columns;
  err = none;
  closed = false;
  done = false;
  queue = [];
  rows_closed = false;
  current = no_row;
  index = 0;
  prod_done = false;
}

abbrev pub receive : StreamResult → List StreamRow → Option (StreamResult × Bool)
receive s [] = if s.rows_closed then some (record s { closed = true }, false) else none
receive s (r ∷ rest) = some (record s { queue = rest; current = r; index = s.index + 1 }, true)

-- `Next`; `none` where it waits.
unfoldable pub next : StreamResult → Option (StreamResult × Bool)
next s = let got = receive s s.queue in if s.closed then some (s, false) else got

unfoldable pub scan : StreamResult → Row
scan s = s.current.row

abbrev pub row_error : Bytes → Option Error
row_error [] = none
row_error (c ∷ msg) = some (foreign (codes "stream error: " ++ c ∷ msg))

abbrev pub or_else : Option Error → Option Error → Option Error
or_else (some e) o = some e
or_else none o = o

-- `Err`.
unfoldable pub stream_err : StreamResult → Option Error
stream_err s = or_else s.err (row_error s.current.error)

-- `Close`.
unfoldable pub close : StreamResult → Option StreamResult
close s =
    if s.closed
    then some s
    else if s.done
    then none
    else some (record s { closed = true; done = true })

unfoldable pub set_columns : List Bytes → StreamResult → StreamResult
set_columns columns s = record s { columns = columns }

unfoldable pub set_error : Error → StreamResult → StreamResult
set_error e s = record s { err = some e }

unfoldable pub set_producer_done : StreamResult → Option StreamResult
set_producer_done s = if s.prod_done then none else some (record s { prod_done = true })

-- `close(rowChan)`.
unfoldable pub close_rows : StreamResult → Option StreamResult
close_rows s = if s.rows_closed then none else some (record s { rows_closed = true })

-- `rowChan <- r`, where there is room; a send on a closed channel is a panic.
unfoldable pub send : StreamRow → StreamResult → Option StreamResult
send r s = if s.rows_closed then none else some (record s { queue = s.queue ++ r ∷ [] })

unfoldable pub buffer_size : Config → ℕ
buffer_size cfg = if leb_ℤ cfg.stream_batch_size (pos 0) then 50 else pos_part cfg.stream_batch_size

-- `QueryStream` up to the goroutine: the text that will be sent, the size of the buffer, and the
-- session's count of slots.
pub data StreamStart : Type 0 where
  not_started : Error → ℤ → StreamStart
  start_panics : StreamStart
  is_started : Plan → ℕ → ℤ → StreamStart

abbrev pub start_with : Config → Plan → ℤ × Option Error → StreamStart
start_with cfg p (active, some e) = not_started e active
start_with cfg p (active, none) = is_started p (buffer_size cfg) active

abbrev pub start_plan : Config → ℤ → Option Plan → StreamStart
start_plan cfg active none = start_panics
start_plan cfg active (some p) = start_with cfg p (acquire_concurrency_slot cfg active)

unfoldable pub query_stream : Config → Bytes → ℤ → StreamStart
query_stream cfg sql active =
    if not (is_select (operation sql))
    then not_started (wrap (query_prefix (operation sql)) non_select_query) active
    else start_plan cfg active (plan_in_tx cfg (pos 0) sql)

-- ===== src/Tests/Streams.antt =====
-- A session with one slot, in which a stream runs, and the moves of a short stream.
use sql_cli.Db.Stream.Delivery.{Whole, answered}
use sql_cli.Db.Stream.Progress.{HasRow, Streaming-progress, steps_left}
use sql_cli.Db.Stream.Ends.{Streaming-no_panic, given_back, next_call}
use sql_cli.Db.Stream.Received.{received-Whole, received_prefix}
use sql_cli.Tests.Logged.{one_row}
use sql_cli.Db.Rows.{convert_row_bytes, convert_value}
use sql_cli.Db.Driver.{Row}
use sql_cli.Db.Stream.Moves.{
  ProducerMove, StreamQuery, StreamWorld, Streaming, closes_rows, consumed, leaving, looping,
  marks_done, nexts, open_stream, opened, opens, produced, releasing, scans, sending, sends, starts,
}
use sql_cli.Db.Stream.{
  StreamResult, close, close_rows, new_stream_result, next, scan, send, set_columns,
  set_producer_done, stream_err,
}
use sql_cli.Base.{
  List, [], arith, codes, none, pos, refl, some, true, ◌++◌, ◌<◌, ◌↔◌, ◌∷◌, ◌≡◌, ◌≢◌, ◌≤ℤ◌, ◌⊎◌,
}
use sql_cli.Config.{Config, default_config, with_max_concurrent_queries}
use sql_cli.Db.Slots.{StreamRun, Streams, acquire_concurrency_slot, and_then, initially, starts}
use sql_cli.Db.Slots.Bounds.{StreamRun-bounds}
use sql_cli.Db.Types.{Value, foreign, max_concurrent, ok}

abbrev one_slot : Config
one_slot = with_max_concurrent_queries (pos 1) default_config

abbrev one_stream : Streams
one_stream = record { active = pos 1; running = 1 }

one_stream-StreamRun : StreamRun one_slot one_stream
unfolding acquire_concurrency_slot with_max_concurrent_queries
one_stream-StreamRun = and_then initially (starts (pos 1) refl refl)

StreamRun-bounds_example :
    (pos 1 ≤ℤ pos 1)
    × ((acquire_concurrency_slot one_slot (pos 1) ≡ (pos 1, some (max_concurrent (pos 1))))
        ↔ (pos 1 ≤ℤ pos 1))
unfolding with_max_concurrent_queries
StreamRun-bounds_example = StreamRun-bounds (omega arith) one_stream-StreamRun

-- The goroutine answers one row through a channel with room for two.
abbrev short_query : StreamQuery
short_query = record {
  answer = ok one_row;
  ctx_error = foreign (codes "context canceled");
  prefix = codes "SELECT";
  cap = 2;
}

abbrev ann : Row
ann = (codes "id", Value.number (pos 7)) ∷ (codes "name", Value.text (codes "ann")) ∷ []

abbrev reading : StreamWorld
reading = record opened {
  sr = set_columns (codes "id" ∷ codes "name" ∷ []) (new_stream_result []);
  phase = looping one_row.scans none;
}

abbrev writing : StreamWorld
writing = record reading { phase = sending ann [] none; row_count = 1 }

abbrev wrote : StreamWorld
wrote = record writing {
  sr = record writing.sr { queue = record { row = ann; index = 0; error = [] } ∷ [] };
  phase = leaving;
}

abbrev got_row : StreamResult
got_row = record wrote.sr {
  queue = [];
  current = record { row = ann; index = 0; error = [] };
  index = 1;
}

abbrev took : StreamWorld
took = record wrote { sr = got_row; received = ann ∷ [] }

abbrev ended_stream : StreamWorld
ended_stream = record took {
  sr = record got_row { prod_done = true; rows_closed = true };
  phase = releasing;
}

took-Streaming : Streaming short_query took
unfolding set_columns new_stream_result convert_row_bytes convert_value send next scan
took-Streaming =
    consumed
      (produced
        (produced
          (produced
            (produced (produced open_stream (ProducerMove.starts refl refl refl))
              (opens one_row _ refl refl refl refl))
            (scans _ [] none refl refl))
          (sends ann [] none _ refl (omega arith) refl refl))
        (ProducerMove.finishes refl refl))
      (nexts _ refl refl)

ended_stream-Streaming : Streaming short_query ended_stream
unfolding set_columns new_stream_result set_producer_done close_rows
ended_stream-Streaming =
    produced (produced took-Streaming (marks_done _ refl refl refl)) (closes_rows _ refl refl refl)

received_prefix_example : (rest : List Row) × ((ann ∷ []) ++ rest ≡ answered short_query.answer)
received_prefix_example = received_prefix took-Streaming

received-Whole_example : Whole short_query (ann ∷ [])
unfolding next stream_err new_stream_result set_columns
received-Whole_example = received-Whole ended_stream-Streaming refl refl refl

Streaming-no_panic_example :
    (next_call ended_stream releasing ≢ none)
    × (close ended_stream.sr ≢ none)
    × (ended_stream.released ≡ given_back releasing)
Streaming-no_panic_example = Streaming-no_panic ended_stream-Streaming

Streaming-progress_example :
    ((w' : StreamWorld) → ProducerMove short_query took w' → steps_left short_query w'.phase < 3)
    × (((w' : StreamWorld) × ProducerMove short_query took w') ⊎ HasRow took)
Streaming-progress_example = Streaming-progress took-Streaming (omega arith) (λ h. cc)

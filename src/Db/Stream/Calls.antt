-- ===== src/Db/Stream/Calls.antt =====
-- What the calls with the channels of a stream change, where they do not panic.
use sql_cli.Base.{List, [], arith, false, some, true, ◌++◌, ◌∷◌, ◌≡◌, ◌⊎◌}
use sql_cli.Db.Stream.{StreamResult, StreamRow, close, close_rows, next, send, set_producer_done}

pub send_eq :
    (r : StreamRow) (s : StreamResult) {sr : StreamResult}
    → send r s ≡ some sr
    → sr ≡ record s { queue = s.queue ++ r ∷ [] }
unfolding send
send_eq r s h = ground arith

pub mark_eq :
    (s : StreamResult) {sr : StreamResult}
    → set_producer_done s ≡ some sr
    → sr ≡ record s { prod_done = true }
unfolding set_producer_done
mark_eq s h = ground arith

pub close_rows_eq :
    (s : StreamResult) {sr : StreamResult}
    → close_rows s ≡ some sr
    → sr ≡ record s { rows_closed = true }
unfolding close_rows
close_rows_eq s h = ground arith

pub next-false :
    (s : StreamResult) (l : List StreamRow) {sr : StreamResult}
    → s.queue ≡ l
    → next s ≡ some (sr, false)
    → (sr.queue ≡ s.queue) × (sr.err ≡ s.err) × (sr.done ≡ s.done)
unfolding next
next-false s [] e h = ground arith
next-false s (r ∷ rest) e h = ground arith

pub close_same :
    (s : StreamResult) {sr : StreamResult}
    → close s ≡ some sr
    → (sr.queue ≡ s.queue) × (sr.err ≡ s.err) × ((sr.done ≡ s.done) ⊎ (sr.done ≡ true))
unfolding close
close_same s h = ground arith

-- ===== src/Db/Stream/Received.antt =====
-- Which rows the consumer of a stream gets.
use sql_cli.Db.Stream.Ends.{Streaming-EndInv, rows_done}
use sql_cli.Db.Stream.Calls.{next-false}
use sql_cli.Base.{
  Bool, Bool-cases, List, Option, [], ap, append-nil, append_assoc, arith, false, inl, inr, none,
  refl, some, subst, sym, true, ◌++◌, ◌∙◌, ◌∷◌, ◌≡◌,
}
use sql_cli.Db.Driver.{Row}
use sql_cli.Db.Stream.{StreamResult, StreamRow, next, or_else, row_error, stream_err}
use sql_cli.Db.Stream.Moves.{
  Phase, StreamQuery, StreamWorld, Streaming, closing_rows, leaving, looping, over, querying,
  releasing, sending, starting,
}
use sql_cli.Db.Stream.Delivery.{
  Delivers, Streaming-SoFar, Whole, answered, queued, sent, sent_prefix,
}
use sql_cli.Db.Types.{Error}

-- At every moment the rows that the consumer scanned are a beginning of the answer: the rows of the
-- database up to the first that cannot be scanned, in order, none lost, repeated or made up.
pub received_prefix :
    {q : StreamQuery} {w : StreamWorld}
    → Streaming q w
    → (rest : List Row) × (w.received ++ rest ≡ answered q.answer)
received_prefix {q} {w} r =
    let (rest, e) = sent_prefix q (sent w) w.sr.err w.sr.done w.phase (Streaming-SoFar q r) in
    (queued w.sr.queue ++ rest, sym (append_assoc w.received (queued w.sr.queue) rest) ∙ e)

-- What `Next` tells by its false, on a stream that `Close` did not end.
next_ends :
    (s : StreamResult) (l : List StreamRow) {sr : StreamResult}
    → s.queue ≡ l
    → (s.closed ≡ true → s.done ≡ false → (s.rows_closed ≡ true) × (s.queue ≡ []))
    → s.done ≡ false
    → next s ≡ some (sr, false)
    → (s.queue ≡ []) × (s.rows_closed ≡ true)
unfolding next
next_ends s [] e h d n = elim (Bool-cases s.closed) [
  | inl c ↦ (e, (h c d).0)
  | inr c ↦ (e, ground arith)
]
next_ends s (r ∷ rest) e h d n = elim (Bool-cases s.closed) [
  | inl c ↦ ((h c d).1, (h c d).0)
  | inr c ↦ absurd (ground arith)
]

over_Whole :
    (q : StreamQuery) (got : List Row) (e : Option Error) (done : Bool) (p : Phase)
    → rows_done p ≡ true
    → Delivers q got e done p
    → e ≡ none
    → done ≡ false
    → Whole q got
over_Whole q got e done releasing p h k d = h.1 k d
over_Whole q got e done over p h k d = h.1 k d
over_Whole q got e done starting p h k d = absurd (cc)
over_Whole q got e done querying p h k d = absurd (cc)
over_Whole q got e done (looping rest o) p h k d = absurd (cc)
over_Whole q got e done (sending row rest o) p h k d = absurd (cc)
over_Whole q got e done leaving p h k d = absurd (cc)
over_Whole q got e done closing_rows p h k d = absurd (cc)

or_else-none : (o o' : Option Error) → or_else o o' ≡ none → o ≡ none
or_else-none none o' h = refl
or_else-none (some e) o' h = absurd (cc)

-- A consumer that has not called `Close`, gets false from `Next` and then nil from `Err` has scanned
-- the whole answer: the database answered, every row could be scanned, and the iteration ended
-- without an error.
pub received-Whole :
    {q : StreamQuery} {w : StreamWorld} {sr : StreamResult}
    → Streaming q w
    → next w.sr ≡ some (sr, false)
    → w.sr.done ≡ false
    → stream_err sr ≡ none
    → Whole q w.received
unfolding stream_err
received-Whole {q} {w} {sr} r n d e =
    let i = Streaming-EndInv r in
    let (empty, c) = next_ends w.sr w.sr.queue refl i.read_out d n in
    let (a, b, k) = next-false w.sr w.sr.queue refl n in
    let all : sent w ≡ w.received =
      ap (λ l. w.received ++ queued l) empty ∙ append-nil w.received in
    subst (Whole q) all (
      over_Whole q (sent w) w.sr.err w.sr.done w.phase (sym i.rows_closed ∙ c) (Streaming-SoFar q r)
        (sym b ∙ or_else-none sr.err (row_error sr.current.error) e) d)

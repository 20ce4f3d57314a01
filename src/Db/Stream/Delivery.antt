-- ===== src/Db/Stream/Delivery.antt =====
-- Which rows go into the channel of a stream, by the phase of its goroutine.

use sql_cli.Db.Stream.Calls.{close_rows_eq, close_same, mark_eq, next-false, send_eq}
use sql_cli.Base.{
  All, Bool, Bytes, List, Option, [], ap, append-nil, append_assoc, arith, false, inl, inr, none,
  refl, some, subst, sym, true, ◌++◌, ◌+◌, ◌∙◌, ◌∷◌, ◌≡◌, ◌⊎◌,
}
use sql_cli.Db.Driver.{Row, Rows}
use sql_cli.Db.Rows.{convert_row_bytes}
use sql_cli.Db.Rows.Shape.{IsScanned}
use sql_cli.Db.Stream.{
  StreamResult, StreamRow, new_stream_result, next, scan, send, set_columns, set_error,
}
use sql_cli.Db.Stream.Moves.{
  ConsumerMove, Phase, ProducerMove, StreamQuery, StreamWorld, Streaming, closes, closes_rows,
  closing_rows, columns_fail, consumed, context_ends, fail, finishes, leaving, looping, marks_done,
  next_fails, nexts, open_stream, opens, over, produced, query_fails, querying, releases, releasing,
  rows_err, scan_fails, scans, sees_closed, sees_end, sending, sends, starting, starts, starts_late,
  stream_row,
}
use sql_cli.Db.Types.{Error, Result, err, ok}

-- The rows up to the first that cannot be scanned.
abbrev pub leading : List (Result Row) → List Row
leading [] = []
leading (ok row ∷ rest) = convert_row_bytes row ∷ leading rest
leading (err e ∷ rest) = []

abbrev pub with_columns : Result (List Bytes) → List Row → List Row
with_columns (ok cols) rows = rows
with_columns (err e) rows = []

-- What the database answers, as rows.
abbrev pub answered : Result Rows → List Row
answered (ok r) = with_columns r.columns (leading r.scans)
answered (err e) = []

-- The loop ends without an error.
abbrev pub EndsClean : List (Result Row) → Option Error → Type 0
EndsClean rest o = All IsScanned rest × (o ≡ none)

abbrev pub queued : List StreamRow → List Row
queued [] = []
queued (r ∷ rest) = r.row ∷ queued rest

queued-append : (xs ys : List StreamRow) → queued (xs ++ ys) ≡ queued xs ++ queued ys
queued-append [] ys = refl
queued-append (x ∷ xs) ys = ap (λ l. x.row ∷ l) (queued-append xs ys)

-- The rows that went into the channel.
abbrev pub sent : StreamWorld → List Row
sent w = w.received ++ queued w.sr.queue

-- The database answered, every row could be scanned, and the iteration ended without an error.
abbrev pub IsClean : Result Rows → Type 0
IsClean (ok r) = ((cols : List Bytes) × (r.columns ≡ ok cols)) × EndsClean r.scans r.end_error
IsClean (err e) = ⊥

-- Every row was sent.
abbrev pub Whole : StreamQuery → List Row → Type 0
Whole q got = (got ≡ answered q.answer) × IsClean q.answer

abbrev pub Left : StreamQuery → List Row → Option Error → Bool → Type 0
Left q got e done =
    ((rest : List Row) × (got ++ rest ≡ answered q.answer))
    × (e ≡ none → done ≡ false → Whole q got)

-- What is known of the rows that were sent, by the phase.
abbrev pub Delivers : StreamQuery → List Row → Option Error → Bool → Phase → Type 0
Delivers q got e done starting = got ≡ []
Delivers q got e done querying = got ≡ []
Delivers q got e done (looping rest o) =
    (got ++ leading rest ≡ answered q.answer) × (EndsClean rest o → IsClean q.answer)
Delivers q got e done (sending row rest o) =
    (got ++ row ∷ leading rest ≡ answered q.answer) × (EndsClean rest o → IsClean q.answer)
Delivers q got e done _ = Left q got e done

abbrev pub DeliversIn : StreamQuery → StreamWorld → Phase → Type 0
DeliversIn q w p = Delivers q (sent w) w.sr.err w.sr.done p

abbrev pub SoFar : StreamQuery → StreamWorld → Type 0
SoFar q w = DeliversIn q w w.phase

send-sent :
    (got : List Row) (queue : List StreamRow) (r : StreamRow)
    → got ++ queued (queue ++ r ∷ []) ≡ (got ++ queued queue) ++ r.row ∷ []
send-sent got queue r =
    rw (queued-append queue (r ∷ [])) (sym (append_assoc got (queued queue) (r.row ∷ [])))

module _ (q : StreamQuery) where
  pub at_phase : (w : StreamWorld) {p : Phase} → SoFar q w → w.phase ≡ p → DeliversIn q w p
  at_phase w h e = subst (DeliversIn q w) e h

  -- In every phase what was sent is a beginning of the answer.
  pub sent_prefix :
      (got : List Row) (e : Option Error) (done : Bool) (p : Phase)
      → Delivers q got e done p
      → (rest : List Row) × (got ++ rest ≡ answered q.answer)
  sent_prefix got e done starting h = (answered q.answer, rw h)
  sent_prefix got e done querying h = (answered q.answer, rw h)
  sent_prefix got e done (looping rest o) h = (leading rest, h.0)
  sent_prefix got e done (sending row rest o) h = (row ∷ leading rest, h.0)
  sent_prefix got e done leaving h = h.0
  sent_prefix got e done closing_rows h = h.0
  sent_prefix got e done releasing h = h.0
  sent_prefix got e done over h = h.0

  fail-SoFar : (e : Error) (w : StreamWorld) → SoFar q w → SoFar q (fail e w)
  unfolding fail set_error
  fail-SoFar e w h = (sent_prefix (sent w) w.sr.err w.sr.done w.phase h, λ k. cc)

  open-SoFar :
      (got : List Row) (r : Rows) {cols : List Bytes} (e : Option Error) (done : Bool)
      → got ≡ []
      → q.answer ≡ ok r
      → r.columns ≡ ok cols
      → Delivers q got e done (looping r.scans r.end_error)
  open-SoFar got r {cols} e done h a c =
      (rw (h, a, c), λ clean. subst IsClean (sym a) ((cols, c), clean))

  sends-SoFar :
      (w : StreamWorld) {sr : StreamResult} (row : Row) (rest : List (Result Row))
      (o : Option Error)
      → SoFar q w
      → w.phase ≡ sending row rest o
      → send (stream_row w row) w.sr ≡ some sr
      → SoFar q (record w { sr = sr; phase = looping rest o })
  sends-SoFar w row rest o h p s =
      let d = at_phase w h p in
      subst (λ r. SoFar q (record w { sr = r; phase = looping rest o }))
        (sym (send_eq (stream_row w row) w.sr s))
        (
          ap (λ l. l ++ leading rest) (send-sent w.received w.sr.queue (stream_row w row))
              ∙ append_assoc (sent w) (row ∷ []) (leading rest)
              ∙ d.0,
          d.1,
        )

  ProducerMove-SoFar : {w w' : StreamWorld} → SoFar q w → ProducerMove q w w' → SoFar q w'
  unfolding set_columns
  ProducerMove-SoFar {w} h (starts_late p k e) = subst (SoFar q) (sym e) (fail-SoFar _ w h)
  ProducerMove-SoFar {w} h (starts p k e) = subst (SoFar q) (sym e) (at_phase w h p)
  ProducerMove-SoFar {w} h (query_fails x p k e) = subst (SoFar q) (sym e) (fail-SoFar _ w h)
  ProducerMove-SoFar {w} h (columns_fail r x p k c e) = subst (SoFar q) (sym e) (fail-SoFar _ w h)
  ProducerMove-SoFar {w} h (opens r cols p k c e) =
      subst (SoFar q) (sym e) (open-SoFar (sent w) r w.sr.err w.sr.done (at_phase w h p) k c)
  ProducerMove-SoFar {w} h (scan_fails x rest o p e) = subst (SoFar q) (sym e) (fail-SoFar _ w h)
  ProducerMove-SoFar {w} h (scans row rest o p e) =
      let d = at_phase w h p in subst (SoFar q) (sym e) (d.0, λ c. d.1 ((tt, c.0), c.1))
  ProducerMove-SoFar {w} h (sends row rest o sr p k s e) =
      subst (SoFar q) (sym e) (sends-SoFar w row rest o h p s)
  ProducerMove-SoFar {w} h (sees_closed row rest o p d e) =
      subst (SoFar q) (sym e)
        (sent_prefix (sent w) w.sr.err w.sr.done w.phase h, λ k f. absurd (cc (d, f)))
  ProducerMove-SoFar {w} h (sees_end row rest o p k e) = subst (SoFar q) (sym e) (fail-SoFar _ w h)
  ProducerMove-SoFar {w} h (rows_err x p e) = subst (SoFar q) (sym e) (fail-SoFar _ w h)
  ProducerMove-SoFar {w} h (finishes p e) =
      let d = at_phase w h p in
      subst (SoFar q) (sym e) (([], d.0), λ k f. (sym (append-nil (sent w)) ∙ d.0, d.1 (tt, refl)))
  ProducerMove-SoFar {w} h (marks_done sr p k e) = subst (SoFar q) (sym e) (
      subst (λ r. SoFar q (record w { sr = r; phase = closing_rows })) (sym (mark_eq w.sr k))
        (at_phase w h p))
  ProducerMove-SoFar {w} h (closes_rows sr p k e) = subst (SoFar q) (sym e) (
      subst (λ r. SoFar q (record w { sr = r; phase = releasing })) (sym (close_rows_eq w.sr k))
        (at_phase w h p))
  ProducerMove-SoFar {w} h (releases p e) = subst (SoFar q) (sym e) (at_phase w h p)

  -- A stream that is closed says no more.
  closed-Delivers :
      (got : List Row) (e : Option Error) (done : Bool) (p : Phase)
      → Delivers q got e done p
      → Delivers q got e true p
  closed-Delivers got e done starting h = h
  closed-Delivers got e done querying h = h
  closed-Delivers got e done (looping rest o) h = h
  closed-Delivers got e done (sending row rest o) h = h
  closed-Delivers got e done leaving h = (h.0, λ k f. absurd (cc))
  closed-Delivers got e done closing_rows h = (h.0, λ k f. absurd (cc))
  closed-Delivers got e done releasing h = (h.0, λ k f. absurd (cc))
  closed-Delivers got e done over h = (h.0, λ k f. absurd (cc))

  next-SoFar :
      (w : StreamWorld) (l : List StreamRow) {sr : StreamResult}
      → w.sr.queue ≡ l
      → SoFar q w
      → next w.sr ≡ some (sr, true)
      → SoFar q (record w { sr = sr; received = w.received ++ scan sr ∷ [] })
  unfolding next scan
  next-SoFar w [] e h n = absurd (ground arith)
  next-SoFar w (r ∷ rest) {sr} e h n =
      let same : sr ≡ record w.sr { queue = rest; current = r; index = w.sr.index + 1 } =
        ground arith in
      let moved : (w.received ++ r.row ∷ []) ++ queued rest ≡ sent w =
        append_assoc w.received (r.row ∷ []) (queued rest)
        ∙ ap (λ l. w.received ++ queued l) (sym e) in
      rw same (subst (λ got. Delivers q got w.sr.err w.sr.done w.phase) (sym moved) h)

  same-SoFar :
      (w : StreamWorld) (sr : StreamResult)
      → sr.queue ≡ w.sr.queue
      → sr.err ≡ w.sr.err
      → (sr.done ≡ w.sr.done) ⊎ (sr.done ≡ true)
      → SoFar q w
      → SoFar q (record w { sr = sr })
  same-SoFar w sr a b (inl c) h = rw (a, b, c) h
  same-SoFar w sr a b (inr c) h =
      rw (a, b, c) (closed-Delivers (sent w) w.sr.err w.sr.done w.phase h)

  ConsumerMove-SoFar : {w w' : StreamWorld} → SoFar q w → ConsumerMove w w' → SoFar q w'
  ConsumerMove-SoFar {w} h (nexts sr n e) =
      subst (SoFar q) (sym e) (next-SoFar w w.sr.queue refl h n)
  ConsumerMove-SoFar {w} h (next_fails sr n e) =
      let (a, b, c) = next-false w.sr w.sr.queue refl n in
      subst (SoFar q) (sym e) (same-SoFar w sr a b (inl c) h)
  ConsumerMove-SoFar {w} h (closes sr n e) =
      let (a, b, c) = close_same w.sr n in subst (SoFar q) (sym e) (same-SoFar w sr a b c h)
  ConsumerMove-SoFar {w} h (context_ends e) = subst (SoFar q) (sym e) h

  pub Streaming-SoFar : {w : StreamWorld} → Streaming q w → SoFar q w
  unfolding new_stream_result
  Streaming-SoFar open_stream = refl
  Streaming-SoFar (produced r m) = ProducerMove-SoFar (Streaming-SoFar r) m
  Streaming-SoFar (consumed r m) = ConsumerMove-SoFar (Streaming-SoFar r) m

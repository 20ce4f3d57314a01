-- ===== src/Tests/Logged.antt =====
-- A database that keeps the texts it is sent and answers each query with one row.
use sql_cli.Base.{Bytes, List, [], codes, none, pos, ◌∷◌}
use sql_cli.Db.Driver.{Ctx, Driver, Rows, Timing}
use sql_cli.Db.Types.{Value, bytes, ok}

abbrev pub one_row : Rows
one_row = record {
  columns = ok (codes "id" ∷ codes "name" ∷ []);
  scans = ok ((codes "id", Value.number (pos 7)) ∷ (codes "name", bytes (codes "ann")) ∷ []) ∷ [];
  end_error = none;
}

abbrev pub logged : Driver
logged = record {
  Db = List Bytes;
  Tx = Unit {0};
  rebind = λ s. s;
  exec_context = λ ctx s args db. (s ∷ db, ok (record { last_id = pos 0; affected = pos 1 }));
  queryx_context = λ ctx s args db. (s ∷ db, ok one_row);
  begin_txx = λ ctx db. (db, ok tt);
  tx_exec_context = λ tx ctx s args db. (s ∷ db, ok (record { last_id = pos 0; affected = pos 1 }));
  tx_queryx_context = λ tx ctx s args db. (s ∷ db, ok one_row);
  tx_commit = λ tx db. (codes "COMMIT" ∷ db, none);
  tx_rollback = λ tx db. (codes "ROLLBACK" ∷ db, none);
}

abbrev pub ctx0 : Ctx
ctx0 = record { deadline = none }

abbrev pub timing0 : Timing
timing0 = record { now = 5; elapsed = 2000000 }

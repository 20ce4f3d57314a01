-- ===== src/Tests/Registries.antt =====
-- Pools of connections that log what they are asked, and a registry of them.
use mathlib.Core.List.{Memᴰ}
use sql_cli.Base.{Bytes, Entries, List, [], codes, length, none, refl, some, ◌↔◌, ◌∷◌, ◌≡◌, ◌≢◌}
use sql_cli.Config.{default_config, with_name}
use sql_cli.Db.Types.{ok}
use sql_cli.Db.Open.{
  Pools, Session, configured, drivers, new_session_from_db, open_session, register_driver,
  sqlite_factory,
}
use sql_cli.Db.Open.Registered.{OpenedAs}
use sql_cli.Registry.{Registry, count, get_session, list_names, new_registry, open_named}
use sql_cli.Registry.Map.{IsRange}
use sql_cli.Registry.Refine.{Op, Represents, close_all_op, no_sessions, open_op, with_session}
use sql_cli.Registry.Runs.{
  Represents-reads, RunsOn, new_registry-MapRun, open_named-OpenedAs, run_all,
}

-- A pool is the DSN it was opened with.
abbrev pub logging : Pools
logging = record {
  World = List Bytes;
  Pool = Bytes;
  open_pool = λ driver dsn w. (dsn ∷ w, ok dsn);
  set_max_open_conns = λ pool n w. w;
  set_max_idle_conns = λ pool n w. w;
  set_conn_max_lifetime = λ pool n w. w;
  ping_context = λ pool w. (w, none);
  close_pool = λ pool w. (codes "close" ∷ w, none);
}

abbrev as_stored : Entries (Session Bytes) → Entries (Session Bytes)
as_stored m = m

as_stored-IsRange : IsRange as_stored
as_stored-IsRange m d = record { once = d; same = λ k. refl }

abbrev main_db : Bytes
main_db = codes "main.db"

abbrev main_session : Session Bytes
main_session = record {
  name = codes "a";
  dsn = main_db;
  cfg = with_name (codes "a") default_config;
  db = main_db;
}

abbrev with_main : Registry Bytes
with_main = record { sessions = (codes "a", main_session) ∷ [] }

opens_main :
    open_named logging
      (drivers logging)
      (codes "a")
      (codes "sqlite3")
      main_db
      []
      (new_registry logging)
      []
    ≡ (with_main, main_db ∷ [], ok main_session)
unfolding open_named open_session register_driver sqlite_factory new_session_from_db new_registry
    with_name default_config
opens_main = refl

open_named-OpenedAs_example :
    (get_session logging (codes "a") with_main ≡ ok main_session)
    × OpenedAs logging main_db (configured default_config (with_name (codes "a") ∷ [])) main_session
open_named-OpenedAs_example =
    open_named-OpenedAs logging (codes "a") (codes "sqlite3") main_db [] (new_registry logging) []
      opens_main

abbrev open_and_close : List (Op logging)
open_and_close = open_op (codes "a") (codes "sqlite3") main_db [] ∷ close_all_op ∷ []

new_registry-MapRun_example :
    RunsOn logging
      (drivers logging)
      as_stored
      open_and_close
      no_sessions
      []
      (run_all logging (drivers logging) as_stored open_and_close (new_registry logging) [])
new_registry-MapRun_example =
    new_registry-MapRun logging (drivers logging) as_stored open_and_close [] as_stored-IsRange

with_main-Represents : Represents with_main (with_session (codes "a") main_session no_sessions)
with_main-Represents = record { distinct = (refl, tt); same = λ k. refl }

Represents-reads_example :
    (get_session logging (codes "a") with_main ≡ ok main_session)
    × (Memᴰ (codes "a") (list_names logging as_stored with_main) ↔ (some main_session ≢ none))
    × (count logging with_main ≡ length (list_names logging as_stored with_main))
Represents-reads_example =
    Represents-reads logging (drivers logging) as_stored with_main
      (with_session (codes "a") main_session no_sessions) (codes "a") as_stored-IsRange
      with_main-Represents

-- ===== src/Db/Open.antt =====
-- pkg/db/driver.go, the constructors of pkg/db/session.go, and the factories of pkg/db/mysql,
-- pkg/db/postgres and pkg/db/sqlite. What they call of sqlx is a parameter: opening a pool of
-- connections, its three settings, and closing it.
pub mod Registered
use mathlib.Core.Option
use sql_cli.Base.{
  Bytes, Entries, List, Option, [], codes, lookup, map, none, pos, put, some, ℤ, ◌++◌, ◌∷◌,
}
use sql_cli.Config.{Config, ConfigOption, default_config}
use sql_cli.Db.Types.{Error, Result, err, foreign, ok, quoted, wrap}

pub record Pools : Type 1 where
  pub World : Type 0
  pub Pool : Type 0
  pub open_pool : Bytes → Bytes → World → World × Result Pool
  pub set_max_open_conns : Pool → ℤ → World → World
  pub set_max_idle_conns : Pool → ℤ → World → World
  pub set_conn_max_lifetime : Pool → ℤ → World → World
  pub ping_context : Pool → World → World × Option Error
  pub close_pool : Pool → World → World × Option Error

-- `active` is in Db/Slots.
pub record Session (Pool : Type 0) : Type 0 where
  pub name : Bytes
  pub dsn : Bytes
  pub cfg : Config
  pub db : Pool

abbrev pub name_or : Bytes → Bytes → Bytes
name_or [] fallback = fallback
name_or (c ∷ name) fallback = c ∷ name

abbrev pub configured : Config → List ConfigOption → Config
configured cfg [] = cfg
configured cfg (opt ∷ options) = configured (opt cfg) options

abbrev pub unknown_driver : Bytes → Error
unknown_driver driver = foreign (
    codes "unknown database driver: "
    ++ (quoted driver ++ codes " (forgot to import the driver package?)"))

module _ (p : Pools) where
  open p use {
    World, Pool, open_pool, set_max_open_conns, set_max_idle_conns, set_conn_max_lifetime,
    ping_context, close_pool,
  }

  abbrev pub DriverFactory : Type 0
  DriverFactory = Bytes → Config → World → World × Result (Session Pool)

  unfoldable pub new_session_with_db : Bytes → Bytes → Config → Pool → Session Pool
  new_session_with_db name dsn cfg db = record {
    name = name_or cfg.name name;
    dsn = dsn;
    cfg = cfg;
    db = db;
  }

  unfoldable pub new_session_from_db : Bytes → Config → Pool → Session Pool
  new_session_from_db dsn cfg db = record {
    name = name_or cfg.name dsn;
    dsn = dsn;
    cfg = cfg;
    db = db;
  }

  -- The three calls behind `sqlx.Open`.
  abbrev pub set_up : ℤ → ℤ → ℤ → Pool → World → World
  set_up open_conns idle_conns lifetime db w =
      set_conn_max_lifetime db lifetime
        (set_max_idle_conns db idle_conns (set_max_open_conns db open_conns w))

  abbrev pub opened_session :
      ℤ → ℤ → Bytes → Bytes → Config → World × Result Pool → World × Result (Session Pool)
  opened_session open_conns idle_conns prefix dsn cfg (w, err e) = (w, err (wrap prefix e))
  opened_session open_conns idle_conns prefix dsn cfg (w, ok db) =
      (set_up open_conns idle_conns cfg.conn_max_lifetime db w, ok (new_session_from_db dsn cfg db))

  -- `newSession`, whose fields are those of `NewSessionFromDB`.
  unfoldable pub new_session : Bytes → DriverFactory
  new_session driver dsn cfg w =
      opened_session cfg.max_open_conns cfg.max_idle_conns (codes "invalid DSN for " ++ driver) dsn
        cfg (open_pool driver dsn w)

  -- The factory of pkg/db/mysql.
  unfoldable pub mysql_factory : DriverFactory
  mysql_factory dsn cfg w =
      opened_session cfg.max_open_conns cfg.max_idle_conns (codes "open mysql") dsn cfg
        (open_pool (codes "mysql") dsn w)

  unfoldable pub postgres_factory : DriverFactory
  postgres_factory dsn cfg w =
      opened_session cfg.max_open_conns cfg.max_idle_conns (codes "open postgres") dsn cfg
        (open_pool (codes "pgx") dsn w)

  -- One connection, whatever the configuration says.
  unfoldable pub sqlite_factory : DriverFactory
  sqlite_factory dsn cfg w =
      opened_session (pos 1) (pos 1) (codes "open sqlite") dsn cfg
        (open_pool (codes "sqlite") dsn w)

  unfoldable pub register_driver :
      Bytes → DriverFactory → Entries DriverFactory → Entries DriverFactory
  register_driver name factory drivers = put name factory drivers

  -- The `init` functions of pkg/db, pkg/db/postgres and pkg/db/sqlite.
  abbrev pub register_default : Entries DriverFactory → Entries DriverFactory
  register_default m = register_driver (codes "mysql") (new_session (codes "mysql")) m

  abbrev pub register_postgres : Entries DriverFactory → Entries DriverFactory
  register_postgres m =
      register_driver (codes "pgx") postgres_factory
        (register_driver (codes "postgres") postgres_factory m)

  abbrev pub register_sqlite : Entries DriverFactory → Entries DriverFactory
  register_sqlite m =
      register_driver (codes "sqlite") sqlite_factory
        (register_driver (codes "sqlite3") sqlite_factory m)

  -- What the program imports: pkg/db, then pkg/db/postgres and pkg/db/sqlite.
  abbrev pub drivers : Entries DriverFactory
  drivers = register_sqlite (register_postgres (register_default []))

  abbrev pub made_by :
      Bytes → Bytes → Config → Option DriverFactory → World → World × Result (Session Pool)
  made_by driver dsn cfg none w = (w, err (unknown_driver driver))
  made_by driver dsn cfg (some factory) w = factory dsn cfg w

  -- `db.Open`.
  unfoldable pub open_session :
      Entries DriverFactory
      → Bytes
      → Bytes
      → List ConfigOption
      → World
      → World × Result (Session Pool)
  open_session registered driver dsn options w =
      made_by driver dsn (configured default_config options) (lookup driver registered) w

  abbrev pub ping_error : Option Error → Option Error
  ping_error o = Option.map (wrap (codes "ping failed")) o

  -- `Session.Ping`.
  unfoldable pub ping : Session Pool → World → World × Option Error
  ping s w = let (w', e) = ping_context s.db w in (w', ping_error e)

  -- `Session.Close`.
  unfoldable pub close_session : Session Pool → World → World × Option Error
  close_session s w = close_pool s.db w

-- ===== src/Db/Open/Registered.antt =====
-- Sessions that `db.Open` makes with the drivers that the program registers.
use sql_cli.Base.{
  Bool-cases, Bytes, Entries, List, Option, [], beq, codes, inl, inr, lookup, none, pos, refl, some,
  some_inj, subst, sym, ℤ, ◌++◌, ◌∙◌, ◌∷◌, ◌≡◌, ◌≢◌,
}
use sql_cli.Config.{Config, ConfigOption, default_config}
use sql_cli.Db.Types.{Result, err, ok}
use sql_cli.Db.Open.{
  DriverFactory, Pools, Session, configured, drivers, made_by, mysql_factory, name_or, new_session,
  new_session_from_db, open_session, opened_session, postgres_factory, register_driver,
  sqlite_factory,
}

name_or-named : (name fallback : Bytes) → name ≢ [] → name_or name fallback ≡ name
name_or-named [] fallback h = absurd (h refl)
name_or-named (c ∷ name) fallback h = refl

name_or-unnamed : (name fallback : Bytes) → name ≡ [] → name_or name fallback ≡ fallback
name_or-unnamed [] fallback h = refl
name_or-unnamed (c ∷ name) fallback h = absurd (cc)

module _ (p : Pools) where
  open p use {World, Pool}

  -- The session as its arguments say.
  pub record OpenedAs (dsn : Bytes) (cfg : Config) (s : Session Pool) : Type 0 where
    pub named : cfg.name ≢ [] → s.name ≡ cfg.name
    pub unnamed : cfg.name ≡ [] → s.name ≡ dsn
    pub same_dsn : s.dsn ≡ dsn
    pub same_cfg : s.cfg ≡ cfg

  abbrev pub MakesSessions : DriverFactory p → Type 0
  MakesSessions f =
      (dsn : Bytes) (cfg : Config) (w w' : World) (s : Session Pool)
      → f dsn cfg w ≡ (w', ok s)
      → OpenedAs dsn cfg s

  opened_session-OpenedAs :
      (open_conns idle_conns : ℤ) (prefix dsn : Bytes) (cfg : Config) (r : World × Result Pool)
      {w' : World} {s : Session Pool}
      → opened_session p open_conns idle_conns prefix dsn cfg r ≡ (w', ok s)
      → OpenedAs dsn cfg s
  unfolding new_session_from_db
  opened_session-OpenedAs open_conns idle_conns prefix dsn cfg (w, err e) h = absurd (cc)
  opened_session-OpenedAs open_conns idle_conns prefix dsn cfg (w, ok db) h = record {
    named = λ k. cc (name_or-named cfg.name dsn k);
    unnamed = λ k. cc (name_or-unnamed cfg.name dsn k);
    same_dsn = cc;
    same_cfg = cc;
  }

  abbrev pub AllMake : Entries (DriverFactory p) → Type 0
  AllMake [] = Unit
  AllMake ((name, f) ∷ rest) = MakesSessions f × AllMake rest

  -- `RegisterDriver` puts a factory in.
  register_driver-AllMake :
      (name : Bytes) (f : DriverFactory p) (m : Entries (DriverFactory p))
      → MakesSessions f
      → AllMake m
      → AllMake (register_driver p name f m)
  unfolding register_driver
  register_driver-AllMake name f [] h hs = (h, tt)
  register_driver-AllMake name f ((name', f') ∷ rest) h hs = elim (Bool-cases (beq name name')) [
    | inl e ↦ rw e (h, hs.1)
    | inr e ↦ rw e (hs.0, register_driver-AllMake name f rest h hs.1)
  ]

  lookup-MakesSessions :
      (k : Bytes) (m : Entries (DriverFactory p)) {f : DriverFactory p}
      → AllMake m
      → lookup k m ≡ some f
      → MakesSessions f
  lookup-MakesSessions k [] hs h = absurd (cc)
  lookup-MakesSessions k ((name, f') ∷ rest) hs h = elim (Bool-cases (beq k name)) [
    | inl e ↦ subst MakesSessions (some_inj (sym (rw e refl) ∙ h)) hs.0
    | inr e ↦ lookup-MakesSessions k rest hs.1 (sym (rw e refl) ∙ h)
  ]

  new_session-Makes : (driver : Bytes) → MakesSessions (new_session p driver)
  unfolding new_session
  new_session-Makes driver dsn cfg w w' s h =
      opened_session-OpenedAs cfg.max_open_conns cfg.max_idle_conns
        (codes "invalid DSN for " ++ driver) dsn cfg (p.open_pool driver dsn w) h

  -- The factory of pkg/db/mysql, which the program does not import, makes the same sessions.
  pub mysql_factory-Makes : MakesSessions (mysql_factory p)
  unfolding mysql_factory
  mysql_factory-Makes dsn cfg w w' s h =
      opened_session-OpenedAs cfg.max_open_conns cfg.max_idle_conns (codes "open mysql") dsn cfg
        (p.open_pool (codes "mysql") dsn w) h

  postgres_factory-Makes : MakesSessions (postgres_factory p)
  unfolding postgres_factory
  postgres_factory-Makes dsn cfg w w' s h =
      opened_session-OpenedAs cfg.max_open_conns cfg.max_idle_conns (codes "open postgres") dsn cfg
        (p.open_pool (codes "pgx") dsn w) h

  sqlite_factory-Makes : MakesSessions (sqlite_factory p)
  unfolding sqlite_factory
  sqlite_factory-Makes dsn cfg w w' s h =
      opened_session-OpenedAs (pos 1) (pos 1) (codes "open sqlite") dsn cfg
        (p.open_pool (codes "sqlite") dsn w) h

  drivers-AllMake : AllMake (drivers p)
  drivers-AllMake =
      register_driver-AllMake (codes "sqlite") (sqlite_factory p) _ sqlite_factory-Makes (
        register_driver-AllMake (codes "sqlite3") (sqlite_factory p) _ sqlite_factory-Makes (
          register_driver-AllMake (codes "pgx") (postgres_factory p) _ postgres_factory-Makes (
            register_driver-AllMake (codes "postgres") (postgres_factory p) _ postgres_factory-Makes
              (register_driver-AllMake (codes "mysql") (new_session p (codes "mysql")) []
                (new_session-Makes (codes "mysql")) tt))))

  made_by-OpenedAs :
      (driver dsn : Bytes) (cfg : Config) (o : Option (DriverFactory p)) (w : World) {w' : World}
      {s : Session Pool}
      → lookup driver (drivers p) ≡ o
      → made_by p driver dsn cfg o w ≡ (w', ok s)
      → OpenedAs dsn cfg s
  made_by-OpenedAs driver dsn cfg none w k h = absurd (cc)
  made_by-OpenedAs driver dsn cfg (some f) w {w'} {s} k h =
      lookup-MakesSessions driver (drivers p) drivers-AllMake k dsn cfg w w' s h

  -- A session that `Open` returns, whichever of the program's drivers made it, has the configuration
  -- of the defaults and the options in their order, the DSN it was opened with, and the name of that
  -- configuration, or where that is empty the DSN.
  pub open_session-OpenedAs :
      (driver dsn : Bytes) (options : List ConfigOption) (w : World) {w' : World} {s : Session Pool}
      → open_session p (drivers p) driver dsn options w ≡ (w', ok s)
      → OpenedAs dsn (configured default_config options) s
  unfolding open_session
  open_session-OpenedAs driver dsn options w h =
      made_by-OpenedAs driver dsn (configured default_config options) (lookup driver (drivers p)) w
        refl h

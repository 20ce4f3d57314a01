-- ===== src/Dsn/Drivers.antt =====
-- Which drivers `Detect` names, and what `db.Open` then has for them.

use sql_cli.Base.{
  Bool, Bytes, List, false, if◌then◌else◌, inl, inr, lookup, refl, some, subst, true, ◌≡◌, ◌⊎◌,
}
use sql_cli.Config.{ConfigOption}
use sql_cli.Db.Types.{Error, Result, err, ok, ok_inj}
use sql_cli.Db.Open.{DriverFactory, Pools, drivers, open_session, register_driver, unknown_driver}
use sql_cli.Dsn.{
  detect, detect_trimmed, driver_mysql, driver_oracle, driver_postgres, driver_sqlite,
}

-- The drivers that `Detect` knows.
pub data IsDriver : Bytes → Type 0 where
  mysql : IsDriver driver_mysql
  postgres : IsDriver driver_postgres
  sqlite : IsDriver driver_sqlite
  oracle : IsDriver driver_oracle

data Named : Result Bytes → Type 0 where
  names : {driver : Bytes} → IsDriver driver → Named (ok driver)
  fails : {e : Error} → Named (err e)

either : (b : Bool) (x y : Result Bytes) → Named x → Named y → Named (if b then x else y)
either true x y h k = h
either false x y h k = k

detect-Named : (dsn : Bytes) → Named (detect dsn)
unfolding detect detect_trimmed
detect-Named dsn =
    search
      (
        either, Named.names, Named.fails, IsDriver.mysql, IsDriver.postgres, IsDriver.sqlite,
        IsDriver.oracle,
      )
      depth 12

named_ok : {r : Result Bytes} {driver : Bytes} → Named r → r ≡ ok driver → IsDriver driver
named_ok (names d) h = subst IsDriver (ok_inj h) d
named_ok fails h = absurd (cc)

module _ (p : Pools) where
  open p use {World, Pool}

  -- The program registers a driver of the name, or `Open` fails and touches nothing.
  abbrev pub Opens : Bytes → Type 0
  Opens driver =
      ((f : DriverFactory p) × (lookup driver (drivers p) ≡ some f))
      ⊎ ((driver ≡ driver_oracle)
          × ((dsn : Bytes) (options : List ConfigOption) (w : World)
              → open_session p (drivers p) driver dsn options w ≡ (w, err (unknown_driver driver))))

  IsDriver-Opens : {driver : Bytes} → IsDriver driver → Opens driver
  unfolding register_driver open_session
  IsDriver-Opens mysql = inl (_, refl)
  IsDriver-Opens postgres = inl (_, refl)
  IsDriver-Opens sqlite = inl (_, refl)
  IsDriver-Opens oracle = inr (refl, λ dsn options w. refl)

  -- For every DSN that `Detect` recognises the program has registered the driver it names, but for
  -- Oracle: `Open` does not know that one, returns an error and opens nothing.
  pub detect-Opens : (dsn : Bytes) {driver : Bytes} → detect dsn ≡ ok driver → Opens driver
  detect-Opens dsn h = IsDriver-Opens (named_ok (detect-Named dsn) h)

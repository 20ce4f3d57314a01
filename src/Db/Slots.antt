-- ===== src/Db/Slots.antt =====
-- The concurrency slots of pkg/db/session.go. `QueryStream` takes one before it starts its goroutine,
-- and the goroutine gives it back when it ends; each is one step under the session's lock.
pub mod Bounds
use sql_cli.Base.{
  Option, if◌then◌else◌, leb_ℤ, none, pos, pred_ℤ, some, succ_ℤ, ℕ, ℤ, ◌+◌, ◌-◌, ◌<◌, ◌≡◌,
}
use sql_cli.Config.{Config}
use sql_cli.Db.Types.{Error, max_concurrent}

-- `acquireConcurrencySlot`, on the field `active`: its new value, and the error.
unfoldable pub acquire_concurrency_slot : Config → ℤ → ℤ × Option Error
acquire_concurrency_slot cfg active =
    if leb_ℤ cfg.max_concurrent_queries (pos 0)
    then (active, none)
    else if leb_ℤ cfg.max_concurrent_queries active
    then (active, some (max_concurrent cfg.max_concurrent_queries))
    else (succ_ℤ active, none)

-- `releaseConcurrencySlot`.
unfoldable pub release_concurrency_slot : Config → ℤ → ℤ
release_concurrency_slot cfg active =
    if leb_ℤ cfg.max_concurrent_queries (pos 0) then active else pred_ℤ active

-- The field, and the goroutines that run.
pub record Streams : Type 0 where
  pub active : ℤ
  pub running : ℕ

abbrev pub no_streams : Streams
no_streams = record { active = pos 0; running = 0 }

pub data StreamStep (cfg : Config) (s s' : Streams) : Type 0 where
  starts :
      (a : ℤ)
      → acquire_concurrency_slot cfg s.active ≡ (a, none)
      → s' ≡ record { active = a; running = s.running + 1 }
      → StreamStep cfg s s'
  is_refused :
      (a : ℤ) (e : Error)
      → acquire_concurrency_slot cfg s.active ≡ (a, some e)
      → s' ≡ record s { active = a }
      → StreamStep cfg s s'
  producer_ends :
      0 < s.running
      → s' ≡ record { active = release_concurrency_slot cfg s.active; running = s.running - 1 }
      → StreamStep cfg s s'

pub data StreamRun (cfg : Config) : Streams → Type 0 where
  initially : StreamRun cfg no_streams
  and_then : {s s' : Streams} → StreamRun cfg s → StreamStep cfg s s' → StreamRun cfg s'

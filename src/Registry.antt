-- ===== src/Registry.antt =====
-- pkg/registry/registry.go. Each operation holds the registry's lock from its first line to its last,
-- so it is one function on the map. `range` says in which order a loop over the map meets its entries.
pub mod Map
pub mod Refine
pub mod Runs
use sql_cli.Base.{
  Bytes, Entries, List, Option, [], codes, length, lookup, map, none, not, put, remove, some, ℕ,
  ◌++◌, ◌∷◌,
}
use sql_cli.Config.{ConfigOption, with_name}
use sql_cli.Db.Types.{Error, Result, err, foreign, ok, quoted, wrap}
use sql_cli.Db.Open.{DriverFactory, Pools, Session, close_session, open_session}

pub record Registry (Pool : Type 0) : Type 0 where
  pub sessions : Entries (Session Pool)

abbrev pub already_exists : Bytes → Error
already_exists name =
    foreign (codes "session " ++ (quoted name ++ codes " already exists in registry"))

abbrev pub not_found : Bytes → Error
not_found name = foreign (codes "session " ++ (quoted name ++ codes " not found in registry"))

abbrev pub with_close_error : Bytes → Option Error → List Error → List Error
with_close_error name none errs = errs
with_close_error name (some e) errs = wrap (codes "close " ++ quoted name) e ∷ errs

module _ (p : Pools) where
  open p use {World, Pool}

  unfoldable pub new_registry : Registry Pool
  new_registry = record { sessions = [] }

  abbrev pub stored :
      Bytes
      → Registry Pool
      → World × Result (Session Pool)
      → Registry Pool × World × Result (Session Pool)
  stored name r (w, err e) = (r, w, err e)
  stored name r (w, ok s) = (record { sessions = put name s r.sessions }, w, ok s)

  abbrev pub unless_taken :
      Bytes
      → Registry Pool
      → World
      → Option (Session Pool)
      → World × Result (Session Pool)
      → Registry Pool × World × Result (Session Pool)
  unless_taken name r w (some s) opened = (r, w, err (already_exists name))
  unless_taken name r w none opened = stored name r opened

  -- `Registry.Open`.
  unfoldable pub open_named :
      Entries (DriverFactory p)
      → Bytes
      → Bytes
      → Bytes
      → List ConfigOption
      → Registry Pool
      → World
      → Registry Pool × World × Result (Session Pool)
  open_named registered name driver dsn opts r w =
      unless_taken name r w (lookup name r.sessions)
        (open_session p registered driver dsn (with_name name ∷ opts) w)

  abbrev pub found : Bytes → Option (Session Pool) → Result (Session Pool)
  found name none = err (not_found name)
  found name (some s) = ok s

  -- `Registry.Get`.
  unfoldable pub get_session : Bytes → Registry Pool → Result (Session Pool)
  get_session name r = found name (lookup name r.sessions)

  abbrev pub added :
      Bytes → Session Pool → Registry Pool → Option (Session Pool) → Registry Pool × Option Error
  added name session r (some s) = (r, some (already_exists name))
  added name session r none = (record { sessions = put name session r.sessions }, none)

  -- `Registry.Add`.
  unfoldable pub add_session : Bytes → Session Pool → Registry Pool → Registry Pool × Option Error
  add_session name session r = added name session r (lookup name r.sessions)

  abbrev pub closed_named :
      Bytes → Registry Pool → World → Option (Session Pool) → Registry Pool × World × Option Error
  closed_named name r w none = (r, w, some (not_found name))
  closed_named name r w (some s) =
      let (w', e) = close_session p s w in (record { sessions = remove name r.sessions }, w', e)

  -- `Registry.Close`.
  unfoldable pub close_named : Bytes → Registry Pool → World → Registry Pool × World × Option Error
  close_named name r w = closed_named name r w (lookup name r.sessions)

  -- The loop of `CloseAll`.
  abbrev pub close_each :
      Entries (Session Pool)
      → Entries (Session Pool)
      → World
      → Entries (Session Pool) × World × List Error
  close_each [] m w = (m, w, [])
  close_each ((name, s) ∷ rest) m w =
      let (w', e) = close_session p s w in
      let (m', w'', errs) = close_each rest (remove name m) w' in
      (m', w'', with_close_error name e errs)

  module _ (range : Entries (Session Pool) → Entries (Session Pool)) where
    -- `Registry.List`.
    unfoldable pub list_names : Registry Pool → List Bytes
    list_names r = map (λ entry. entry.0) (range r.sessions)

    -- `Registry.CloseAll`; `errors.Join` of no errors is nil.
    unfoldable pub close_all : Registry Pool → World → Registry Pool × World × List Error
    close_all r w =
        let (m, w', errs) = close_each (range r.sessions) r.sessions w in
        (record { sessions = m }, w', errs)

  -- `Registry.Count`.
  unfoldable pub count : Registry Pool → ℕ
  count r = length r.sessions

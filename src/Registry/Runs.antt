-- ===== src/Registry/Runs.antt =====
-- A registry after any sequence of calls, and what its readers then say.
use sql_cli.Config.{ConfigOption, default_config, with_name}
use sql_cli.Db.Types.{Result, err, ok}
use sql_cli.Db.Open.Registered.{OpenedAs, open_session-OpenedAs}
use mathlib.Core.List.{Memᴰ}
use sql_cli.Base.{
  Bytes, Entries, List, Option, [], ap, beq-same, length, length-map, lookup, lookup-put, none, put,
  refl, some, sym, ◌↔◌, ◌∙◌, ◌∷◌, ◌≡◌, ◌≢◌,
}
use sql_cli.Db.Open.{DriverFactory, Pools, Session, configured, drivers, open_session}
use sql_cli.Registry.{
  Registry, count, found, get_session, list_names, new_registry, open_named, unless_taken,
}
use sql_cli.Registry.Map.{IsRange, length-IsRangeOf, names_iff}
use sql_cli.Registry.Refine.{
  Answer, Does, Op, Represents, SessionMap, no_sessions, run_op, run_op-Simulates,
}

module _ (p : Pools) (registered : Entries (DriverFactory p))
    (range : Entries (Session p.Pool) → Entries (Session p.Pool)) where
  open p use {World, Pool}

  abbrev pub with_answer :
      Answer Pool
      → Registry Pool × World × List (Answer Pool)
      → Registry Pool × World × List (Answer Pool)
  with_answer a (r, w, answers) = (r, w, a ∷ answers)

  -- The calls one after another, from a registry and a world, with what they return.
  abbrev pub run_all :
      List (Op p) → Registry Pool → World → Registry Pool × World × List (Answer Pool)
  run_all [] r w = (r, w, [])
  run_all (op ∷ rest) r w =
      let (r', w', a) = run_op p registered range op r w in with_answer a (run_all rest r' w')

  -- The same calls with the same answers on a map of names to sessions.
  pub data MapRun
      : List (Op p)
        → SessionMap Pool
        → World
        → List (Answer Pool)
        → SessionMap Pool
        → World
        → Type 0 where
    stays : {m : SessionMap Pool} {w : World} → MapRun [] m w [] m w
    calls :
        {op : Op p} {rest : List (Op p)} {a : Answer Pool} {answers : List (Answer Pool)}
        {m m' m'' : SessionMap Pool} {w w' w'' : World}
        → Does p registered range op m w a m' w'
        → MapRun rest m' w' answers m'' w''
        → MapRun (op ∷ rest) m w (a ∷ answers) m'' w''

  -- What a run leaves stands for a map, to which the calls did what they returned.
  abbrev pub RunsOn :
      List (Op p) → SessionMap Pool → World → Registry Pool × World × List (Answer Pool) → Type 0
  RunsOn ops m w (r', w', answers) =
      (m' : SessionMap Pool) × Represents r' m' × MapRun ops m w answers m' w'

  run_all-MapRun :
      (ops : List (Op p)) (r : Registry Pool) (m : SessionMap Pool) (w : World)
      → IsRange range
      → Represents r m
      → RunsOn ops m w (run_all ops r w)
  run_all-MapRun [] r m w law h = (m, h, stays)
  run_all-MapRun (op ∷ rest) r m w law h =
      let after = run_op p registered range op r w in
      let (m', h', does) = run_op-Simulates p registered range op r m w law h in
      let (m'', h'', run) = run_all-MapRun rest after.0 m' after.1 law h' in
      (m'', h'', calls does run)

  -- Whatever is called on a new registry, in whatever order its loops run, it stands for a map of
  -- names to sessions, and each call did to that map and to the sessions what its answer says. A name
  -- that is free gets the session added or opened, and nothing where opening fails, with that error.
  -- A name that is taken, or missing where it is to be closed, is an error and changes nothing. A
  -- session that is closed leaves the map, and the error is that of closing it. Closing all leaves
  -- none, and the errors are those of closing each session once.
  pub new_registry-MapRun :
      (ops : List (Op p)) (w : World)
      → IsRange range
      → RunsOn ops no_sessions w (run_all ops (new_registry p) w)
  unfolding new_registry
  new_registry-MapRun ops w law =
      run_all-MapRun ops (new_registry p) no_sessions w law
        (record { distinct = tt; same = λ k. refl })

  -- A registry that stands for a map reads as that map: `Get` finds what it has under the name,
  -- `List` names what is in it, and `Count` is the number of the names.
  pub Represents-reads :
      (r : Registry Pool) (m : SessionMap Pool) (name : Bytes)
      → IsRange range
      → Represents r m
      → (get_session p name r ≡ found p name (m name))
        × (Memᴰ name (list_names p range r) ↔ (m name ≢ none))
        × (count p r ≡ length (list_names p range r))
  unfolding get_session list_names count
  Represents-reads r m name law h =
      let order = law r.sessions h.distinct in
      let same = order.same name ∙ h.same name in
      let listed = names_iff name (range r.sessions) in
      (
        ap (found p name) (h.same name),
        (λ mem k. listed.0 mem (same ∙ k), λ k. listed.1 (λ e. k (sym same ∙ e))),
        sym (length-IsRangeOf (range r.sessions) r.sessions h.distinct order)
            ∙ sym (length-map (λ entry. entry.0) (range r.sessions)),
      )

put-here : {A : Type 0} (name : Bytes) (s : A) (m : Entries A) → lookup name (put name s m) ≡ some s
put-here name s m = lookup-put name name s m ∙ rw (beq-same name) refl

module _ (p : Pools) where
  open p use {World, Pool}

  stored-session :
      (name : Bytes) (r : Registry Pool) (w : World) (o : Option (Session Pool))
      (got : World × Result (Session Pool)) {r' : Registry Pool} {w' : World} {s : Session Pool}
      → unless_taken p name r w o got ≡ (r', w', ok s)
      → (r' ≡ record { sessions = put name s r.sessions }) × (got ≡ (w', ok s))
  stored-session name r w (some s') got h = absurd (cc)
  stored-session name r w none (w'', err e) h = absurd (cc)
  stored-session name r w none (w'', ok s') h = (cc, cc)

  -- A session that `Registry.Open` returns is the one that `Get` then finds under the name. Its own
  -- name is the one the options leave, which start with the name of the call, or the DSN where that
  -- is empty; its configuration is the defaults with those options.
  pub open_named-OpenedAs :
      (name driver dsn : Bytes) (opts : List ConfigOption) (r : Registry Pool) (w : World)
      {r' : Registry Pool} {w' : World} {s : Session Pool}
      → open_named p (drivers p) name driver dsn opts r w ≡ (r', w', ok s)
      → (get_session p name r' ≡ ok s)
        × OpenedAs p dsn (configured default_config (with_name name ∷ opts)) s
  unfolding open_named get_session
  open_named-OpenedAs name driver dsn opts r w {r'} {w'} {s} h =
      let got = open_session p (drivers p) driver dsn (with_name name ∷ opts) w in
      let (e, o) = stored-session name r w (lookup name r.sessions) got h in
      (
        ap (λ x. found p name (lookup name x.sessions)) e
            ∙ ap (found p name) (put-here name s r.sessions),
        open_session-OpenedAs p driver dsn (with_name name ∷ opts) w o,
      )

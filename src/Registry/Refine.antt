-- ===== src/Registry/Refine.antt =====
-- The registry as a partial function from names to sessions: what each operation does to it.
use sql_cli.Registry.Map.{IsRange, close_each-closings, close_each-empty, closings}
use sql_cli.Base.{
  Bool-cases, Bytes, Distinct, Entries, List, Option, ap, beq, beq_iff, if◌then◌else◌, inl, inr,
  lookup, lookup-put, lookup-remove, none, put, put-Distinct, refl, remove, remove-Distinct, some,
  sym, ◌∙◌, ◌∷◌, ◌≡◌, ◌≢◌, ◌⊎◌,
}
use sql_cli.Config.{ConfigOption, with_name}
use sql_cli.Db.Types.{Error, Result, err, ok}
use sql_cli.Db.Open.{DriverFactory, Pools, Session, close_session, open_session}
use sql_cli.Registry.{
  Registry, add_session, added, already_exists, close_all, close_named, closed_named, not_found,
  open_named, unless_taken,
}

-- The calls that change a registry.
pub data Op (p : Pools) : Type 0 where
  open_op : Bytes → Bytes → Bytes → List ConfigOption → Op p
  add_op : Bytes → Session p.Pool → Op p
  close_op : Bytes → Op p
  close_all_op : Op p

-- What they return.
pub data Answer (Pool : Type 0) : Type 0 where
  opened_as : Result (Session Pool) → Answer Pool
  finished : Option Error → Answer Pool
  closed_all : List Error → Answer Pool

abbrev pub SessionMap : Type 0 → Type 0
SessionMap Pool = Bytes → Option (Session Pool)

abbrev pub no_sessions : {Pool : Type 0} → SessionMap Pool
no_sessions k = none

abbrev pub with_session : {Pool : Type 0} → Bytes → Session Pool → SessionMap Pool → SessionMap Pool
with_session name s m k = if beq k name then some s else m k

abbrev pub without_session : {Pool : Type 0} → Bytes → SessionMap Pool → SessionMap Pool
without_session name m k = if beq k name then none else m k

-- A registry stands for a map: no name is in it twice.
pub record Represents {Pool : Type 0} (r : Registry Pool) (m : SessionMap Pool) : Type 0 where
  pub distinct : Distinct r.sessions
  pub same : (k : Bytes) → lookup k r.sessions ≡ m k

module _ (p : Pools) (registered : Entries (DriverFactory p))
    (range : Entries (Session p.Pool) → Entries (Session p.Pool)) where
  open p use {World, Pool}

  abbrev pub run_op : Op p → Registry Pool → World → Registry Pool × World × Answer Pool
  run_op (open_op name driver dsn opts) r w =
      let (r', w', res) = open_named p registered name driver dsn opts r w in
      (r', w', opened_as res)
  run_op (add_op name s) r w = let (r', e) = add_session p name s r in (r', w, finished e)
  run_op (close_op name) r w = let (r', w', e) = close_named p name r w in (r', w', finished e)
  run_op close_all_op r w = let (r', w', errs) = close_all p range r w in (r', w', closed_all errs)

  -- `Close`, by what the map has under the name.
  abbrev pub Closes : Bytes → Option (Session Pool) → World → World → Option Error → Type 0
  Closes name none w w' e = (w' ≡ w) × (e ≡ some (not_found name))
  Closes name (some s) w w' e = close_session p s w ≡ (w', e)

  -- What a call does to the map and to the world, by what it returned: a session comes in only where
  -- its name was free, a refused call says so and changes nothing, `Close` returns the error of the
  -- session's own, and `CloseAll` closes each session of the map once and returns their errors.
  abbrev pub Does : Op p → SessionMap Pool → World → Answer Pool → SessionMap Pool → World → Type 0
  Does (open_op name driver dsn opts) m w (opened_as (ok s)) m' w' =
      (m name ≡ none)
      × (m' ≡ with_session name s m)
      × (open_session p registered driver dsn (with_name name ∷ opts) w ≡ (w', ok s))
  Does (open_op name driver dsn opts) m w (opened_as (err e)) m' w' =
      (m' ≡ m)
      × (((m name ≢ none) × (w' ≡ w) × (e ≡ already_exists name))
          ⊎ ((m name ≡ none)
              × (open_session p registered driver dsn (with_name name ∷ opts) w ≡ (w', err e))))
  Does (add_op name s) m w (finished none) m' w' =
      (m name ≡ none) × (m' ≡ with_session name s m) × (w' ≡ w)
  Does (add_op name s) m w (finished (some e)) m' w' =
      (m name ≢ none) × (m' ≡ m) × (w' ≡ w) × (e ≡ already_exists name)
  Does (close_op name) m w (finished e) m' w' =
      (m' ≡ without_session name m) × Closes name (m name) w w' e
  Does close_all_op m w (closed_all errs) m' w' =
      (m' ≡ no_sessions)
      × ((order : Entries (Session Pool)) × Distinct order
          × ((k : Bytes) → lookup k order ≡ m k)
          × (closings p order w ≡ (w', errs)))
  Does _ m w a m' w' = ⊥

  put-Represents :
      (name : Bytes) (s : Session Pool) (r : Registry Pool) (m : SessionMap Pool)
      → Represents r m
      → Represents (record { sessions = put name s r.sessions }) (with_session name s m)
  put-Represents name s r m h = record {
    distinct = put-Distinct name s r.sessions h.distinct;
    same =
        λ k. lookup-put k name s r.sessions ∙ ap (λ o. if beq k name then some s else o) (h.same k);
  }

  remove-Represents :
      (name : Bytes) (r : Registry Pool) (m : SessionMap Pool)
      → Represents r m
      → Represents (record { sessions = remove name r.sessions }) (without_session name m)
  remove-Represents name r m h = record {
    distinct = remove-Distinct name r.sessions h.distinct;
    same = λ k.
        lookup-remove k name r.sessions h.distinct
        ∙ ap (λ o. if beq k name then none else o) (h.same k);
  }

  -- What a call on a registry does to the map it stands for.
  abbrev pub Simulates : Op p → Registry Pool → SessionMap Pool → World → Type 0
  Simulates op r m w =
      let (r', w', a) = run_op op r w in
      (m' : SessionMap Pool) × Represents r' m' × Does op m w a m' w'

  without_none :
      (name : Bytes) (r : Registry Pool) (m : SessionMap Pool)
      → Represents r m
      → m name ≡ none
      → Represents r (without_session name m)
  without_none name r m h e = record {
    distinct = h.distinct;
    same = λ k. elim (Bool-cases (beq k name)) [
      | inl t ↦ h.same k ∙ ap m ((beq_iff k name).0 t) ∙ e ∙ sym (rw t refl)
      | inr t ↦ h.same k ∙ sym (rw t refl)
    ];
  }

  open_named-Does :
      (name driver dsn : Bytes) (opts : List ConfigOption) (r : Registry Pool) (m : SessionMap Pool)
      (w : World) (o : Option (Session Pool)) (got : World × Result (Session Pool))
      → Represents r m
      → lookup name r.sessions ≡ o
      → open_session p registered driver dsn (with_name name ∷ opts) w ≡ got
      → (let (r', w', res) = unless_taken p name r w o got in
          (m' : SessionMap Pool) × Represents r' m'
          × Does (open_op name driver dsn opts) m w (opened_as res) m' w')
  open_named-Does name driver dsn opts r m w (some s) got h e g =
      (m, h, (refl, inl (λ k. absurd (cc (h.same name)), refl, refl)))
  open_named-Does name driver dsn opts r m w none (w', ok s) h e g =
      (with_session name s m, put-Represents name s r m h, (sym (h.same name) ∙ e, refl, g))
  open_named-Does name driver dsn opts r m w none (w', err x) h e g =
      (m, h, (refl, inr (sym (h.same name) ∙ e, g)))

  add_session-Does :
      (name : Bytes) (s : Session Pool) (r : Registry Pool) (m : SessionMap Pool) (w : World)
      (o : Option (Session Pool))
      → Represents r m
      → lookup name r.sessions ≡ o
      → (let (r', e) = added p name s r o in
          (m' : SessionMap Pool) × Represents r' m' × Does (add_op name s) m w (finished e) m' w)
  add_session-Does name s r m w (some s') h e =
      (m, h, (λ k. absurd (cc (h.same name)), refl, refl, refl))
  add_session-Does name s r m w none h e =
      (with_session name s m, put-Represents name s r m h, (sym (h.same name) ∙ e, refl, refl))

  close_named-Does :
      (name : Bytes) (r : Registry Pool) (m : SessionMap Pool) (w : World)
      (o : Option (Session Pool))
      → Represents r m
      → lookup name r.sessions ≡ o
      → (let (r', w', e) = closed_named p name r w o in
          (m' : SessionMap Pool) × Represents r' m' × Does (close_op name) m w (finished e) m' w')
  close_named-Does name r m w none h e =
      let free = sym (h.same name) ∙ e in
      (without_session name m, without_none name r m h free, (refl, rw free (refl, refl)))
  close_named-Does name r m w (some s) h e =
      let there = sym (h.same name) ∙ e in
      (without_session name m, remove-Represents name r m h, (refl, rw there refl))

  close_all-Does :
      (r : Registry Pool) (m : SessionMap Pool) (w : World)
      → IsRange range
      → Represents r m
      → Simulates close_all_op r m w
  unfolding close_all
  close_all-Does r m w law h =
      let order = law r.sessions h.distinct in
      let empty = close_each-empty p (range r.sessions) r.sessions w h.distinct order in
      (
        no_sessions,
        record { distinct = rw empty tt; same = λ k. rw empty refl },
        (
          refl,
          (
            range r.sessions,
            order.once,
            λ k. order.same k ∙ h.same k,
            sym (close_each-closings p (range r.sessions) r.sessions w),
          ),
        ),
      )

  -- A registry that stands for a map of names to sessions stands for one after each call that
  -- changes it, and that map is the old one with what the call says it did.
  pub run_op-Simulates :
      (op : Op p) (r : Registry Pool) (m : SessionMap Pool) (w : World)
      → IsRange range
      → Represents r m
      → Simulates op r m w
  unfolding open_named add_session close_named
  run_op-Simulates (open_op name driver dsn opts) r m w law h =
      open_named-Does name driver dsn opts r m w (lookup name r.sessions)
        (open_session p registered driver dsn (with_name name ∷ opts) w) h refl refl
  run_op-Simulates (add_op name s) r m w law h =
      add_session-Does name s r m w (lookup name r.sessions) h refl
  run_op-Simulates (close_op name) r m w law h =
      close_named-Does name r m w (lookup name r.sessions) h refl
  run_op-Simulates close_all_op r m w law h = close_all-Does r m w law h

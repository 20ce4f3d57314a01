-- ===== src/Db/Exec/Safety.antt =====
-- Which statements `Exec` keeps away from the database.
use sql_cli.Base.{
  Bool, Bool-cases, Bytes, List, Option-cases, arith, beq_iff, codes, false, if◌then◌else◌, inl,
  inr, none, not, some, sym, true, ◌&&◌, ◌↔◌, ◌∙◌, ◌≡◌, ◌⊎◌,
}
use sql_cli.Config.{Config}
use sql_cli.Db.Driver.{Ctx, Driver, Timing, with_timeout}
use sql_cli.Db.Exec.{exec, exec_guards, exec_prefix, tx_exec}
use sql_cli.Sqlnorm.Keyword.{has_where}
use sql_cli.Db.Types.{Error, Value, err, guarded, unconditional_modify, wrap}
use sql_cli.Guard.{GuardError, Policy, check, verdict}
use sql_cli.Guard.Dangerous.{IsDangerous, check_iff}
use sql_cli.Sqlnorm.Keyword.Correct.{StandsIn, match_keyword_iff}
use sql_cli.Sqlnorm.Operation.{operation, requires_where}
use sql_cli.Sqlnorm.Quoted.{strip_quoted}
use sql_cli.Strings.{to_upper}

-- UPDATE or DELETE with no WHERE outside its literals.
abbrev pub IsUnconditional : Bytes → Type 0
IsUnconditional sql =
    ((operation sql ≡ codes "UPDATE") ⊎ (operation sql ≡ codes "DELETE"))
    × ¬ StandsIn (to_upper (strip_quoted sql)) (codes "WHERE")

-- What a configuration refuses, and with which error.
pub data Refuses (cfg : Config) (sql : Bytes) (e : Error) : Type 0 where
  dangerous :
      (g : GuardError)
      → IsDangerous sql
      → verdict cfg.dangerous_op_policy ≡ some g
      → e ≡ guarded g
      → Refuses cfg sql e
  unconditional :
      ((g : GuardError) → ¬ (IsDangerous sql × (verdict cfg.dangerous_op_policy ≡ some g)))
      → cfg.reject_no_where ≡ true
      → IsUnconditional sql
      → e ≡ unconditional_modify
      → Refuses cfg sql e

has_where_iff :
    (sql : Bytes) → (has_where sql ≡ true) ↔ StandsIn (to_upper (strip_quoted sql)) (codes "WHERE")
unfolding has_where
has_where_iff sql = match_keyword_iff (strip_quoted sql) (codes "WHERE") cc

requires_where_iff :
    (op : Bytes) → (requires_where op ≡ true) ↔ ((op ≡ codes "UPDATE") ⊎ (op ≡ codes "DELETE"))
unfolding requires_where
requires_where_iff op = ground (arith, beq_iff op (codes "UPDATE"), beq_iff op (codes "DELETE"))

guards_test :
    (cfg : Config) (sql : Bytes)
    → check cfg.dangerous_op_policy sql ≡ none
    → exec_guards cfg sql ≡ (
        if cfg.reject_no_where && requires_where (operation sql) && not (has_where sql)
        then some unconditional_modify
        else none)
unfolding exec_guards
guards_test cfg sql h = ground arith

test_parts :
    (r w f : Bool) {e : Error}
    → (if r && w && not f then some unconditional_modify else none) ≡ some e
    → (r ≡ true) × (w ≡ true) × (f ≡ false) × (e ≡ unconditional_modify)
test_parts r w f h = ground arith

guards_none :
    (cfg : Config) (sql : Bytes) {e : Error}
    → check cfg.dangerous_op_policy sql ≡ none
    → exec_guards cfg sql ≡ some e
    → (cfg.reject_no_where ≡ true) × IsUnconditional sql × (e ≡ unconditional_modify)
guards_none cfg sql {e} h found =
    let (r, w, f, same) = test_parts _ _ _ (sym (guards_test cfg sql h) ∙ found) in
    (r, ((requires_where_iff (operation sql)).0 w, λ s. cc ((has_where_iff sql).1 s, f)), same)

exec_guards-Refuses :
    (cfg : Config) (sql : Bytes) (e : Error) → exec_guards cfg sql ≡ some e → Refuses cfg sql e
exec_guards-Refuses cfg sql e h = elim (Option-cases (check cfg.dangerous_op_policy sql)) [
  | inl c ↦
      let (r, u, same) = guards_none cfg sql c h in
      unconditional (λ g d. cc ((check_iff cfg.dangerous_op_policy sql g).1 d, c)) r u same
  | inr (g, c) ↦
      let d = (check_iff cfg.dangerous_op_policy sql g).0 c in
      dangerous g d.0 d.1 (unfold exec_guards in ground arith)
]

has_where-not_stands :
    (sql : Bytes) → ¬ StandsIn (to_upper (strip_quoted sql)) (codes "WHERE") → has_where sql ≡ false
has_where-not_stands sql no_where = elim (Bool-cases (has_where sql)) [
  | inl e ↦ absurd (no_where ((has_where_iff sql).0 e))
  | inr e ↦ e
]

safe_check :
    (policy : Policy) (sql : Bytes)
    → ((g : GuardError) → ¬ (IsDangerous sql × (verdict policy ≡ some g)))
    → check policy sql ≡ none
safe_check policy sql safe = elim (Option-cases (check policy sql)) [
  | inl c ↦ c
  | inr (g, c) ↦ absurd (safe g ((check_iff policy sql g).0 c))
]

Refuses-exec_guards :
    (cfg : Config) (sql : Bytes) (e : Error) → Refuses cfg sql e → exec_guards cfg sql ≡ some e
Refuses-exec_guards cfg sql e (dangerous g d v same) =
    let c = (check_iff cfg.dangerous_op_policy sql g).1 (d, v) in unfold exec_guards in ground arith
Refuses-exec_guards cfg sql e (unconditional safe r u same) =
    let c = safe_check cfg.dangerous_op_policy sql safe in
    let w = (requires_where_iff (operation sql)).1 u.0 in
    let f = has_where-not_stands sql u.1 in guards_test cfg sql c ∙ rw (r, w, f, same)

-- The guards of `Exec` stop a statement with an error exactly where the configuration refuses it: as
-- dangerous under a policy that blocks or prompts, or else, where such statements are rejected, as
-- an UPDATE or DELETE that has no WHERE outside its literals.
pub exec_guards_iff :
    (cfg : Config) (sql : Bytes) (e : Error) → (exec_guards cfg sql ≡ some e) ↔ Refuses cfg sql e
exec_guards_iff cfg sql e = (exec_guards-Refuses cfg sql e, Refuses-exec_guards cfg sql e)

module _ (drv : Driver) where
  -- A statement that the configuration refuses does not reach the database, in a session or in a
  -- transaction: its state is the one before, and the result is the error.
  pub exec-refused :
      (cfg : Config) (tx : drv.Tx) (ctx : Ctx) (t : Timing) (sql : Bytes) (args : List Value)
      (db : drv.Db) {e : Error}
      → Refuses cfg sql e
      → (exec drv cfg ctx t sql args db ≡ (db, err (wrap (exec_prefix (operation sql)) e)))
        × (tx_exec drv cfg tx ctx t sql args db ≡ (db, err (wrap (exec_prefix (operation sql)) e)))
  unfolding exec tx_exec
  exec-refused cfg tx ctx t sql args db {e} h =
      let g = Refuses-exec_guards cfg sql e h in (ground arith, ground arith)

  pub exec-stopped :
      (cfg : Config) (ctx : Ctx) (t : Timing) (sql : Bytes) (args : List Value) (db : drv.Db)
      {e : Error}
      → Refuses cfg sql e
      → exec drv cfg ctx t sql args db ≡ (db, err (wrap (exec_prefix (operation sql)) e))
  unfolding exec
  exec-stopped cfg ctx t sql args db h = let g = Refuses-exec_guards cfg sql _ h in ground arith

  -- A statement that the configuration does not refuse is one call of the database, on the rebound
  -- text, and its state is the one that the call leaves.
  pub exec-allowed :
      (cfg : Config) (ctx : Ctx) (t : Timing) (sql : Bytes) (args : List Value) (db : drv.Db)
      → ((e : Error) → ¬ Refuses cfg sql e)
      → (exec drv cfg ctx t sql args db).0
        ≡ (drv.exec_context (with_timeout cfg t.now ctx) (drv.rebind sql) args db).0
  unfolding exec
  exec-allowed cfg ctx t sql args db h = elim (Option-cases (exec_guards cfg sql)) [
    | inl e ↦ ground arith
    | inr (g, e) ↦ absurd (h g (exec_guards-Refuses cfg sql g e))
  ]

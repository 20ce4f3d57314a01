-- ===== src/Cli/Confirm.antt =====
-- `execWithConfirmation` of cmd/cli/main.go. The flag and the line read from the terminal are
-- arguments; the policy is set in the configuration that the session shares.

use sql_cli.Db.Exec.Dangerous.{IsDangerous-allowed}
use sql_cli.Base.{
  Bool, Bool-cases, Bytes, [], ap, arith, beq, beq_iff, codes, if◌then◌else◌, inl, inr, not, refl,
  true, ◌++◌, ◌||◌, ◌↔◌, ◌∙◌, ◌≡◌, ◌⊎◌,
}
use sql_cli.Config.{Config}
use sql_cli.Db.Driver.{Ctx, Driver, Timing, with_timeout}
use sql_cli.Db.Exec.{exec}
use sql_cli.Db.Exec.Safety.{dangerous, exec-allowed, exec-stopped}
use sql_cli.Db.Types.{Error, ExecResult, Result, err, foreign, is_prompt, ok}
use sql_cli.Guard.{allow, dangerous_op_prompt, prompt, verdict}
use sql_cli.Guard.Dangerous.{IsDangerous}
use sql_cli.Strings.{to_lower, trim_space}

unfoldable pub confirms : Bytes → Bool
confirms line =
    let response = trim_space (to_lower line) in
    beq response (codes "y") || beq response (codes "yes")

abbrev pub allowing : Config → Config
allowing cfg = record cfg { dangerous_op_policy = allow }

abbrev pub cancelled : Bytes → Error
cancelled sql = foreign (codes "dangerous operation cancelled by user: " ++ sql)

abbrev pub with_config {ℓ} : {A B : Type ℓ} → Config → A × B → Config × A × B
with_config cfg (a, b) = (cfg, a, b)

-- The flag is set, or the line says y or yes.
abbrev pub IsConfirmed : Bool → Bytes → Type 0
IsConfirmed force line =
    (force ≡ true)
    ⊎ ((trim_space (to_lower line) ≡ codes "y") ⊎ (trim_space (to_lower line) ≡ codes "yes"))

confirms_iff :
    (force : Bool) (line : Bytes) → (force || confirms line ≡ true) ↔ IsConfirmed force line
unfolding confirms
confirms_iff force line =
    let y = beq_iff (trim_space (to_lower line)) (codes "y") in
    let yes = beq_iff (trim_space (to_lower line)) (codes "yes") in ground arith

module _ (drv : Driver) (force : Bool) (line : Bytes) (cfg : Config) (ctx : Ctx) (t : Timing)
    (sql : Bytes) where
  open drv use {Db}

  -- What follows the first `Exec`, by what it returned.
  unfoldable pub after_exec : Db × Result ExecResult → Config × Db × Result ExecResult
  after_exec (db, ok res) = (cfg, db, ok res)
  after_exec (db, err e) =
      if not (is_prompt e)
      then (cfg, db, err e)
      else if force || confirms line
      then with_config (allowing cfg) (exec drv (allowing cfg) ctx t sql [] db)
      else (cfg, db, err (cancelled sql))

  unfoldable pub exec_with_confirmation : Timing → Db → Config × Db × Result ExecResult
  exec_with_confirmation first db = after_exec (exec drv cfg ctx first sql [] db)

  after_prompt :
      (first : Timing) (db : Db)
      → cfg.dangerous_op_policy ≡ prompt
      → IsDangerous sql
      → exec_with_confirmation first db ≡ (
          if force || confirms line
          then with_config (allowing cfg) (exec drv (allowing cfg) ctx t sql [] db)
          else (cfg, db, err (cancelled sql)))
  unfolding exec_with_confirmation after_exec is_prompt
  after_prompt first db p d = ap after_exec (
      exec-stopped drv cfg ctx first sql [] db
        (dangerous dangerous_op_prompt d (ap verdict p) refl))

  -- Under the policy that prompts, a dangerous statement that is confirmed, by the flag or by a line
  -- that says y or yes in any case and between white space, is one call of the database, on the state
  -- before and the rebound text, and the policy allows such statements from then on. One that is not
  -- confirmed does not reach the database, changes no policy, and the error says so.
  pub exec_with_confirmation-dangerous :
      (first : Timing) (db : Db)
      → cfg.dangerous_op_policy ≡ prompt
      → IsDangerous sql
      → (IsConfirmed force line
          × ((exec_with_confirmation first db).0.dangerous_op_policy ≡ allow)
          × ((exec_with_confirmation first db).1
              ≡ (drv.exec_context
                  (with_timeout (allowing cfg) t.now ctx)
                  (drv.rebind sql)
                  []
                  db).0))
        ⊎ ((¬ IsConfirmed force line)
            × (exec_with_confirmation first db ≡ (cfg, db, err (cancelled sql))))
  exec_with_confirmation-dangerous first db p d =
      let course = after_prompt first db p d in
      let allowed = IsDangerous-allowed (allowing cfg) sql refl d in
      elim (Bool-cases (force || confirms line)) [
        | inl h ↦
            let same : exec_with_confirmation first db
                ≡ with_config (allowing cfg) (exec drv (allowing cfg) ctx t sql [] db) =
              course ∙ rw h refl in
            inl (
              (confirms_iff force line).0 h,
              ap (λ r. r.0.dangerous_op_policy) same,
              ap (λ r. r.1) same ∙ exec-allowed drv (allowing cfg) ctx t sql [] db allowed,
            )
        | inr h ↦
            let same : exec_with_confirmation first db ≡ (cfg, db, err (cancelled sql)) =
              course ∙ rw h refl in
            inr (λ c. cc ((confirms_iff force line).1 c, h), same)
      ]

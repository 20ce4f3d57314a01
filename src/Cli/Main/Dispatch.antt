-- ===== src/Cli/Main/Dispatch.antt =====
-- The course of `main` of cmd/cli/main.go up to the call of its command.
use sql_cli.Base.{
  Bool, Bool-cases, Bytes, List, Option, [], beq, codes, get_or, if◌then◌else◌, inl, inr, ltb_ℤ,
  not, pos, refl, subst, sym, ℤ, ◌||◌, ◌∙◌, ◌∷◌, ◌≡◌, ◌≢◌, ◌⊎◌,
}
use sql_cli.Cli.Main.{QcEnv, Target, choose_driver, load_dot_env, main_options, or_text, resolve}
use sql_cli.Cli.Main.Args.{TargetOf, resolve-TargetOf}
use sql_cli.Config.{
  ConfigOption, default_config, with_max_idle_conns, with_max_open_conns, with_query_timeout,
}
use sql_cli.Db.Open.{configured}
use sql_cli.Db.Types.{Error, Result, err, ok, ok_inj, wrapped, wrapped_ok}
use sql_cli.Dsn.{detect}
use sql_cli.Strings.{is_empty}

pub record Flags : Type 0 where
  pub limit : ℤ
  pub offset : ℤ
  pub timeout : ℤ
  pub version : Bool
  pub file_path : Bytes
  pub use_transaction : Bool
  pub continue_on_error : Bool
  pub force : Bool
  pub force_deprecated : Bool
  pub driver_flag : Bytes

-- The command on the session, with what it reads of the flags.
pub data Command : Type 0 where
  ping_session : Command
  run_lines : ℤ → ℤ → Bool → Command
  exec_path : Bytes → Bool → Bool → Bool → Command
  exec_text query_text stream_text : Bytes → Command
  unknown_command : Bytes → Command

-- What the program does: it prints and exits, or it opens a session.
pub data Task : Type 0 where
  print_version print_usage : Task
  stops : Error → Task
  opens_session : Bytes → Bytes → List ConfigOption → Command → Task

-- The switch over the command.
unfoldable pub choose_command : Flags → Bytes → Bytes → Command
choose_command f cmd sql =
    let confirmed = f.force || f.force_deprecated in
    if beq cmd (codes "ping")
    then ping_session
    else if beq cmd (codes "shell")
    then run_lines f.limit f.offset confirmed
    else if beq cmd (codes "exec")
    then (if is_empty f.file_path
        then exec_text sql
        else exec_path f.file_path confirmed f.use_transaction f.continue_on_error)
    else if beq cmd (codes "query")
    then query_text sql
    else if beq cmd (codes "stream")
    then stream_text sql
    else unknown_command cmd

abbrev pub with_driver : Flags → Bytes → Target → Result Bytes → Task
with_driver f cmd t (err e) = stops e
with_driver f cmd t (ok driver) =
    opens_session driver t.dsn (main_options f.timeout) (choose_command f cmd t.sql)

abbrev pub with_target : Flags → QcEnv → Bytes → Result Target → Task
with_target f file cmd (err e) = stops e
with_target f file cmd (ok t) = with_driver f cmd t (choose_driver f.driver_flag file t.dsn)

abbrev pub with_args : Flags → QcEnv → Bytes → List Bytes → Task
with_args f file env [] = print_usage
with_args f file env (cmd ∷ rest) = with_target f file cmd (resolve file env (cmd ∷ rest))

-- `main`, on the flags, the file, the variable QC_DSN and the arguments.
unfoldable pub main_task : Flags → Option Bytes → Bytes → List Bytes → Task
main_task f file env args =
    if f.version then print_version else with_args f (load_dot_env file) env args

-- The driver comes from the flag or the file, and from the DSN where these are empty.
abbrev pub DriverOf : Bytes → Bytes → Bytes → Type 0
DriverOf given dsn driver =
    ((given ≢ []) × (driver ≡ given)) ⊎ ((given ≡ []) × (detect dsn ≡ ok driver))

-- What a session that the program opens comes from.
pub record OpenedFor (f : Flags) (file : QcEnv) (env : Bytes) (args : List Bytes)
    (driver dsn : Bytes) (options : List ConfigOption) (command : Command) : Type 0 where
  pub target : Target
  pub same_dsn : target.dsn ≡ dsn
  pub chosen :
      TargetOf
        (or_text env file.dsn)
        (get_or args 0 [])
        (get_or args 1 [])
        (get_or args 2 [])
        (ok target)
  pub by_driver : DriverOf (or_text f.driver_flag file.driver) dsn driver
  pub one_connection : (configured default_config options).max_open_conns ≡ pos 1
  pub runs : command ≡ choose_command f (get_or args 0 []) target.sql

given-DriverOf :
    (given dsn : Bytes) {driver : Bytes}
    → (if not (is_empty given) then ok given else wrapped (codes "detect driver") (detect dsn))
      ≡ ok driver
    → DriverOf given dsn driver
given-DriverOf [] dsn h = inr (refl, wrapped_ok (codes "detect driver") (detect dsn) h)
given-DriverOf (c ∷ given) dsn h = inl (λ k. cc, sym (ok_inj h))

options-one_connection :
    (timeout : ℤ) → (configured default_config (main_options timeout)).max_open_conns ≡ pos 1
unfolding main_options with_max_open_conns with_max_idle_conns with_query_timeout
options-one_connection timeout = elim (Bool-cases (ltb_ℤ (pos 0) timeout)) [
  | inl h ↦ rw h refl
  | inr h ↦ rw h refl
]

driver-OpenedFor :
    (f : Flags) (file : QcEnv) (env : Bytes) (args : List Bytes) (t : Target) (r : Result Bytes)
    {driver dsn : Bytes} {options : List ConfigOption} {command : Command}
    → TargetOf
        (or_text env file.dsn)
        (get_or args 0 [])
        (get_or args 1 [])
        (get_or args 2 [])
        (ok t)
    → choose_driver f.driver_flag file t.dsn ≡ r
    → with_driver f (get_or args 0 []) t r ≡ opens_session driver dsn options command
    → OpenedFor f file env args driver dsn options command
unfolding choose_driver
driver-OpenedFor f file env args t (err e) of c h = absurd (cc)
driver-OpenedFor f file env args t (ok d) {driver} {dsn} {options} {command} of c h =
    let same_driver : d ≡ driver = cc in
    let same_dsn : t.dsn ≡ dsn = cc in
    let same_options : main_options f.timeout ≡ options = cc in
    let given = or_text f.driver_flag file.driver in
    record {
      target = t;
      same_dsn = same_dsn;
      chosen = of;
      by_driver =
          subst (λ x. DriverOf given x driver) same_dsn
            (subst (DriverOf given t.dsn) same_driver (given-DriverOf given t.dsn c));
      one_connection =
          subst (λ o. (configured default_config o).max_open_conns ≡ pos 1) same_options
            (options-one_connection f.timeout);
      runs = cc;
    }

target-OpenedFor :
    (f : Flags) (file : QcEnv) (env : Bytes) (args : List Bytes) (r : Result Target)
    {driver dsn : Bytes} {options : List ConfigOption} {command : Command}
    → TargetOf (or_text env file.dsn) (get_or args 0 []) (get_or args 1 []) (get_or args 2 []) r
    → with_target f file (get_or args 0 []) r ≡ opens_session driver dsn options command
    → OpenedFor f file env args driver dsn options command
target-OpenedFor f file env args (err e) of h = absurd (cc)
target-OpenedFor f file env args (ok t) of h =
    driver-OpenedFor f file env args t (choose_driver f.driver_flag file t.dsn) of refl h

args-OpenedFor :
    (f : Flags) (file : QcEnv) (env : Bytes) (args : List Bytes) {driver dsn : Bytes}
    {options : List ConfigOption} {command : Command}
    → with_args f file env args ≡ opens_session driver dsn options command
    → OpenedFor f file env args driver dsn options command
args-OpenedFor f file env [] h = absurd (cc)
args-OpenedFor f file env (cmd ∷ rest) h =
    target-OpenedFor f file env (cmd ∷ rest) (resolve file env (cmd ∷ rest))
      (resolve-TargetOf file env (cmd ∷ rest)) h

-- A session that the program opens has one connection and a DSN that is not empty. An argument
-- behind the command that `looksLikeDSN` knows is the DSN, whatever the environment says, and the
-- argument behind it the statement. Any other argument is the statement, sent to the environment's
-- DSN, where the command takes one and the environment has a DSN; else it is the DSN, and there is
-- no statement, even where an argument follows. With no argument, or an empty one, the DSN is the
-- environment's. The environment is the variable QC_DSN before the file. The driver is that of the
-- flag, or else of the file, or else the one that the DSN tells.
pub main_task-OpenedFor :
    (f : Flags) (file : Option Bytes) (env : Bytes) (args : List Bytes) {driver dsn : Bytes}
    {options : List ConfigOption} {command : Command}
    → main_task f file env args ≡ opens_session driver dsn options command
    → OpenedFor f (load_dot_env file) env args driver dsn options command
unfolding main_task
main_task-OpenedFor f file env args h = elim (Bool-cases f.version) [
  | inl v ↦ absurd (cc)
  | inr v ↦ args-OpenedFor f (load_dot_env file) env args (sym (rw v refl) ∙ h)
]

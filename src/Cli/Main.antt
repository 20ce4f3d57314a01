-- ===== src/Cli/Main.antt =====
-- `main` of cmd/cli/main.go, `loadDotEnv` and `looksLikeDSN`. The flags, the environment and the file
-- are arguments; where the program prints a message and exits, a Result has the message.
pub mod Cut
pub mod Env
pub mod Args
pub mod Commands
pub mod Dispatch
use sql_cli.Cli.Batch.{Clock, StmtResult, batch_exec}
use sql_cli.Cli.Confirm.{allowing}
use sql_cli.Sqlnorm.Split.{split_statements}
use sql_cli.Base.{
  Bool, Bytes, List, Option, [], beq, codes, drop, get_or, if◌then◌else◌, ltb_ℤ, none, not, pos,
  some, take, ℕ, ℤ, ◌&&◌, ◌++◌, ◌+◌, ◌/◌, ◌==◌, ◌||◌, ◌∷◌,
}
use sql_cli.Config.{
  Config, ConfigOption, with_max_idle_conns, with_max_open_conns, with_query_timeout,
}
use sql_cli.Db.Driver.{Ctx, Driver, Timing}
use sql_cli.Db.Query.{query, query_with_limit, query_with_offset}
use sql_cli.Db.Types.{Error, Outcome, QueryResult, Result, err, foreign, ok, wrapped, ◌>>=◌}
use sql_cli.Dsn.{detect}
use sql_cli.Strings.{contains, has_prefix, index, is_empty, trim_space}

pub record QcEnv : Type 0 where
  pub dsn : Bytes
  pub driver : Bytes

abbrev pub no_env : QcEnv
no_env = record { dsn = []; driver = [] }

-- One byte in front of the first of some texts.
abbrev pub push_first : ℕ → List Bytes → List Bytes
push_first c [] = (c ∷ []) ∷ []
push_first c (l ∷ ls) = (c ∷ l) ∷ ls

-- `strings.Split(s, "\n")`.
unfoldable pub split_lines : Bytes → List Bytes
split_lines [] = [] ∷ []
split_lines (c ∷ s) =
    let rest = split_lines s in if c == b'\n' then [] ∷ rest else push_first c rest

abbrev pub cut_at : Bytes → Option ℕ → Option (Bytes × Bytes)
cut_at line none = none
cut_at line (some i) = some (take i line, drop (i + 1) line)

-- `strings.Cut(line, "=")`.
unfoldable pub cut : Bytes → Option (Bytes × Bytes)
cut line = cut_at line (index line (codes "="))

abbrev pub set_env : QcEnv → Option (Bytes × Bytes) → QcEnv
set_env env none = env
set_env env (some (key, val)) =
    if beq (trim_space key) (codes "QC_DSN")
    then record env { dsn = trim_space val }
    else if beq (trim_space key) (codes "QC_DRIVER")
    then record env { driver = trim_space val }
    else env

abbrev pub env_trimmed : QcEnv → Bytes → QcEnv
env_trimmed env line =
    if is_empty line || has_prefix line (codes "#") then env else set_env env (cut line)

-- One line of the file.
unfoldable pub env_line : QcEnv → Bytes → QcEnv
env_line env raw = env_trimmed env (trim_space raw)

abbrev pub env_lines : QcEnv → List Bytes → QcEnv
env_lines env [] = env
env_lines env (line ∷ rest) = env_lines (env_line env line) rest

-- `loadDotEnv`; `none` where the file cannot be read.
unfoldable pub load_dot_env : Option Bytes → QcEnv
load_dot_env none = no_env
load_dot_env (some content) = env_lines no_env (split_lines content)

unfoldable pub looks_like_dsn : Bytes → Bool
looks_like_dsn s =
    contains s (codes "@tcp(")
    || contains s (codes "@unix(")
    || has_prefix s (codes "postgres://")
    || has_prefix s (codes "postgresql://")
    || has_prefix s (codes "mysql://")
    || has_prefix s (codes "file:")
    || has_prefix s (codes "/")
    || beq s (codes ":memory:")

-- `first`, unless it is empty.
abbrev pub or_text : Bytes → Bytes → Bytes
or_text [] second = second
or_text (c ∷ first) second = c ∷ first

unfoldable pub needs_sql : Bytes → Bool
needs_sql cmd = beq cmd (codes "exec") || beq cmd (codes "query") || beq cmd (codes "stream")

pub record Target : Type 0 where
  pub dsn : Bytes
  pub sql : Bytes

abbrev pub dsn_required : Error
dsn_required = foreign (codes "DSN is required as argument, via QC_DSN env var, or .env file")

-- The switch over the arguments; a missing argument reads as the empty text.
unfoldable pub choose_target : Bytes → Bytes → Bytes → Bytes → Result Target
choose_target env_dsn cmd first second =
    if not (is_empty first) && looks_like_dsn first
    then ok (record { dsn = first; sql = second })
    else if is_empty first && not (is_empty env_dsn) && needs_sql cmd
    then ok (record { dsn = env_dsn; sql = [] })
    else if not (is_empty first) && not (is_empty env_dsn) && needs_sql cmd
    then ok (record { dsn = env_dsn; sql = first })
    else if not (is_empty first)
    then ok (record { dsn = first; sql = [] })
    else if not (is_empty env_dsn)
    then ok (record { dsn = env_dsn; sql = [] })
    else err dsn_required

abbrev pub with_dsn : Target → Result Target
with_dsn t = if is_empty t.dsn then err dsn_required else ok t

-- The arguments behind the command, the variable QC_DSN and the file.
unfoldable pub resolve : QcEnv → Bytes → List Bytes → Result Target
resolve file env args =
    choose_target (or_text env file.dsn) (get_or args 0 []) (get_or args 1 []) (get_or args 2 [])
    >>= with_dsn

-- The flag, the file, or what the DSN tells.
unfoldable pub choose_driver : Bytes → QcEnv → Bytes → Result Bytes
choose_driver flag file dsn =
    if not (is_empty (or_text flag file.driver))
    then ok (or_text flag file.driver)
    else wrapped (codes "detect driver") (detect dsn)

unfoldable pub main_options : ℤ → List ConfigOption
main_options timeout =
    with_max_open_conns (pos 1)
    ∷ with_max_idle_conns (pos 1)
    ∷ (if ltb_ℤ (pos 0) timeout then with_query_timeout timeout ∷ [] else [])

abbrev pub no_statements : Bytes → Error
no_statements file_path = foreign (codes "exec: no SQL statements found in " ++ file_path)

abbrev pub batch_answer :
    {A : Type 0}
    → Config
    → A × Option (List StmtResult)
    → Config × A × Result (Option (List StmtResult))
batch_answer cfg' (db, results) = (cfg', db, ok results)

module _ (drv : Driver) (cfg : Config) (ctx : Ctx) where
  open drv use {Db}

  -- The command `query`.
  unfoldable pub query_command : Timing → Bytes → ℤ → ℤ → Db → Db × Outcome QueryResult
  query_command t sql limit offset db =
      if ltb_ℤ (pos 0) offset
      then query_with_offset drv cfg ctx t sql limit offset [] db
      else if ltb_ℤ (pos 0) limit
      then query_with_limit drv cfg ctx t sql limit [] db
      else query drv cfg ctx t sql [] db

  abbrev pub exec_statements :
      Clock
      → Bool
      → Bool
      → Bool
      → Bytes
      → List Bytes
      → Db
      → Config × Db × Result (Option (List StmtResult))
  exec_statements clock confirmed use_transaction continue_on_error file_path [] db =
      (cfg, db, err (no_statements file_path))
  exec_statements clock confirmed use_transaction continue_on_error file_path (stmt ∷ rest) db =
      let cfg' = if confirmed then allowing cfg else cfg in
      batch_answer cfg'
        (batch_exec drv cfg' ctx clock continue_on_error use_transaction (stmt ∷ rest) db)

  -- The command `exec` with a file; `ok none` is a panic of the batch.
  unfoldable pub exec_file :
      Clock
      → Bool
      → Bool
      → Bool
      → Bytes
      → Bytes
      → Db
      → Config × Db × Result (Option (List StmtResult))
  exec_file clock confirmed use_transaction continue_on_error file_path content db =
      exec_statements clock confirmed use_transaction continue_on_error file_path
        (split_statements content) db

-- ===== src/Tests/Commands.antt =====
-- DSNs, the arguments of the command line and the file of the environment.

use sql_cli.Cli.Main.Dispatch.{
  Flags, OpenedFor, choose_command, main_task, main_task-OpenedFor, opens_session, query_text,
}
use sql_cli.Base.{Bytes, List, [], arith, codes, false, none, pos, refl, some, ◌∷◌, ◌≡◌}
use sql_cli.Cli.Main.{
  choose_driver, choose_target, load_dot_env, looks_like_dsn, main_options, no_env, resolve,
}
use sql_cli.Cli.Main.Env.{IsLast, join_lines, load_dot_env-IsLast}
use sql_cli.Db.Types.{ok}
use sql_cli.Dsn.{
  detect, detect_trimmed, driver_oracle, has_prefix_fold, looks_like_oracle, looks_like_sqlite_path,
  oracle_host,
}
use sql_cli.Dsn.Drivers.{Opens, detect-Opens}
use sql_cli.Dsn.Schemes.{detect-Scheme, mysql_scheme}
use sql_cli.Strings.{
  contains, has_prefix, has_suffix, index, is_space, lower_byte, to_lower, trim_left, trim_right,
  trim_space,
}
use sql_cli.Tests.Registries.{logging}

detect-Scheme_example : detect (codes "MySQL://u@h/d ") ≡ ok (codes "mysql")
unfolding to_lower lower_byte
detect-Scheme_example = detect-Scheme (codes "MySQL://") (codes "u@h/d ") mysql_scheme refl

abbrev oracle_dsn : Bytes
oracle_dsn = codes "u/p@h:1521/s"

oracle_dsn-detect : detect oracle_dsn ≡ ok driver_oracle
unfolding detect detect_trimmed trim_space trim_left trim_right is_space has_prefix_fold to_lower
    lower_byte contains index has_prefix looks_like_sqlite_path has_suffix looks_like_oracle
    oracle_host
oracle_dsn-detect = refl

detect-Opens_example : Opens logging driver_oracle
detect-Opens_example = detect-Opens logging oracle_dsn oracle_dsn-detect

-- A commented line and an empty one stand behind the line that counts.
abbrev env_file_rest : List Bytes
env_file_rest =
    codes "QC_DRIVER=mysql"
    ∷ codes " QC_DSN = b.db"
    ∷ codes "# QC_DSN=c.db"
    ∷ codes "QC_DSN_OLD=d.db"
    ∷ []
    ∷ []

load_dot_env-IsLast_example :
    let env = load_dot_env (some (join_lines (codes "QC_DSN=a.db") env_file_rest)) in
    IsLast (codes "QC_DSN") [] (codes "QC_DSN=a.db" ∷ env_file_rest) env.dsn
    × IsLast (codes "QC_DRIVER") [] (codes "QC_DSN=a.db" ∷ env_file_rest) env.driver
load_dot_env-IsLast_example =
    load_dot_env-IsLast (codes "QC_DSN=a.db") env_file_rest (ground arith) (ground arith)

abbrev select_one : Bytes
select_one = codes "select 1"

-- The statement behind a DSN that `looksLikeDSN` does not know is dropped.
data_db-target :
    resolve no_env [] (codes "query" ∷ codes "data.db" ∷ select_one ∷ [])
    ≡ ok (record { dsn = codes "data.db"; sql = [] })
unfolding resolve choose_target looks_like_dsn contains index has_prefix
data_db-target = refl

abbrev plain_flags : Flags
plain_flags = record {
  limit = pos 0;
  offset = pos 0;
  timeout = pos 0;
  version = false;
  file_path = [];
  use_transaction = false;
  continue_on_error = false;
  force = false;
  force_deprecated = false;
  driver_flag = [];
}

abbrev pg_dsn : Bytes
pg_dsn = codes "postgres://h/d"

abbrev pg_args : List Bytes
pg_args = codes "query" ∷ pg_dsn ∷ select_one ∷ []

plain_run :
    main_task plain_flags none [] pg_args
    ≡ opens_session (codes "postgres") pg_dsn (main_options (pos 0)) (query_text select_one)
unfolding main_task load_dot_env resolve choose_target looks_like_dsn contains index has_prefix
    choose_driver choose_command detect detect_trimmed trim_space trim_left trim_right is_space
    has_prefix_fold to_lower lower_byte
plain_run = refl

main_task-OpenedFor_example :
    OpenedFor plain_flags
      (load_dot_env none)
      []
      pg_args
      (codes "postgres")
      pg_dsn
      (main_options (pos 0))
      (query_text select_one)
main_task-OpenedFor_example = main_task-OpenedFor plain_flags none [] pg_args plain_run

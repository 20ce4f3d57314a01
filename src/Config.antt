-- ===== src/Config.antt =====
-- pkg/config/config.go. A duration is a number of nanoseconds. An option is a function on the
-- configuration.
use sql_cli.Base.{Bool, Bytes, [], false, pos, true, ℕ, ℤ, ◌*◌}
use sql_cli.Guard.{Policy, prompt}

pub record Config : Type 0 where
  pub name : Bytes
  pub reject_no_where : Bool
  pub max_open_conns : ℤ
  pub max_idle_conns : ℤ
  pub conn_max_lifetime : ℤ
  pub max_rows : ℤ
  pub default_limit : ℤ
  pub max_limit : ℤ
  pub query_timeout : ℤ
  pub stream_batch_size : ℤ
  pub dangerous_op_policy : Policy
  pub log_sanitize_params : Bool
  pub max_concurrent_queries : ℤ

abbrev pub ConfigOption : Type 0
ConfigOption = Config → Config

abbrev pub seconds : ℕ → ℤ
seconds n = pos (n * 1000000000)

unfoldable pub default_config : Config
default_config = record {
  name = [];
  reject_no_where = true;
  max_open_conns = pos 25;
  max_idle_conns = pos 5;
  conn_max_lifetime = seconds 300;
  max_rows = pos 1000;
  default_limit = pos 100;
  max_limit = pos 1000;
  query_timeout = seconds 30;
  stream_batch_size = pos 50;
  dangerous_op_policy = prompt;
  log_sanitize_params = false;
  max_concurrent_queries = pos 0;
}

unfoldable pub with_name : Bytes → ConfigOption
with_name name c = record c { name = name }

unfoldable pub with_reject_no_where : Bool → ConfigOption
with_reject_no_where reject c = record c { reject_no_where = reject }

unfoldable pub with_max_open_conns : ℤ → ConfigOption
with_max_open_conns n c = record c { max_open_conns = n }

unfoldable pub with_max_idle_conns : ℤ → ConfigOption
with_max_idle_conns n c = record c { max_idle_conns = n }

unfoldable pub with_conn_max_lifetime : ℤ → ConfigOption
with_conn_max_lifetime d c = record c { conn_max_lifetime = d }

unfoldable pub with_max_rows : ℤ → ConfigOption
with_max_rows n c = record c { max_rows = n }

unfoldable pub with_default_limit : ℤ → ConfigOption
with_default_limit n c = record c { default_limit = n }

unfoldable pub with_max_limit : ℤ → ConfigOption
with_max_limit n c = record c { max_limit = n }

unfoldable pub with_query_timeout : ℤ → ConfigOption
with_query_timeout d c = record c { query_timeout = d }

unfoldable pub with_stream_batch_size : ℤ → ConfigOption
with_stream_batch_size n c = record c { stream_batch_size = n }

unfoldable pub with_dangerous_op_policy : Policy → ConfigOption
with_dangerous_op_policy p c = record c { dangerous_op_policy = p }

unfoldable pub with_log_sanitize_params : Bool → ConfigOption
with_log_sanitize_params enabled c = record c { log_sanitize_params = enabled }

unfoldable pub with_max_concurrent_queries : ℤ → ConfigOption
with_max_concurrent_queries n c = record c { max_concurrent_queries = n }

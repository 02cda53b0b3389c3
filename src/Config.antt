-- ===== src/Config.antt =====
-- src/redis_config/config.c and the entries of modules in src/redis/module.c: the configuration of the server.
pub mod Modules
mod Tests
use latte_redis_server.Prelude.{
  ℕ, zero, suc, ◌+◌, ◌-◌, ◌*◌, ◌^◌, List, [], ◌∷◌, Bool, false, true, Option, none, some, map, ltb,
  if◌then◌else◌,
}
use latte_redis_server.Object.{codes}

-- `module_entry_t`
pub record ModuleEntry : Type 0 where
  pub path : List ℕ
  pub args : List (List ℕ)

-- `vector_t` of the library.
pub record VectorApi (X V : Type 0) : Type 0 where
  pub vector_new : V
  pub vector_size : V → ℕ
  pub vector_push : V → X → V
  pub vector_pop : V → V × X

pub data LogLevel : Type 0 where
  trace debug info warn error fatal : LogLevel

-- `server_config_t`; a text that is NULL is `none`.
pub record ServerConfig (V : Type 0) : Type 0 where
  pub bind : Option (List (List ℕ))
  pub logfile : Option (List ℕ)
  pub load_modules : Option V
  pub port : ℕ
  pub tcp_backlog : ℕ
  pub log_level : LogLevel
  pub max_clients : ℕ
  pub use_async_io : Bool
  pub event_loop_size : ℕ
  pub hz : ℕ
  pub db_num : ℕ
  pub slowlog_log_slower_than : ℕ
  pub slowlog_max_len : ℕ

-- The fields as `server_config_new` sets them first.
unfoldable pub initial_config : {V : Type 0} → ServerConfig V
initial_config = record {
  bind = none;
  logfile = none;
  load_modules = none;
  port = 6379;
  tcp_backlog = 512;
  log_level = info;
  max_clients = 10000;
  use_async_io = false;
  event_loop_size = 1024;
  hz = 10;
  db_num = 16;
  slowlog_log_slower_than = 10000;
  slowlog_max_len = 128;
}

-- `server_config_new`. `init` is `config_init_all_data` of the configuration library, which gives every
-- field the default of its rule and counts the rules; `none` is a count that is not 13.
unfoldable pub server_config_new :
    {V : Type 0} → (ServerConfig V → Option (ServerConfig V)) → Option (ServerConfig V)
server_config_new init = init initial_config

-- `config_rule_new_numeric_rule`: the least and the greatest value, and the default.
pub record NumericRule : Type 0 where
  pub name : List ℕ
  pub lower : ℕ
  pub upper : ℕ
  pub default_value : ℕ

abbrev numeric : List ℕ → ℕ → ℕ → NumericRule
numeric name upper value = record { name = name; lower = 0; upper = upper; default_value = value }

-- The numeric rules that `server_config_new` adds, in order.
unfoldable pub numeric_rules : List NumericRule
numeric_rules =
    numeric (codes "port") 65535 6379
    ∷ numeric (codes "tcp-backlog") 65535 512
    ∷ numeric (codes "max-clients") 65535 10000
    ∷ numeric (codes "use-async-io") 1 0
    ∷ numeric (codes "event-loop-size") 65535 1024
    ∷ numeric (codes "hz") 65535 10
    ∷ numeric (codes "db-num") 65535 16
    ∷ numeric (codes "slowlog-log-slower-than") (2 ^ 63 - 1) 10000
    ∷ numeric (codes "slowlog-max-len") (2 ^ 63 - 1) 128
    ∷ []

-- `vector_push(entry->args, sds_new(args[i]))` for each argument
unfoldable pub module_entry_new : (List ℕ → List ℕ) → List ℕ → List (List ℕ) → ModuleEntry
module_entry_new sds_new path args = record { path = path; args = map sds_new args }

module _ {X V : Type 0} (vectors : VectorApi X V) where
  -- `for (int i = 0; i < vector_size(new_modules); i++)
  -- vector_push(old_modules, vector_pop(new_modules))`, on fuel: `none` is fuel used up, which
  -- the source does not have.
  unfoldable pub move_modules : ℕ → ℕ → V → V → Option V
  move_modules zero i old new = none
  move_modules (suc fuel) i old new =
      let (new', m) = vectors.vector_pop new in
      let rest = move_modules fuel (i + 1) (vectors.vector_push old m) new' in
      if ltb i (vectors.vector_size new) then rest else some old

  -- The data of the rule after a new value; the result is always 1.
  unfoldable pub config_load_modules_add : Option V → V → Option V
  config_load_modules_add none new = some new
  config_load_modules_add (some old) new = move_modules (suc (vectors.vector_size new)) 0 old new

-- `argv[0]` is the path of a module, and its arguments follow.
unfoldable pub config_load_modules_load :
    {V : Type 0} → VectorApi ModuleEntry V → (List ℕ → List ℕ) → List ℕ → List (List ℕ) → V
unfolding module_entry_new
config_load_modules_load vectors sds_new path args =
    vectors.vector_push vectors.vector_new (module_entry_new sds_new (sds_new path) args)

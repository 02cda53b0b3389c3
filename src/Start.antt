-- ===== src/Start.antt =====
-- The start of the server in src/redis/server.c and its databases in src/redis/db.c, and what it does by the
-- clock and behind a command, in src/redis/crons.c and src/redis/client.c.
pub mod Databases
mod Tests
use latte_redis_server.Prelude.{
  ℕ, zero, suc, ◌+◌, ◌*◌, ◌^◌, ◌%◌, List, [], ◌∷◌, ◌++◌, Bool, true, false, Option, none, some, map,
  ltb, ◌==◌, get_elem?, drop, if◌then◌else◌,
}
use latte_redis_server.Prelude.Int.{ℤ, pos}
use latte_redis_server.Object.{Object}
use latte_redis_server.Dict.{DictApi}
use latte_redis_server.ListApi.{ListApi}
use latte_redis_server.KvStore.{KvStore, kv_store_create}
use latte_redis_server.Db.{Db}
use latte_redis_server.Slowlog.{
  SlowlogEntry, SlowlogManager, ObjectApi, Finished, manager_new, push_if_needed,
}
use latte_redis_server.CommandManager.{ManagerApi, CommandManager, command_manager_new}
use latte_redis_server.Module.{Module, ApiFunction, NameDict, Host, module_register_core_api}
use latte_redis_server.Module.Load.{Loader, init_redis_modules}
use latte_redis_server.Config.{ModuleEntry, ServerConfig, server_config_new}
use latte_redis_server.Path.{PathApi, Absolute, path, get_absolute_path}
use latte_redis_server.Metric.{MetricEntry, metric_track_instantaneous}

-- How the start ends: `goto fail`, a failed assertion or a panic, or with the server running.
pub data Outcome (X : Type 0) : Type 0 where
  failed crashed : Outcome X
  running : X → Outcome X

-- What the start is run with: the libraries, the current directory, the empty dictionary of commands
-- and tree of identifiers, the values of a vector, the defaults of the configuration, and its reading from
-- a file and from arguments, where `none` is 0.
pub record StartEnv (R C M A T E V L : Type 0) : Type 0 where
  pub paths : PathApi
  pub cwd : Option (List ℕ)
  pub manager : ManagerApi R C
  pub commands : C
  pub ids : R
  pub modules : NameDict Module M
  pub apis : NameDict ApiFunction A
  pub loader : Loader R C M A
  pub keys : DictApi (List ℕ) Object T
  pub expires : DictApi (List ℕ) ℤ E
  pub lists : ListApi L SlowlogEntry
  pub entries : V → List ModuleEntry
  pub config_init_all_data : ServerConfig V → Option (ServerConfig V)
  pub config_load_file : ServerConfig V → Absolute → Option (ServerConfig V)
  pub config_load_argv : ServerConfig V → List (List ℕ) → Option (ServerConfig V)

-- `redis_server_t` as the start leaves it; `metric` is the entry of the name "command".
pub record RedisServer (R C M A T E V L : Type 0) : Type 0 where
  pub host : Host R C M A
  pub executable : Absolute
  pub configfile : Option Absolute
  pub config : ServerConfig V
  pub proto_max_bulk_len : ℕ
  pub maxclients : ℕ
  pub tcp_backlog : ℕ
  pub port : ℕ
  pub hz : ℕ
  pub dbs : List (Db T E)
  pub unixtime : ℕ
  pub slowlog_manager : SlowlogManager L
  pub metric : Option MetricEntry
  pub metric_stat_numcommands : ℕ

-- `metric_new(16)`
abbrev pub metric_count : ℕ
metric_count = 16

module _ {T E : Type 0} (keys : DictApi (List ℕ) Object T) (expires : DictApi (List ℕ) ℤ E) where
  abbrev pub db_of : Option (KvStore T) → Option (KvStore E) → Option (Db T E)
  db_of none e = none
  db_of (some k) none = none
  db_of (some k) (some e) = some (record { keys = k; expires = e })

  abbrev pub db_before : Option (Db T E) → Option (List (Db T E)) → Option (List (Db T E))
  db_before none dbs = none
  db_before (some db) none = none
  db_before (some db) (some dbs) = some (db ∷ dbs)

  -- A database for each index; `none` is a failed assertion of `kv_store_create`.
  unfoldable pub init_redis_server_dbs : ℕ → Option (List (Db T E))
  init_redis_server_dbs zero = some []
  init_redis_server_dbs (suc db_num) =
      db_before (db_of (kv_store_create keys 0 true) (kv_store_create expires 0 true))
        (init_redis_server_dbs db_num)

module _ {R C M A T E V L : Type 0} (p : StartEnv R C M A T E V L) where
  abbrev Running : Type 0
  Running = RedisServer R C M A T E V L

  abbrev host_of : Option (CommandManager R C) → Option (Host R C M A)
  host_of none = none
  host_of (some cm) = some (record {
    command_manager = cm;
    modules = p.modules.dict_new;
    module_api = module_register_core_api p.apis;
  })

  -- What `init_redis_server` makes for modules; its numbers are set in `started`.
  unfoldable pub init_redis_server : Option (Host R C M A)
  init_redis_server = host_of (command_manager_new p.manager p.commands p.ids)

  abbrev is_dash : Option ℕ → Bool
  is_dash none = false
  is_dash (some b) = b == b'-'

  abbrev with_file :
      Option Absolute → Option (ServerConfig V) → Option (Option Absolute × ServerConfig V)
  with_file file none = none
  with_file file (some config) = some (file, config)

  abbrev then_argv :
      Absolute → List (List ℕ) → Option (ServerConfig V) → Option (Option Absolute × ServerConfig V)
  then_argv file args none = none
  then_argv file args (some config) = with_file (some file) (p.config_load_argv config args)

  -- The configuration: of a file, when the first argument is no option, and of the other arguments.
  unfoldable pub configure :
      ServerConfig V → List (List ℕ) → Option (Option Absolute × ServerConfig V)
  configure config [] = some (none, config)
  configure config (arg ∷ args) =
      let file = get_absolute_path p.paths p.cwd arg in
      if is_dash (get_elem? arg 0)
      then with_file none (p.config_load_argv config (arg ∷ args))
      else then_argv file args (p.config_load_file config file)

  -- `init_redis_modules`, where the configuration names modules
  unfoldable pub load_modules : Option V → Host R C M A → Option (Host R C M A)
  load_modules none host = some host
  load_modules (some v) host =
      init_redis_modules p.modules p.loader (map (λ e. e.path) (p.entries v)) host

  -- `now` is `ustime()`. The limits of the slow log are passed in the order of the source.
  unfoldable pub started :
      Absolute
      → ℕ
      → Option Absolute × ServerConfig V
      → Option (Host R C M A)
      → Option (List (Db T E))
      → Outcome Running
  started executable now configured none dbs = crashed
  started executable now configured (some host) none = crashed
  started executable now (configfile, config) (some host) (some dbs) = running (record {
    host = host;
    executable = executable;
    configfile = configfile;
    config = config;
    proto_max_bulk_len = 1024 * 1024;
    maxclients = config.max_clients;
    tcp_backlog = config.tcp_backlog;
    port = config.port;
    hz = config.hz;
    dbs = dbs;
    unixtime = now;
    slowlog_manager =
        manager_new p.lists (pos config.slowlog_log_slower_than) (pos config.slowlog_max_len);
    metric = none;
    metric_stat_numcommands = 0;
  })

  unfoldable pub configured_start :
      Absolute → ℕ → Host R C M A → Option (Option Absolute × ServerConfig V) → Outcome Running
  unfolding started
  configured_start executable now host none = failed
  configured_start executable now host (some (file, config)) =
      started executable now (file, config) (load_modules config.load_modules host)
        (init_redis_server_dbs p.keys p.expires config.db_num)

  unfoldable pub hosted_start :
      List ℕ → List (List ℕ) → ℕ → Option (Host R C M A) → Option (ServerConfig V) → Outcome Running
  unfolding configured_start
  hosted_start exec args now none config = crashed
  hosted_start exec args now (some host) none = crashed
  hosted_start exec args now (some host) (some config) =
      configured_start (get_absolute_path p.paths p.cwd exec) now host (configure config args)

  -- `exec` is `argv[0]`, and `args` what stands behind it.
  unfoldable pub start_redis_server : List ℕ → List (List ℕ) → ℕ → Outcome Running
  unfolding hosted_start
  start_redis_server exec args now =
      hosted_start exec args now init_redis_server (server_config_new p.config_init_all_data)

  unfoldable pub update_cache_time : ℕ → Running → Running
  update_cache_time now server = record server { unixtime = now }

  abbrev with_metric : Running → Option MetricEntry → Option Running
  with_metric server none = none
  with_metric server (some e) = some (record server { metric = some e })

  -- `none` is a signed overflow.
  unfoldable pub update_metric_cron : ℕ → Running → Option Running
  update_metric_cron now server = with_metric server (
      metric_track_instantaneous metric_count server.metric (pos server.metric_stat_numcommands)
        (pos now) (pos 1000000))

  -- `now` is the entry's time.
  unfoldable pub redis_client_command_end : ObjectApi → ℕ → Finished → Running → Running
  redis_client_command_end objects now client server = record server {
    slowlog_manager = push_if_needed p.lists objects now server.slowlog_manager client;
    metric_stat_numcommands = server.metric_stat_numcommands + 1;
  }

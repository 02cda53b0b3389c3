-- ===== src/Start/Tests.antt =====
-- A server started with no arguments.
use latte_redis_server.Prelude.{
  ℕ, ◌≡◌, refl, List, [], ◌∷◌, Option, some, none, length, get_elem?, arith,
}
use latte_redis_server.Prelude.Int.{ℤ, pos}
use latte_redis_server.Prelude.Bytes.{bytes_eq}
use latte_redis_server.Object.{codes, Object}
use latte_redis_server.ListApi.{plain}
use latte_redis_server.Slowlog.{SlowlogEntry}
use latte_redis_server.Db.{Db}
use latte_redis_server.Db.Tests.{Entries, keys_api, keys_laws, expires_api, expires_laws}
use latte_redis_server.CommandManager.{
  CommandManager, command_manager_new, populate_command_table_parse_flags,
  command_data_type_flag_by_name, flag_by_name, parse_flags, int_flag,
  command_manager_register_command, acl_get_command_id, command_manager_init,
}
use latte_redis_server.CommandManager.Tests.{Table, Tree, api, empty}
use latte_redis_server.Module.{Module, ApiFunction}
use latte_redis_server.Module.Tests.{names, files}
use latte_redis_server.Path.Tests.{path_api}
use latte_redis_server.Config.{ModuleEntry, ServerConfig, initial_config, server_config_new}
use latte_redis_server.Dict.Assoc.{find_in_list}
use latte_redis_server.Start.{StartEnv, RedisServer, running, start_redis_server}
use latte_redis_server.Start.Databases.{Empty, start_redis_server-defaults}

abbrev some_manager : Option (CommandManager Tree Table) → CommandManager Tree Table
some_manager none = empty
some_manager (some cm) = cm

abbrev made : CommandManager Tree Table
made = some_manager (command_manager_new api [] [])

made_lem : command_manager_new api [] [] ≡ some made
unfolding command_manager_new populate_command_table_parse_flags command_data_type_flag_by_name
    flag_by_name bytes_eq parse_flags int_flag command_manager_register_command acl_get_command_id
    find_in_list command_manager_init
made_lem = refl

abbrev Named : Type 0 → Type 0
Named X = List (List ℕ × X)

abbrev start_env :
    StartEnv Tree Table
      (Named Module)
      (Named ApiFunction)
      (Entries Object)
      (Entries ℤ)
      (List ModuleEntry)
      (List SlowlogEntry)
start_env = record {
  paths = path_api;
  cwd = some (codes "/");
  manager = api;
  commands = [];
  ids = [];
  modules = names;
  apis = names;
  loader = files;
  keys = keys_api;
  expires = expires_api;
  lists = plain;
  entries = λ v. v;
  config_init_all_data = λ c. some (record c { bind = some (codes "*" ∷ codes "-::*" ∷ []) });
  config_load_file = λ c file. some c;
  config_load_argv = λ c args. some c;
}

abbrev defaults : ServerConfig (List ModuleEntry)
defaults = record initial_config { bind = some (codes "*" ∷ codes "-::*" ∷ []) }

defaults_lem : server_config_new start_env.config_init_all_data ≡ some defaults
unfolding server_config_new
defaults_lem = refl

start_redis_server-defaults_example :
    (server : RedisServer Tree Table
      (Named Module)
      (Named ApiFunction)
      (Entries Object)
      (Entries ℤ)
      (List ModuleEntry)
      (List SlowlogEntry))
    × (db : Db (Entries Object) (Entries ℤ)) × (start_redis_server start_env (codes "./latte") [] 7
        ≡ running server)
    × (server.host.command_manager ≡ made)
    × (server.port ≡ 6379)
    × (length server.dbs ≡ 16)
    × (get_elem? server.dbs 15 ≡ some db)
    × Empty keys_api expires_api bytes_eq keys_laws expires_laws db
    × (server.slowlog_manager.max_len ≡ pos 10000)
    × (server.slowlog_manager.time_limit_us ≡ pos 128)
unfolding initial_config
start_redis_server-defaults_example =
    start_redis_server-defaults start_env bytes_eq keys_laws expires_laws (codes "./latte") 7 15
      made defaults made_lem defaults_lem refl (omega arith)

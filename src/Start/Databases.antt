-- ===== src/Start/Databases.antt =====
-- What a server has after its start.
use latte_redis_server.Prelude.{
  ℕ, zero, suc, ◌*◌, ◌<◌, ◌≡◌, refl, ap, List, [], ◌∷◌, none, some, Bool, length, get_elem?, arith,
}
use latte_redis_server.Prelude.Int.{ℤ, pos}
use latte_redis_server.Object.{Object}
use latte_redis_server.Dict.{DictApi, DictLaws}
use latte_redis_server.KvStore.{get_kv_store_index_for_key}
use latte_redis_server.KvStore.One.{one}
use latte_redis_server.KvStore.Single.{kv_store_create_lem, empty_store, find-empty_store}
use latte_redis_server.Db.{Db, find_key, find_expire}
use latte_redis_server.Db.Expire.{IsDb}
use latte_redis_server.CommandManager.{CommandManager, command_manager_new}
use latte_redis_server.Module.{module_register_core_api}
use latte_redis_server.Path.{get_absolute_path}
use latte_redis_server.Slowlog.{manager_new}
use latte_redis_server.Config.{ServerConfig, server_config_new}
use latte_redis_server.Start.{
  StartEnv, RedisServer, running, init_redis_server_dbs, init_redis_server, load_modules, configure,
  start_redis_server,
}

module _ {T E : Type 0} (keys : DictApi (List ℕ) Object T) (expires : DictApi (List ℕ) ℤ E)
    (eq : List ℕ → List ℕ → Bool) (key_laws : DictLaws keys eq)
    (expire_laws : DictLaws expires eq) where
  abbrev fresh_db : Db T E
  fresh_db = record {
    keys = one keys eq key_laws none 0 (pos 0) [];
    expires = one expires eq expire_laws none 0 (pos 0) [];
  }

  fresh_db-IsDb : IsDb keys expires eq key_laws expire_laws fresh_db
  fresh_db-IsDb = record {
    keys_lem = empty_store keys eq key_laws;
    expires_lem = empty_store expires eq expire_laws;
  }

  abbrev copies : ℕ → List (Db T E)
  copies zero = []
  copies (suc n) = fresh_db ∷ copies n

  init_redis_server_dbs-copies : (n : ℕ) → init_redis_server_dbs keys expires n ≡ some (copies n)
  unfolding init_redis_server_dbs
  init_redis_server_dbs-copies zero = refl
  init_redis_server_dbs-copies (suc n) =
      rw
        (
          kv_store_create_lem keys eq key_laws,
          kv_store_create_lem expires eq expire_laws,
          init_redis_server_dbs-copies n,
        )
        refl

  length-copies : (n : ℕ) → length (copies n) ≡ n
  length-copies zero = refl
  length-copies (suc n) = ap suc (length-copies n)

  get_elem?-copies : (n i : ℕ) → i < n → get_elem? (copies n) i ≡ some fresh_db
  get_elem?-copies zero i h = absurd (omega arith)
  get_elem?-copies (suc n) zero h = refl
  get_elem?-copies (suc n) (suc i) h = get_elem?-copies n i (omega arith)

  -- A database in which no key has a value or a time of expiry.
  pub record Empty (db : Db T E) : Type 0 where
    pub is_db : IsDb keys expires eq key_laws expire_laws db
    pub no_key : (key : List ℕ) → find_key keys expires db key ≡ none
    pub no_time : (key : List ℕ) → find_expire keys expires db key ≡ none

  fresh_db-Empty : Empty fresh_db
  unfolding get_kv_store_index_for_key
  fresh_db-Empty = record {
    is_db = fresh_db-IsDb;
    no_key = find-empty_store keys eq key_laws;
    no_time = find-empty_store expires eq expire_laws;
  }

module _ {R C M A T E V L : Type 0} (p : StartEnv R C M A T E V L) (eq : List ℕ → List ℕ → Bool)
    (key_laws : DictLaws p.keys eq) (expire_laws : DictLaws p.expires eq) where
  -- The server of a configuration.
  abbrev default_server :
      List ℕ → ℕ → CommandManager R C → ServerConfig V → List (Db T E) → RedisServer R C M A T E V L
  default_server exec now cm config dbs = record {
    host = record {
      command_manager = cm;
      modules = p.modules.dict_new;
      module_api = module_register_core_api p.apis;
    };
    executable = get_absolute_path p.paths p.cwd exec;
    configfile = none;
    config = config;
    proto_max_bulk_len = 1024 * 1024;
    maxclients = config.max_clients;
    tcp_backlog = config.tcp_backlog;
    port = config.port;
    hz = config.hz;
    dbs = dbs;
    unixtime = now;
    slowlog_manager =
        manager_new p.lists (pos config.slowlog_log_slower_than) (pos config.slowlog_max_len);
    metric = none;
    metric_stat_numcommands = 0;
  }

  -- Where the command table can be made, and the configuration names no modules by default, a server
  -- that is started with no arguments runs on the default port, with as many databases as the
  -- configuration says; each of them is well-formed, and no key has a value or a time of expiry. Its
  -- slow log takes the time above which commands count as slow for its length, and the length for
  -- that time, since they are passed in the other order.
  pub start_redis_server-defaults :
      (exec : List ℕ) (now i : ℕ) (cm : CommandManager R C) (config : ServerConfig V)
      → command_manager_new p.manager p.commands p.ids ≡ some cm
      → server_config_new p.config_init_all_data ≡ some config
      → config.load_modules ≡ none
      → i < config.db_num
      → (server : RedisServer R C M A T E V L) × (db : Db T E) × (start_redis_server p exec [] now
          ≡ running server)
        × (server.host.command_manager ≡ cm)
        × (server.port ≡ config.port)
        × (length server.dbs ≡ config.db_num)
        × (get_elem? server.dbs i ≡ some db)
        × Empty p.keys p.expires eq key_laws expire_laws db
        × (server.slowlog_manager.max_len ≡ pos config.slowlog_log_slower_than)
        × (server.slowlog_manager.time_limit_us ≡ pos config.slowlog_max_len)
  unfolding start_redis_server init_redis_server load_modules configure manager_new
  start_redis_server-defaults exec now i cm config e f none_named h =
      let dbs = copies p.keys p.expires eq key_laws expire_laws config.db_num in
      (
        default_server exec now cm config dbs,
        fresh_db p.keys p.expires eq key_laws expire_laws,
        rw
            (
              e,
              f,
              none_named,
              init_redis_server_dbs-copies p.keys p.expires eq key_laws expire_laws config.db_num,
            )
            refl,
        refl,
        refl,
        length-copies p.keys p.expires eq key_laws expire_laws config.db_num,
        get_elem?-copies p.keys p.expires eq key_laws expire_laws config.db_num i h,
        fresh_db-Empty p.keys p.expires eq key_laws expire_laws,
        refl,
        refl,
      )

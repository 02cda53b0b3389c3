-- ===== src/Server.antt =====
-- The server behind the connections: the fields of `redis_server_t` (src/redis/server.h) that commands read
-- and change, and the functions that the command table's entries point to, as `call` of
-- src/redis/client.c runs them. A failed assertion stops the process: `stopped` is set, and nothing
-- runs from then on.
pub mod Wire
pub mod Dispatch
pub mod Plain
pub mod Strings
mod Tests
use latte_redis_server.Prelude.{
  ℕ, List, [], ◌∷◌, ◌++◌, Bool, true, false, Option, none, some, length, get_elem?, set, drop,
  if◌then◌else◌, ◌+◌,
}
use latte_redis_server.Prelude.Int.{ℤ, pos}
use latte_redis_server.Object.{codes, Object}
use latte_redis_server.Command.{
  ModuleFunc, set_function, get_function, hello_test_function, foreign_function, Proc, Command,
  quit_command, module_command, ping_command, info_command, expire_command, module_dispatcher,
}
use latte_redis_server.Client.{Client}
use latte_redis_server.Reply.{add_reply_proto}
use latte_redis_server.Reply.Deferred.{BlockApi}
use latte_redis_server.Dict.{DictApi}
use latte_redis_server.Db.{Db, Clocks}
use latte_redis_server.Commands
use latte_redis_server.Commands.{
  CommandEnv, Session, set_command, get_command, reply_with_simple_string,
}
use latte_redis_server.CommandManager.{ManagerApi, command_manager_lookup}
use latte_redis_server.Module.{Module, NameDict, Host}
use latte_redis_server.Module.Load
use latte_redis_server.Module.Load.{Loader}
use latte_redis_server.Client.Multibulk.{ProtoApi}
use latte_redis_server.Client.Inline.{InlineApi}
use latte_redis_server.Client.Process.{Env}

-- `now` is what `mstime()` returns to the next command that runs, and `later n` to the one that comes `n + 1`
-- after it. The calls within one command are taken to return the same.
pub record Server (R C M A T E : Type 0) : Type 0 where
  pub host : Host R C M A
  pub dbs : List (Db T E)
  pub clocks : Clocks
  pub now : ℕ
  pub later : ℕ → ℕ
  pub stopped : Bool

-- What the functions are run with: the libraries, and the functions of other modules, which may fail an
-- assertion.
pub record ServerEnv (R C M A T E : Type 0) : Type 0 where
  pub commands : CommandEnv
  pub manager : ManagerApi R C
  pub keys : DictApi (List ℕ) Object T
  pub expires : DictApi (List ℕ) ℤ E
  pub modules : NameDict Module M
  pub loader : Loader R C M A
  pub blocks : BlockApi
  pub foreign : ℕ → Session T E → List Object → Option (Session T E)
  pub proto : ProtoApi
  pub inline_api : InlineApi

-- The clock at the next command.
unfoldable pub tick : {R C M A T E : Type 0} → Server R C M A T E → Server R C M A T E
tick server = record server { now = server.later 0; later = λ n. server.later (n + 1) }

-- `add_reply_proto(c, "Not implemented", 16)`: the text and the zero byte at its end
unfoldable pub run_info : Client → Client
unfolding add_reply_proto
run_info c = add_reply_proto c (codes "Not implemented" ++ (0 ∷ []))

module _ {R C M A T E : Type 0} (p : ServerEnv R C M A T E) where
  -- The result of a module's function is not looked at.
  abbrev pub session_of : Option (Session T E × ℤ) → Option (Session T E)
  session_of none = none
  session_of (some (s, z)) = some s

  unfoldable pub hello_test_redis_command : Session T E → Session T E
  hello_test_redis_command s = record s {
    client = reply_with_simple_string p.commands s.client (codes "OK");
  }

  -- `redis_module_command_dispatcher`: the proxy's function on the client's arguments
  unfoldable pub redis_module_command_dispatcher :
      ModuleFunc → Clocks → ℕ → Session T E → List Object → Option (Session T E)
  unfolding hello_test_redis_command
  redis_module_command_dispatcher set_function clocks now s argv =
      session_of (set_command p.commands p.keys p.expires clocks now s argv)
  redis_module_command_dispatcher get_function clocks now s argv =
      session_of (get_command p.commands p.keys p.expires now s argv)
  redis_module_command_dispatcher hello_test_function clocks now s argv =
      some (hello_test_redis_command s)
  redis_module_command_dispatcher (foreign_function n) clocks now s argv = p.foreign n s argv

  -- What `call` has after the function: the server, the client, and whether the server goes on.
  abbrev pub Ran : Type 0
  Ran = Server R C M A T E × Client × Bool

  unfoldable pub stop : Server R C M A T E → Client → Ran
  stop server c = (record server { stopped = true }, c, false)

  unfoldable pub after_session : Server R C M A T E → Client → Option (Session T E) → Ran
  unfolding stop
  after_session server c none = stop server c
  after_session server c (some s) =
      (record server { dbs = set server.dbs c.dbid s.db }, s.client, true)

  -- A command on `server->dbs + c->dbid`. Behind the last database nothing is known.
  unfoldable pub on_db :
      (Session T E → Option (Session T E)) → Server R C M A T E → Client → Option (Db T E) → Ran
  unfolding after_session
  on_db run server c none = stop server c
  on_db run server c (some db) = after_session server c (run (record { client = c; db = db }))

  unfoldable pub after_module : Server R C M A T E → Client → Option (Host R C M A × Client) → Ran
  after_module server c none = stop server c
  after_module server c (some (host, c')) = (record server { host = host }, c', true)

  unfoldable pub run_proc : Proc → List ℕ → Server R C M A T E → Client → Ran
  unfolding on_db run_info after_module
  run_proc quit_command name server c = (server, Commands.quit_command p.commands c, true)
  run_proc ping_command name server c =
      (server, Commands.ping_command p.commands name c (drop 1 c.argv), true)
  run_proc info_command name server c = (server, run_info c, true)
  run_proc module_command name server c = after_module server c (
      Load.module_command p.modules p.loader p.commands.reply p.manager.same_text p.blocks
        server.host c c.argv)
  run_proc expire_command name server c =
      on_db (λ s. Commands.expire_command p.commands p.keys p.expires name server.now s c.argv)
        server c (get_elem? server.dbs c.dbid)
  run_proc (module_dispatcher func) name server c =
      on_db (λ s. redis_module_command_dispatcher func server.clocks server.now s c.argv) server c
        (get_elem? server.dbs c.dbid)

  unfoldable pub run : Command → Server R C M A T E → Client → Ran
  unfolding run_proc tick
  run cmd server c =
      let ran = run_proc cmd.proc cmd.name server c in
      if server.stopped then (server, c, false) else (tick ran.0, ran.1, ran.2)

  -- The input loop of this server.
  abbrev pub server_env : Env (Server R C M A T E)
  server_env = record {
    lookup = λ server name. command_manager_lookup p.manager server.host.command_manager name;
    run = run;
    proto = p.proto;
    inline_api = p.inline_api;
  }

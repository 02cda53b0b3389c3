-- ===== src/Module/Latte.antt =====
-- Loading the module of the string commands, src/modules/latte.c and src/modules/string.c.
use latte_redis_server.Prelude.{◌≡◌, refl, List, true, false, none, some, ℕ}
use latte_redis_server.Prelude.Bytes.{bytes_eq}
use latte_redis_server.Object.{codes}
use latte_redis_server.Command.{ModuleFunc, set_function, get_function}
use latte_redis_server.CommandManager.{ManagerApi, CommandManager, create_command}
use latte_redis_server.CommandManager.Flags.{Created}
use latte_redis_server.Module.{
  ApiFunction, Module, NameDict, Host, Ctx, module_register_core_api, get_api, is_module_name_busy,
  call_is_busy, init_unless, redis_module_init, call_create_command, module_create_command,
  init_string_module, api_name, use_create_command, use_is_module_name_busy, use_set_module_attribs,
  set_module_attribs,
}
use latte_redis_server.Module.Link.{NameLaws, get_api-core}

module _ {R C M A : Type 0} (p : ManagerApi R C) (mods : NameDict Module M)
    (apis : NameDict ApiFunction A) (laws : NameLaws apis) where
  -- The server has registered its functions.
  abbrev pub HasApi : Host R C M A → Type 0
  HasApi server = server.module_api ≡ module_register_core_api apis

  pointer_busy :
      (api : A)
      → api ≡ module_register_core_api apis
      → get_api apis api (api_name (codes "is_module_name_busy")) ≡ some use_is_module_name_busy
  unfolding bytes_eq
  pointer_busy api h = rw h (get_api-core apis laws (api_name (codes "is_module_name_busy")))

  pointer_attribs :
      (api : A)
      → api ≡ module_register_core_api apis
      → get_api apis api (api_name (codes "set_module_attribs")) ≡ some use_set_module_attribs
  unfolding bytes_eq
  pointer_attribs api h = rw h (get_api-core apis laws (api_name (codes "set_module_attribs")))

  pointer_create :
      (api : A)
      → api ≡ module_register_core_api apis
      → get_api apis api (api_name (codes "create_command")) ≡ some use_create_command
  unfolding bytes_eq
  pointer_create api h = rw h (get_api-core apis laws (api_name (codes "create_command")))

  -- A module whose name is taken is refused.
  pub redis_module_init-busy :
      (ctx : Ctx R C M A) (name : List ℕ) (ver apiver : ℕ) (m : Module)
      → HasApi ctx.server
      → mods.dict_find ctx.server.modules (p.sds_new name) ≡ some m
      → redis_module_init p mods apis ctx name ver apiver ≡ some (ctx, false)
  unfolding redis_module_init call_is_busy init_unless is_module_name_busy
  redis_module_init-busy ctx name ver apiver m h e =
      rw (pointer_busy ctx.server.module_api h, e) refl

  pub redis_module_init-fresh :
      (server : Host R C M A) (name : List ℕ) (ver apiver : ℕ)
      → HasApi server
      → mods.dict_find server.modules (p.sds_new name) ≡ none
      → redis_module_init p mods apis (record { server = server; loaded = none }) name ver apiver
        ≡ some (
          record {
            server = server;
            loaded = some (record { name = p.sds_new name; ver = ver; apiver = apiver });
          },
          true,
        )
  unfolding redis_module_init call_is_busy init_unless is_module_name_busy set_module_attribs
  redis_module_init-fresh server name ver apiver h e =
      rw (pointer_busy server.module_api h, pointer_attribs server.module_api h, e) refl

  module_create_command-linked :
      (ctx : Ctx R C M A) (name : List ℕ) (func : ModuleFunc) (strflags : List ℕ)
      → HasApi ctx.server
      → let made = create_command p ctx.server.command_manager name func (some strflags) in
        module_create_command p mods apis ctx name func strflags
        ≡ some (record ctx { server = record ctx.server { command_manager = made.0 } }, made.1)
  unfolding module_create_command call_create_command
  module_create_command-linked ctx name func strflags h =
      rw (pointer_create ctx.server.module_api h) refl

  abbrev pub with_manager : Ctx R C M A → CommandManager R C → Ctx R C M A
  with_manager ctx cm = record ctx { server = record ctx.server { command_manager = cm } }

  -- The commands of the string module, when both names are free.
  pub record StringCommands (cm : CommandManager R C) : Type 0 where
    pub set_made : Created p cm (codes "set") set_function 5 (codes "write deny-oom")
    pub get_made : Created p set_made.after (codes "get") get_function 2 (codes "readonly")

  pub init_string_module-fresh :
      (ctx : Ctx R C M A) (made : StringCommands ctx.server.command_manager)
      → HasApi ctx.server
      → init_string_module p mods apis ctx ≡ some (with_manager ctx made.get_made.after, true)
  unfolding init_string_module
  init_string_module-fresh ctx made h =
      let c = with_manager ctx made.set_made.after in
      rw
        (
          module_create_command-linked ctx (codes "set") set_function (codes "write deny-oom") h,
          made.set_made.done,
          module_create_command-linked c (codes "get") get_function (codes "readonly") h,
          made.get_made.done,
        )
        refl

  -- The name `get` is taken: the load fails, with `set` registered.
  pub init_string_module-taken :
      (ctx : Ctx R C M A)
      (set_made : Created p ctx.server.command_manager
        (codes "set")
        set_function
        5
        (codes "write deny-oom"))
      → HasApi ctx.server
      → create_command p set_made.after (codes "get") get_function (some (codes "readonly"))
        ≡ (set_made.after, false)
      → init_string_module p mods apis ctx ≡ some (with_manager ctx set_made.after, false)
  unfolding init_string_module
  init_string_module-taken ctx set_made h taken =
      let c = with_manager ctx set_made.after in
      rw
        (
          module_create_command-linked ctx (codes "set") set_function (codes "write deny-oom") h,
          set_made.done,
          module_create_command-linked c (codes "get") get_function (codes "readonly") h,
          taken,
        )
        refl

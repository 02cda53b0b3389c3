-- ===== src/Module/Onload.antt =====
-- Loading src/modules/latte.c as far as its entry point, and a second time.
use latte_redis_server.Prelude.{◌≡◌, refl, List, true, false, none, some, ℕ, ◌∙◌}
use latte_redis_server.Object.{codes, Object}
use latte_redis_server.Command.{set_function, get_function}
use latte_redis_server.CommandManager.{ManagerApi, create_command}
use latte_redis_server.CommandManager.Flags.{Created}
use latte_redis_server.Module.{ApiFunction, Module, NameDict, Host, latte_onload}
use latte_redis_server.Module.Link.{NameLaws}
use latte_redis_server.Module.Load.{Loader, not_executable, opened, after_onload, module_load}
use latte_redis_server.Module.Latte.{
  StringCommands, HasApi, init_string_module-fresh, init_string_module-taken,
  redis_module_init-busy, redis_module_init-fresh,
}

module _ {R C M A : Type 0} (p : ManagerApi R C) (mods : NameDict Module M)
    (apis : NameDict ApiFunction A) (laws : NameLaws apis) where
  -- The file at a path is the module of src/modules/latte.c, and may be executed.
  pub record LatteAt (load : Loader R C M A) (path : List ℕ) : Type 0 where
    pub mode : not_executable (load.stat path) ≡ false
    pub handle : load.dlopen path ≡ some (some (λ ctx argv. latte_onload p mods apis ctx))

  module _ (load : Loader R C M A) (path : List ℕ) (at_path : LatteAt load path) where
    pub module_load-latte :
        (server : Host R C M A) (argv : List Object)
        → module_load mods load server path argv
          ≡ after_onload mods load
              (latte_onload p mods apis (record { server = server; loaded = none }))
    unfolding module_load opened
    module_load-latte server argv = rw (at_path.mode, at_path.handle) refl

    -- A server that has a module named `latte` refuses to load it again: the load fails, and changes
    -- nothing, neither the commands nor the modules.
    pub module_load-again :
        (server : Host R C M A) (argv : List Object) (m : Module)
        → HasApi p mods apis laws server
        → mods.dict_find server.modules (p.sds_new (codes "latte")) ≡ some m
        → module_load mods load server path argv ≡ some (server, false)
    unfolding latte_onload after_onload
    module_load-again server argv m h e =
        module_load-latte server argv
        ∙ rw
            (redis_module_init-busy p mods apis laws (record { server = server; loaded = none })
              (codes "latte") 1 1 m h e)
            refl

    pub loaded_onload :
        (server : Host R C M A) (made : StringCommands p mods apis laws server.command_manager)
        → HasApi p mods apis laws server
        → mods.dict_find server.modules (p.sds_new (codes "latte")) ≡ none
        → latte_onload p mods apis (record { server = server; loaded = none })
          ≡ some (
            record {
              server = record server { command_manager = made.get_made.after };
              loaded = some (record { name = p.sds_new (codes "latte"); ver = 1; apiver = 1 });
            },
            true,
          )
    unfolding latte_onload
    loaded_onload server made h e =
        rw (redis_module_init-fresh p mods apis laws server (codes "latte") 1 1 h e) (
          init_string_module-fresh p mods apis laws
            (record {
              server = server;
              loaded = some (record { name = p.sds_new (codes "latte"); ver = 1; apiver = 1 });
            })
            made h)

    pub failed_onload :
        (server : Host R C M A)
        (made : Created p server.command_manager
          (codes "set")
          set_function
          5
          (codes "write deny-oom"))
        → HasApi p mods apis laws server
        → mods.dict_find server.modules (p.sds_new (codes "latte")) ≡ none
        → create_command p made.after (codes "get") get_function (some (codes "readonly"))
          ≡ (made.after, false)
        → latte_onload p mods apis (record { server = server; loaded = none })
          ≡ some (
            record {
              server = record server { command_manager = made.after };
              loaded = some (record { name = p.sds_new (codes "latte"); ver = 1; apiver = 1 });
            },
            false,
          )
    unfolding latte_onload
    failed_onload server made h e taken =
        rw (redis_module_init-fresh p mods apis laws server (codes "latte") 1 1 h e) (
          init_string_module-taken p mods apis laws
            (record {
              server = server;
              loaded = some (record { name = p.sds_new (codes "latte"); ver = 1; apiver = 1 });
            })
            made h taken)

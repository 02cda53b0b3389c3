-- ===== src/Module/Reload.antt =====
-- Loading src/modules/latte.c into a server, where its names are free and where one is taken.
use latte_redis_server.Prelude.{Bool, ◌≡◌, refl, ap, List, true, false, none, some, ℕ, ◌∙◌}
use latte_redis_server.Object.{codes, Object}
use latte_redis_server.Command.{Command, module_dispatcher, set_function, get_function}
use latte_redis_server.CommandManager.{
  ManagerApi, CommandManager, command_manager_lookup, command_flags_from_string,
}
use latte_redis_server.CommandManager.Others.{
  TableFrame, create_command-other, create_command-taken,
}
use latte_redis_server.CommandManager.Flags.{TableLaws, Created, create_command_lem}
use latte_redis_server.Module.{ApiFunction, Module, NameDict, Host}
use latte_redis_server.Module.Link.{NameLaws, AddLaw}
use latte_redis_server.Module.Load.{Loader, after_onload, add_module, module_load}
use latte_redis_server.Module.Latte.{StringCommands, HasApi}
use latte_redis_server.Module.Onload.{
  LatteAt, module_load-latte, module_load-again, loaded_onload, failed_onload,
}

-- What is relied on of the names: `sds_new` copies them.
pub record LiteralCopies {R C : Type 0} (p : ManagerApi R C) : Type 0 where
  pub latte : p.sds_new (codes "latte") ≡ codes "latte"
  pub set : p.sds_new (codes "set") ≡ codes "set"
  pub get : p.sds_new (codes "get") ≡ codes "get"

-- The table tells the names of the two commands apart.
pub record Distinct (same : List ℕ → List ℕ → Bool) : Type 0 where
  pub set_get : same (codes "set") (codes "get") ≡ false
  pub get_set : same (codes "get") (codes "set") ≡ false

module _ {R C M A : Type 0} (p : ManagerApi R C) (mods : NameDict Module M)
    (apis : NameDict ApiFunction A) (laws : NameLaws apis) where
  -- What a server has after the load.
  pub record Loaded (after : Host R C M A) : Type 0 where
    pub set_cmd : Command
    pub set_found : command_manager_lookup p after.command_manager (codes "set") ≡ some set_cmd
    pub set_proc : set_cmd.proc ≡ module_dispatcher set_function
    pub get_cmd : Command
    pub get_found : command_manager_lookup p after.command_manager (codes "get") ≡ some get_cmd
    pub get_proc : get_cmd.proc ≡ module_dispatcher get_function
    pub registered :
        mods.dict_find after.modules (codes "latte")
        ≡ some (record { name = codes "latte"; ver = 1; apiver = 1 })
    pub has_api : HasApi p mods apis laws after

  module _ (load : Loader R C M A) (path : List ℕ)
      (at_path : LatteAt p mods apis laws load path) where
    module _ (table : TableLaws p) (same : List ℕ → List ℕ → Bool) (frame : TableFrame p same)
        (distinct : Distinct same) (copies : LiteralCopies p) (mlaws : AddLaw mods) where
      set_only :
          (cm : CommandManager R C)
          → command_flags_from_string p (codes "write deny-oom") ≡ some 5
          → command_manager_lookup p cm (codes "set") ≡ none
          → Created p cm (codes "set") set_function 5 (codes "write deny-oom")
      set_only cm fs ns =
          create_command_lem p table cm (codes "set") (codes "write deny-oom") set_function 5
            (ap p.sds_new copies.set) fs (rw copies.set ns)

      -- Adding `set` does not touch `get`, and conversely.
      get-after-set :
          (cm : CommandManager R C)
          (made : Created p cm (codes "set") set_function 5 (codes "write deny-oom"))
          → command_manager_lookup p made.after (codes "get")
            ≡ command_manager_lookup p cm (codes "get")
      get-after-set cm made = rw made.done at (
          create_command-other p same frame cm (codes "set") (codes "get") set_function
            (codes "write deny-oom") (ap p.sds_new copies.set) (rw copies.set distinct.set_get))

      set-after-get :
          (cm : CommandManager R C)
          (made : Created p cm (codes "get") get_function 2 (codes "readonly"))
          → command_manager_lookup p made.after (codes "set")
            ≡ command_manager_lookup p cm (codes "set")
      set-after-get cm made = rw made.done at (
          create_command-other p same frame cm (codes "get") (codes "set") get_function
            (codes "readonly") (ap p.sds_new copies.get) (rw copies.get distinct.get_set))

      string_commands :
          (cm : CommandManager R C)
          → command_flags_from_string p (codes "write deny-oom") ≡ some 5
          → command_flags_from_string p (codes "readonly") ≡ some 2
          → command_manager_lookup p cm (codes "set") ≡ none
          → command_manager_lookup p cm (codes "get") ≡ none
          → StringCommands p mods apis laws cm
      string_commands cm fs fg ns ng =
          let made = set_only cm fs ns in
          record {
            set_made = made;
            get_made =
                create_command_lem p table made.after (codes "get") (codes "readonly") get_function
                  2 (ap p.sds_new copies.get) fg (rw copies.get (get-after-set cm made ∙ ng));
          }

      -- What the server has when both commands have been made.
      host-Loaded :
          (server : Host R C M A) (made : StringCommands p mods apis laws server.command_manager)
          (modules : M)
          → HasApi p mods apis laws server
          → mods.dict_find modules (codes "latte")
            ≡ some (record { name = codes "latte"; ver = 1; apiver = 1 })
          → Loaded (record server { command_manager = made.get_made.after; modules = modules })
      host-Loaded server made modules h e = record {
        set_cmd = made.set_made.command;
        set_found =
            set-after-get made.set_made.after made.get_made
            ∙ (rw copies.set at made.set_made.found);
        set_proc = made.set_made.proc_lem;
        get_cmd = made.get_made.command;
        get_found = rw copies.get at made.get_made.found;
        get_proc = made.get_made.proc_lem;
        registered = e;
        has_api = h;
      }

      -- Where the file at the path is the module of src/modules/latte.c and may be executed, the server has
      -- registered its functions for modules, the table knows the words of both flag strings, and no module
      -- is named `latte` and no command `set` or `get`, loading the module succeeds; the server then has
      -- the module, finds both commands with the module's functions, and refuses to load it again,
      -- which changes nothing.
      pub module_load-Loaded :
          (server : Host R C M A) (argv again : List Object)
          → HasApi p mods apis laws server
          → mods.dict_find server.modules (codes "latte") ≡ none
          → command_flags_from_string p (codes "write deny-oom") ≡ some 5
          → command_flags_from_string p (codes "readonly") ≡ some 2
          → command_manager_lookup p server.command_manager (codes "set") ≡ none
          → command_manager_lookup p server.command_manager (codes "get") ≡ none
          → (after : Host R C M A) × (module_load mods load server path argv ≡ some (after, true))
            × Loaded after
            × (module_load mods load after path again ≡ some (after, false))
      unfolding after_onload add_module
      module_load-Loaded server argv again h e fs fg ns ng =
          let made = string_commands server.command_manager fs fg ns ng in
          let m : Module = record { name = codes "latte"; ver = 1; apiver = 1 } in
          let (modules, added) = mlaws.add-missing server.modules (codes "latte") m e in
          let after = record server { command_manager = made.get_made.after; modules = modules } in
          (
            after,
            module_load-latte p mods apis laws load path at_path server argv
                ∙ rw
                    (
                      loaded_onload p mods apis laws load path at_path server made h
                          (rw copies.latte e),
                      copies.latte,
                      added.0,
                    )
                    refl,
            host-Loaded server made modules h added.1,
            module_load-again p mods apis laws load path at_path after again m h
                (rw copies.latte added.1),
          )

      -- Where the file at the path is the module of src/modules/latte.c and may be executed, the server has
      -- registered its functions for modules, the table knows the words of the flag string of `set`, no
      -- module is named `latte`, and the name `get` is taken and `set` is not, the load fails, but the
      -- command `set` stays in the table, with a function of the module.
      pub module_load-partial :
          (server : Host R C M A) (argv : List Object) (old : Command)
          → HasApi p mods apis laws server
          → mods.dict_find server.modules (codes "latte") ≡ none
          → command_flags_from_string p (codes "write deny-oom") ≡ some 5
          → command_manager_lookup p server.command_manager (codes "set") ≡ none
          → command_manager_lookup p server.command_manager (codes "get") ≡ some old
          → (after : Host R C M A) × (module_load mods load server path argv ≡ some (after, false))
            × ((cmd : Command) × (command_manager_lookup p after.command_manager (codes "set")
                  ≡ some cmd)
                × (cmd.proc ≡ module_dispatcher set_function))
      unfolding after_onload
      module_load-partial server argv old h e fs ns ng =
          let made = set_only server.command_manager fs ns in
          let taken =
            create_command-taken p made.after (codes "get") (codes "readonly") get_function old
              (rw copies.get (get-after-set server.command_manager made ∙ ng)) in
          (
            record server { command_manager = made.after },
            module_load-latte p mods apis laws load path at_path server argv
                ∙ rw
                    (failed_onload p mods apis laws load path at_path server made h
                      (rw copies.latte e) taken)
                    refl,
            (made.command, rw copies.set at made.found, made.proc_lem),
          )

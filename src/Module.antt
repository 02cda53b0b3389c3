-- ===== src/Module.antt =====
-- src/redis/module.c and src/redis/redis_module.h: the functions that modules may call, and the loading
-- of a module. The modules are src/modules/latte.c with src/modules/string.c, and
-- src/module_demo/hello.c. `none` is a call through a NULL pointer, or a pointer that is NULL read.
pub mod Load
pub mod Link
pub mod Latte
pub mod Onload
pub mod Reload
pub mod Tests
use latte_redis_server.Prelude.{
  ℕ, List, [], ◌∷◌, ◌++◌, Bool, true, false, Option, none, some, map, if◌then◌else◌,
}
use latte_redis_server.Object.{codes, Object}
use latte_redis_server.Command.{ModuleFunc, set_function, get_function, hello_test_function}
use latte_redis_server.CommandManager.{ManagerApi, CommandManager, create_command}

-- The functions `redis_module_use_…` of src/redis/module.c that are registered for modules.
pub data ApiFunction : Type 0 where
  use_malloc use_calloc use_realloc use_free use_create_command use_is_module_name_busy use_get_api
        use_set_module_attribs use_reply_with_simple_string use_lookup_key use_object_incr_count
        use_object_decr_count use_db_add use_db_entry_get_value use_db_entry_set_value
        use_object_is_string use_reply_with_wrong_type_error use_reply_with_null
        use_reply_with_object :
      ApiFunction

-- `redis_module_t`, as far as `set_module_attribs` sets it; its lists are created empty, and no
-- code reads them.
pub record Module : Type 0 where
  pub name : List ℕ
  pub ver : ℕ
  pub apiver : ℕ

-- A dictionary with texts for keys, of the library: `dict_new`, the value at the entry that
-- `dict_find` returns, and `dict_add`, `none` when the key is there.
pub record NameDict (V T : Type 0) : Type 0 where
  pub dict_new : T
  pub dict_find : T → List ℕ → Option V
  pub dict_add : T → List ℕ → V → Option T

-- What the loading of a module reads and changes of `redis_server_t`.
pub record Host (R C M A : Type 0) : Type 0 where
  pub command_manager : CommandManager R C
  pub modules : M
  pub module_api : A

-- `redis_module_ctx_t` while a module is loaded; `loaded` is its field `module`,
-- and its client is NULL.
pub record Ctx (R C M A : Type 0) : Type 0 where
  pub server : Host R C M A
  pub loaded : Option Module

-- The names that `REGISTER_API` writes, in order.
abbrev pub core_api : List (List ℕ × ApiFunction)
core_api =
    (codes "malloc", use_malloc)
    ∷ (codes "calloc", use_calloc)
    ∷ (codes "realloc", use_realloc)
    ∷ (codes "free", use_free)
    ∷ (codes "create_command", use_create_command)
    ∷ (codes "is_module_name_busy", use_is_module_name_busy)
    ∷ (codes "get_api", use_get_api)
    ∷ (codes "set_module_attribs", use_set_module_attribs)
    ∷ (codes "reply_with_simple_string", use_reply_with_simple_string)
    ∷ (codes "lookup_key", use_lookup_key)
    ∷ (codes "object_incr_count", use_object_incr_count)
    ∷ (codes "object_decr_count", use_object_decr_count)
    ∷ (codes "db_add", use_db_add)
    ∷ (codes "db_entry_get_value", use_db_entry_get_value)
    ∷ (codes "db_entry_set_value", use_db_entry_set_value)
    ∷ (codes "object_is_string", use_object_is_string)
    ∷ (codes "reply_with_wrong_type_error", use_reply_with_wrong_type_error)
    ∷ (codes "reply_with_null", use_reply_with_null)
    ∷ (codes "reply_with_object", use_reply_with_object)
    ∷ []

-- The names that `redis_module_init` asks for, in order.
abbrev pub wanted_api : List (List ℕ)
wanted_api =
    codes "create_command"
    ∷ codes "is_module_name_busy"
    ∷ codes "get_api"
    ∷ codes "set_module_attribs"
    ∷ codes "reply_with_simple_string"
    ∷ codes "lookup_key"
    ∷ codes "db_add"
    ∷ codes "db_entry_get_value"
    ∷ codes "db_entry_set_value"
    ∷ codes "object_is_string"
    ∷ codes "object_incr_count"
    ∷ codes "object_decr_count"
    ∷ codes "reply_with_wrong_type_error"
    ∷ codes "reply_with_null"
    ∷ codes "reply_with_object"
    ∷ []

-- `"redis_module_" #name`
abbrev pub api_name : List ℕ → List ℕ
api_name name = codes "redis_module_" ++ name

module _ {A : Type 0} (apis : NameDict ApiFunction A) where
  -- A name that is there keeps its function: `dict_add` fails.
  abbrev pub with_api : A → Option A → A
  with_api api none = api
  with_api api (some api') = api'

  unfoldable pub module_register_api : A → List ℕ → ApiFunction → A
  module_register_api api funname funcptr = with_api api (apis.dict_add api funname funcptr)

  -- a line `REGISTER_API(server, name)` for each
  unfoldable pub register_each : A → List (List ℕ × ApiFunction) → A
  unfolding module_register_api
  register_each api [] = api
  register_each api ((name, funcptr) ∷ rest) =
      register_each (module_register_api api (api_name name) funcptr) rest

  unfoldable pub module_register_core_api : A
  unfolding register_each
  module_register_core_api = register_each apis.dict_new core_api

  -- `redis_module_use_get_api`; `none` is -1, which leaves the pointer NULL.
  unfoldable pub get_api : A → List ℕ → Option ApiFunction
  get_api api funcname = apis.dict_find api funcname

  -- The pointers of a module after the lines `REDIS_MODULE_GET_API(ctx, name)`.
  unfoldable pub linked : A → List (Option ApiFunction)
  linked api = map (λ name. get_api api (api_name name)) wanted_api

abbrev pub is_there : Option Module → Bool
is_there none = false
is_there (some m) = true

abbrev module_or : Option Module → Module → Module
module_or none m = m
module_or (some m) new = m

module _ {R C M A : Type 0} (p : ManagerApi R C) (mods : NameDict Module M) where
  unfoldable pub is_module_name_busy : Host R C M A → List ℕ → Bool
  is_module_name_busy server name = is_there (mods.dict_find server.modules (p.sds_new name))

  -- A module that the context has is kept.
  unfoldable pub set_module_attribs : Ctx R C M A → List ℕ → ℕ → ℕ → Ctx R C M A
  set_module_attribs ctx name ver apiver = record ctx {
    loaded =
        some (module_or ctx.loaded (record { name = p.sds_new name; ver = ver; apiver = apiver }));
  }

  -- A call through a pointer that `get_api` was to fill: of another function than the one whose
  -- name was asked for nothing is known (`none`).
  unfoldable pub call_is_busy : Host R C M A → List ℕ → Option ApiFunction → Option Bool
  unfolding is_module_name_busy
  call_is_busy server name none = some false
  call_is_busy server name (some use_is_module_name_busy) = some (is_module_name_busy server name)
  call_is_busy server name (some f) = none

  unfoldable pub call_set_attribs :
      Ctx R C M A → List ℕ → ℕ → ℕ → Option ApiFunction → Option (Ctx R C M A × Bool)
  unfolding set_module_attribs
  call_set_attribs ctx name ver apiver (some use_set_module_attribs) =
      some (set_module_attribs ctx name ver apiver, true)
  call_set_attribs ctx name ver apiver f = none

  unfoldable pub init_unless :
      Ctx R C M A → List ℕ → ℕ → ℕ → Option ApiFunction → Option Bool → Option (Ctx R C M A × Bool)
  unfolding call_set_attribs
  init_unless ctx name ver apiver f none = none
  init_unless ctx name ver apiver f (some true) = some (ctx, false)
  init_unless ctx name ver apiver f (some false) = call_set_attribs ctx name ver apiver f

  -- The results of modules are true for what is not -1.
  module _ (apis : NameDict ApiFunction A) where
    abbrev pointer : Ctx R C M A → List ℕ → Option ApiFunction
    pointer ctx name = get_api apis ctx.server.module_api (api_name name)

    unfoldable pub redis_module_init : Ctx R C M A → List ℕ → ℕ → ℕ → Option (Ctx R C M A × Bool)
    unfolding init_unless
    redis_module_init ctx name ver apiver =
        let busy = call_is_busy ctx.server name (pointer ctx (codes "is_module_name_busy")) in
        init_unless ctx name ver apiver (pointer ctx (codes "set_module_attribs")) busy

    -- `redis_module_create_command` of a module, through its pointer
    unfoldable pub call_create_command :
        Ctx R C M A
        → List ℕ
        → ModuleFunc
        → List ℕ
        → Option ApiFunction
        → Option (Ctx R C M A × Bool)
    call_create_command ctx name func strflags (some use_create_command) =
        let (cm, ok) = create_command p ctx.server.command_manager name func (some strflags) in
        some (record ctx { server = record ctx.server { command_manager = cm } }, ok)
    call_create_command ctx name func strflags f = none

    unfoldable pub module_create_command :
        Ctx R C M A → List ℕ → ModuleFunc → List ℕ → Option (Ctx R C M A × Bool)
    unfolding call_create_command
    module_create_command ctx name func strflags =
        call_create_command ctx name func strflags (pointer ctx (codes "create_command"))

    -- The next step, unless the last one failed.
    abbrev pub unless_failed :
        (Ctx R C M A → Option (Ctx R C M A × Bool))
        → Option (Ctx R C M A × Bool)
        → Option (Ctx R C M A × Bool)
    unless_failed next none = none
    unless_failed next (some (ctx, false)) = some (ctx, false)
    unless_failed next (some (ctx, true)) = next ctx

    unfoldable pub init_string_module : Ctx R C M A → Option (Ctx R C M A × Bool)
    unfolding module_create_command
    init_string_module ctx =
        unless_failed
          (λ ctx'. module_create_command ctx' (codes "get") get_function (codes "readonly"))
          (module_create_command ctx (codes "set") set_function (codes "write deny-oom"))

    -- `redis_module_onload` of src/modules/latte.c
    unfoldable pub latte_onload : Ctx R C M A → Option (Ctx R C M A × Bool)
    unfolding redis_module_init init_string_module
    latte_onload ctx = unless_failed init_string_module (redis_module_init ctx (codes "latte") 1 1)

    -- `redis_module_onload` of src/module_demo/hello.c
    unfoldable pub hello_onload : Ctx R C M A → Option (Ctx R C M A × Bool)
    unfolding redis_module_init module_create_command
    hello_onload ctx =
        unless_failed
          (λ ctx'.
            module_create_command ctx' (codes "hello.test") hello_test_function (codes "readonly"))
          (redis_module_init ctx (codes "hello") 1 1)

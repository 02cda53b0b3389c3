-- ===== src/Module/Load.antt =====
-- `module_load` and the command `MODULE` of src/redis/module.c and src/commands/module.c.
use Prim.Native.Nat.{bit_and}
use latte_redis_server.Prelude.{
  ℕ, ◌+◌, List, [], ◌∷◌, ◌++◌, length, Bool, true, false, Option, none, some, ◌==◌, if◌then◌else◌,
}
use latte_redis_server.Object.{codes, Object, string_object}
use latte_redis_server.Client.{Client}
use latte_redis_server.Reply.{ReplyApi, crlf, shared_ok, add_reply, add_reply_error}
use latte_redis_server.Reply.Deferred.{BlockApi}
use latte_redis_server.Reply.Deferred.Help.{help_lines, status_lines}
use latte_redis_server.Client.Process.{text_of}
use latte_redis_server.Module.{Module, NameDict, Host, Ctx}

-- The entry point of a shared object, with the arguments of the load; true is any result but -1.
abbrev pub Onload : Type 0 → Type 0 → Type 0 → Type 0 → Type 0
Onload R C M A = Ctx R C M A → List Object → Option (Ctx R C M A × Bool)

-- The system: the mode of a file, if there is one; the shared object at a path, if `dlopen` opens it,
-- with what `dlsym` gives for `redis_module_onload`.
pub record Loader (R C M A : Type 0) : Type 0 where
  pub stat : List ℕ → Option ℕ
  pub dlopen : List ℕ → Option (Option (Onload R C M A))

-- `S_IXUSR | S_IXGRP | S_IXOTH`
abbrev executable : ℕ
executable = 64 + 8 + 1

-- The lines of `MODULE HELP`.
abbrev module_help : List (List ℕ)
module_help =
    codes "LIST"
    ∷ codes "  Return a list of loaded modules."
    ∷ codes "LOAD <path> [<arg> ...]"
    ∷ codes "  Load a module library from <path>, passing to it any optional arguments."
    ∷ codes "UNLOAD <name>"
    ∷ codes "  Unload a module."
    ∷ []

-- `module_help_command`, with `name` the text at `argv[0]`: the text of `add_reply_help` behind what
-- was written before.
unfoldable pub module_help_command : BlockApi → List ℕ → Client → Client
module_help_command blocks name c =
    let lines = help_lines blocks name module_help in
    record c {
      reply = c.reply ++ ((b'*' ∷ (blocks.decimal (length lines) ++ crlf)) ++ status_lines lines);
    }

-- Whether a file is there that nobody may execute.
unfoldable pub not_executable : Option ℕ → Bool
not_executable none = false
not_executable (some mode) = bit_and mode executable == 0

-- `dict_add` of the modules, whose result is not looked at
abbrev pub with_modules : {M : Type 0} → M → Option M → M
with_modules modules none = modules
with_modules modules (some modules') = modules'

module _ {R C M A : Type 0} (mods : NameDict Module M) (load : Loader R C M A) where
  -- `dict_add(server->modules, ctx.module->name, ctx.module)`; `none` is a module that is NULL.
  unfoldable pub add_module : Host R C M A → Option Module → Option (Host R C M A × Bool)
  add_module server none = none
  add_module server (some m) = some (
    record server { modules = with_modules server.modules (mods.dict_add server.modules m.name m) },
    true,
  )

  -- A failed load keeps what it has changed.
  unfoldable pub after_onload : Option (Ctx R C M A × Bool) → Option (Host R C M A × Bool)
  unfolding add_module
  after_onload none = none
  after_onload (some (ctx, false)) = some (ctx.server, false)
  after_onload (some (ctx, true)) = add_module ctx.server ctx.loaded

  unfoldable pub opened :
      Host R C M A → List Object → Option (Option (Onload R C M A)) → Option (Host R C M A × Bool)
  unfolding after_onload
  opened server argv none = some (server, false)
  opened server argv (some none) = some (server, false)
  opened server argv (some (some onload)) =
      after_onload (onload (record { server = server; loaded = none }) argv)

  -- `module_load`: true is 0, false -1.
  unfoldable pub module_load : Host R C M A → List ℕ → List Object → Option (Host R C M A × Bool)
  unfolding opened
  module_load server path argv =
      let run = opened server argv (load.dlopen path) in
      if not_executable (load.stat path) then some (server, false) else run

  -- `init_redis_modules` on the list of paths; `none` is also the assertion that each load succeeds.
  -- The source passes the vector of the arguments itself for their array, so that a module cannot
  -- read them; here they are no arguments.
  abbrev next_entry :
      (Host R C M A → Option (Host R C M A)) → Option (Host R C M A × Bool) → Option (Host R C M A)
  next_entry next none = none
  next_entry next (some (server, false)) = none
  next_entry next (some (server, true)) = next server

  unfoldable pub init_redis_modules : List (List ℕ) → Host R C M A → Option (Host R C M A)
  unfolding module_load
  init_redis_modules [] server = some server
  init_redis_modules (path ∷ entrys) server =
      next_entry (init_redis_modules entrys) (module_load server path [])

  module _ (p : ReplyApi) where
    unfoldable pub load_reply :
        Client → Option (Host R C M A × Bool) → Option (Host R C M A × Client)
    load_reply c none = none
    load_reply c (some (server, true)) = some (server, add_reply p c (string_object shared_ok))
    load_reply c (some (server, false)) = some (
      server,
      add_reply_error c (codes "Error loading the extension. Please check the server logs."),
    )

    -- `path` is `argv[2]`, and `argv` what stands behind it.
    unfoldable pub module_load_command :
        Host R C M A → Client → Object → List Object → Option (Host R C M A × Client)
    unfolding load_reply
    module_load_command server c path argv =
        load_reply c (module_load server (text_of path.payload) argv)

    -- The functions of UNLOAD and LIST
    -- are empty. Without a subcommand, `argv[1]` is read through NULL.
    unfoldable pub module_command :
        (List ℕ → List ℕ → Bool)
        → BlockApi
        → Host R C M A
        → Client
        → List Object
        → Option (Host R C M A × Client)
    module_command same_text blocks server c [] = none
    module_command same_text blocks server c (name ∷ []) = none
    module_command same_text blocks server c (name ∷ subcmd ∷ []) =
        if same_text (text_of subcmd.payload) (codes "help")
        then some (server, module_help_command blocks (text_of name.payload) c)
        else some (server, c)
    module_command same_text blocks server c (name ∷ subcmd ∷ path ∷ argv) =
        let loaded = module_load_command server c path argv in
        if same_text (text_of subcmd.payload) (codes "load") then loaded else some (server, c)

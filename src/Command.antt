-- ===== src/Command.antt =====
-- src/redis/command.h and the flag constants of src/commands/command_manager.h: the command record.
use latte_redis_server.Prelude.{ℕ, List}
use latte_redis_server.Prelude.Int.{ℤ}

-- The functions of modules that answer commands: those of src/modules/string.c and of
-- src/module_demo/hello.c, and others by a number.
pub data ModuleFunc : Type 0 where
  set_function get_function hello_test_function : ModuleFunc
  foreign_function : ℕ → ModuleFunc

-- The functions that `proc` points to: those of the command table, and the dispatcher of the
-- commands that modules register (with the module's function it forwards to).
pub data Proc : Type 0 where
  quit_command module_command ping_command info_command expire_command : Proc
  module_dispatcher : ModuleFunc → Proc

-- `redis_command_t`, without its key positions and counters, which no code reads.
pub record Command : Type 0 where
  pub name : List ℕ
  pub proc : Proc
  pub arity : ℤ
  pub sflags : List ℕ
  pub flags : ℕ
  pub id : ℕ

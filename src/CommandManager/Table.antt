-- ===== src/CommandManager/Table.antt =====
-- The constant tables of src/commands/command_manager.c: categories with their flags, and commands.
use latte_redis_server.Prelude.{ℕ, ◌+◌, ◌^◌, List, [], ◌∷◌}
use latte_redis_server.Prelude.Int.{ℤ, pos, negsuc}
use latte_redis_server.Object.{codes}
use latte_redis_server.Command.{
  Proc, Command, quit_command, module_command, ping_command, info_command, expire_command,
}

abbrev pub cmd_module : ℕ
cmd_module = 2 ^ 3

abbrev pub cmd_category_fast : ℕ
cmd_category_fast = 2 ^ 33

abbrev pub cmd_category_slow : ℕ
cmd_category_slow = 2 ^ 34

-- The names and flags, `CMD_…` and `CMD_CATEGORY_…`, up to the terminator.
abbrev pub acl_command_categories : List (List ℕ × ℕ)
acl_command_categories =
    (codes "write", 2 ^ 0 + 2 ^ 21)
    ∷ (codes "read-only", 2 ^ 1 + 2 ^ 20)
    ∷ (codes "use-memory", 2 ^ 2)
    ∷ (codes "admin", 2 ^ 4 + 2 ^ 32 + 2 ^ 36)
    ∷ (codes "pub-sub", 2 ^ 5 + 2 ^ 31)
    ∷ (codes "no-script", 2 ^ 6)
    ∷ (codes "random", 2 ^ 7)
    ∷ (codes "to-sort", 2 ^ 8)
    ∷ (codes "ok-loading", 2 ^ 9)
    ∷ (codes "ok-stale", 2 ^ 10)
    ∷ (codes "no-monitor", 2 ^ 11)
    ∷ (codes "no-slowlog", 2 ^ 12)
    ∷ (codes "cluster-asking", 2 ^ 13)
    ∷ (codes "fast", 2 ^ 14 + 2 ^ 33)
    ∷ (codes "no-auth", 2 ^ 15)
    ∷ (codes "may-replicate", 2 ^ 16)
    ∷ (codes "@keyspace", 2 ^ 19)
    ∷ (codes "@read", 2 ^ 20)
    ∷ (codes "@write", 2 ^ 21)
    ∷ (codes "@set", 2 ^ 22)
    ∷ (codes "@sortedset", 2 ^ 23)
    ∷ (codes "@list", 2 ^ 24)
    ∷ (codes "@hash", 2 ^ 25)
    ∷ (codes "@string", 2 ^ 26)
    ∷ (codes "@bitmap", 2 ^ 27)
    ∷ (codes "@hyperloglog", 2 ^ 28)
    ∷ (codes "@geo", 2 ^ 29)
    ∷ (codes "@stream", 2 ^ 30)
    ∷ (codes "@pubsub", 2 ^ 31)
    ∷ (codes "@admin", 2 ^ 32)
    ∷ (codes "@fast", 2 ^ 33)
    ∷ (codes "@slow", 2 ^ 34)
    ∷ (codes "@blocking", 2 ^ 35)
    ∷ (codes "@dangerous", 2 ^ 36)
    ∷ (codes "@connection", 2 ^ 37)
    ∷ (codes "@transaction", 2 ^ 38)
    ∷ (codes "@scripting", 2 ^ 39)
    ∷ (codes "@swap_keyspace", 2 ^ 40)
    ∷ (codes "@swap_string", 2 ^ 41)
    ∷ (codes "@swap_hash", 2 ^ 42)
    ∷ (codes "@swap_set", 2 ^ 43)
    ∷ (codes "@swap_zset", 2 ^ 44)
    ∷ (codes "@swap_list", 2 ^ 45)
    ∷ (codes "@swap_bitmap", 2 ^ 46)
    ∷ []

abbrev command_entry : List ℕ → Proc → ℤ → List ℕ → Command
command_entry name proc arity sflags = record {
  name = name;
  proc = proc;
  arity = arity;
  sflags = sflags;
  flags = 0;
  id = 0;
}

abbrev pub redis_command_table : List Command
redis_command_table =
    command_entry (codes "quit") quit_command (pos 0) (codes "admin")
    ∷ command_entry (codes "module") module_command (negsuc 1) (codes "admin no-script")
    ∷ command_entry (codes "ping") ping_command (negsuc 1) (codes "admin")
    ∷ command_entry (codes "info") info_command (negsuc 1) (codes "admin")
    ∷ command_entry (codes "expire") expire_command (pos 3) (codes "write fast")
    ∷ []

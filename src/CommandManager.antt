-- ===== src/CommandManager.antt =====
-- src/commands/command_manager.c, and the registration of module commands in src/redis/module.c: flags
-- of commands, their identifiers and the table of commands.
mod Table
pub mod Flags
pub use Table.{
  cmd_module, cmd_category_fast, cmd_category_slow, acl_command_categories, redis_command_table,
}
pub mod Ids
pub mod Others
pub mod Tests
use Prim.Native.Nat.{bit_and, bit_or}
use Prim.Native.String.{String}
use latte_redis_server.Prelude.{
  ℕ, ◌+◌, ◌-◌, ◌*◌, ◌%◌, ◌^◌, List, [], ◌∷◌, Bool, true, false, Option, none, some, ltb, ◌==◌,
  if◌then◌else◌,
}
use latte_redis_server.Prelude.Int.{ℤ, pos, negsuc}
use latte_redis_server.Object.{codes}
use latte_redis_server.Command.{
  Proc, ModuleFunc, Command, quit_command, module_command, ping_command, info_command,
  expire_command, module_dispatcher,
}

-- A flag kept in `int catflag` and then widened to 64 bits: the low 32 bits, with their sign.
unfoldable pub int_flag : ℕ → ℕ
int_flag flag = let low = flag % 2 ^ 32 in if ltb low (2 ^ 31) then low else low + (2 ^ 64 - 2 ^ 32)

-- What is not part of the repository: `!strcasecmp`, `sds_split_args` (`none` for unbalanced quotes),
-- `sds_split_len` at spaces, `sds_new` and `sds_to_lower`; the radix tree of identifiers, and the
-- dictionary of commands: `dict_fetch_value` and `dict_add`, `none` when the key is there.
pub record ManagerApi (R C : Type 0) : Type 0 where
  pub same_text : List ℕ → List ℕ → Bool
  pub sds_split_args : List ℕ → Option (List (List ℕ))
  pub sds_split_spaces : List ℕ → List (List ℕ)
  pub sds_new : List ℕ → List ℕ
  pub sds_to_lower : List ℕ → List ℕ
  pub rax_find : R → List ℕ → Option ℕ
  pub rax_insert : R → List ℕ → ℕ → R
  pub dict_fetch : C → List ℕ → Option Command
  pub dict_add : C → List ℕ → Command → Option C

pub record CommandManager (R C : Type 0) : Type 0 where
  pub commands : C
  pub command_id : R
  pub nextid : ℕ

abbrev pub user_command_bits_count : ℕ
user_command_bits_count = 1024

module _ {R C : Type 0} (p : ManagerApi R C) where
  unfoldable pub flag_by_name : List ℕ → List (List ℕ × ℕ) → ℕ
  flag_by_name name [] = 0
  flag_by_name name (item ∷ items) =
      let rest = flag_by_name name items in if p.same_text name item.0 then item.1 else rest

  unfoldable pub command_data_type_flag_by_name : List ℕ → ℕ
  unfolding flag_by_name
  command_data_type_flag_by_name name = flag_by_name name acl_command_categories

  -- The flags set, and whether every word is a flag.
  unfoldable pub parse_flags : List (List ℕ) → ℕ → ℕ × Bool
  parse_flags [] flags = (flags, true)
  parse_flags (flag ∷ argv) flags =
      let catflag = int_flag (command_data_type_flag_by_name flag) in
      let rest = parse_flags argv (bit_or flags catflag) in
      if catflag == 0 then (flags, false) else rest

  unfoldable pub fast_or_slow : ℕ × Bool → ℕ × Bool
  fast_or_slow (flags, false) = (flags, false)
  fast_or_slow (flags, true) =
      (if bit_and flags cmd_category_fast == 0 then bit_or flags cmd_category_slow else flags, true)

  unfoldable pub parse_words : ℕ → Option (List (List ℕ)) → ℕ × Bool
  unfolding fast_or_slow
  parse_words flags none = (flags, false)
  parse_words flags (some argv) = fast_or_slow (parse_flags argv flags)

  -- The command's flags after the call, and whether the result is 0.
  unfoldable pub populate_command_table_parse_flags : ℕ → List ℕ → ℕ × Bool
  unfolding parse_words
  populate_command_table_parse_flags flags strflags = parse_words flags (p.sds_split_args strflags)

  unfoldable pub command_manager_lookup : CommandManager R C → List ℕ → Option Command
  command_manager_lookup cm command = p.dict_fetch cm.commands command

  unfoldable pub skip_last_bit : ℕ → ℕ
  skip_last_bit nextid = if nextid == user_command_bits_count - 1 then nextid + 1 else nextid

  unfoldable pub id_of : CommandManager R C → List ℕ → Option ℕ → ℕ × CommandManager R C
  unfolding skip_last_bit
  id_of cm lowername (some id) = (id, cm)
  id_of cm lowername none = (
    cm.nextid,
    record cm {
      command_id = p.rax_insert cm.command_id lowername cm.nextid;
      nextid = skip_last_bit (cm.nextid + 1);
    },
  )

  unfoldable pub acl_get_command_id : CommandManager R C → List ℕ → ℕ × CommandManager R C
  unfolding id_of
  acl_get_command_id cm cmdname =
      let lowername = p.sds_to_lower (p.sds_new cmdname) in
      id_of cm lowername (p.rax_find cm.command_id lowername)

  -- The table after `dict_add`, which leaves it as it was when the name is there.
  unfoldable pub with_commands : CommandManager R C → Option C → CommandManager R C
  with_commands cm none = cm
  with_commands cm (some commands) = record cm { commands = commands }

  unfoldable pub command_manager_register_command :
      CommandManager R C → Command → CommandManager R C
  unfolding with_commands
  command_manager_register_command cm cmd =
      let (id, cm') = acl_get_command_id cm cmd.name in
      with_commands cm' (p.dict_add cm'.commands (p.sds_new cmd.name) (record cmd { id = id }))

  -- `none` is the panic on an unsupported flag.
  unfoldable pub init_commands : List Command → CommandManager R C → Option (CommandManager R C)
  init_commands [] cm = some cm
  init_commands (c ∷ cs) cm =
      let (flags, ok) = populate_command_table_parse_flags c.flags c.sflags in
      let rest =
        init_commands cs (command_manager_register_command cm (record c { flags = flags })) in
      if ok then rest else none

  unfoldable pub command_manager_init : CommandManager R C → Option (CommandManager R C)
  unfolding init_commands
  command_manager_init cm = init_commands redis_command_table cm

  -- `dict_new` and `raxNew` are the arguments.
  unfoldable pub command_manager_new : C → R → Option (CommandManager R C)
  command_manager_new commands ids =
      command_manager_init (record { commands = commands; command_id = ids; nextid = 0 })

  -- The words that `command_flags_from_string` knows, with the flag of each; a `swap-…` word has none.
  abbrev module_flags : List (List ℕ × ℕ)
  module_flags =
      (codes "write", 2 ^ 0)
      ∷ (codes "readonly", 2 ^ 1)
      ∷ (codes "admin", 2 ^ 4)
      ∷ (codes "deny-oom", 2 ^ 2)
      ∷ (codes "deny-script", 2 ^ 6)
      ∷ (codes "allow-loading", 2 ^ 9)
      ∷ (codes "pubsub", 2 ^ 5)
      ∷ (codes "random", 2 ^ 7)
      ∷ (codes "allow-stale", 2 ^ 10)
      ∷ (codes "no-monitor", 2 ^ 11)
      ∷ (codes "no-slowlog", 2 ^ 12)
      ∷ (codes "fast", 2 ^ 14)
      ∷ (codes "no-auth", 2 ^ 15)
      ∷ (codes "may-replicate", 2 ^ 16)
      ∷ (codes "getkeys-api", 2 ^ 17)
      ∷ (codes "no-cluster", 2 ^ 18)
      ∷ (codes "swap-nop", 0)
      ∷ (codes "swap-get", 0)
      ∷ (codes "swap-put", 0)
      ∷ (codes "swap-del", 0)
      ∷ []

  unfoldable pub module_flag : List ℕ → List (List ℕ × ℕ) → Option ℕ
  module_flag t [] = none
  module_flag t (item ∷ items) =
      let rest = module_flag t items in if p.same_text t item.0 then some item.1 else rest

  abbrev add_flag : ℕ → Option ℕ → Option ℕ
  add_flag flags none = none
  add_flag flags (some flag) = some (bit_or flags flag)

  unfoldable pub flags_from_words : List (List ℕ) → Option ℕ → Option ℕ
  flags_from_words [] flags = flags
  flags_from_words (t ∷ tokens) none = none
  flags_from_words (t ∷ tokens) (some flags) =
      flags_from_words tokens (add_flag flags (module_flag t module_flags))

  -- `none` is -1.
  unfoldable pub command_flags_from_string : List ℕ → Option ℕ
  unfolding flags_from_words
  command_flags_from_string s = flags_from_words (p.sds_split_spaces s) (some 0)

  unfoldable pub register_missing :
      CommandManager R C → Command → Option Command → CommandManager R C × Bool
  register_missing cm cmd (some existing) = (cm, false)
  register_missing cm cmd none = (command_manager_register_command cm cmd, true)

  unfoldable pub create_with_flags :
      CommandManager R C → List ℕ → ModuleFunc → Option ℕ → CommandManager R C × Bool
  unfolding register_missing
  create_with_flags cm name func none = (cm, false)
  create_with_flags cm name func (some flags) =
      register_missing cm
        (record {
          name = p.sds_new name;
          proc = module_dispatcher func;
          arity = negsuc 0;
          sflags = [];
          flags = bit_or flags cmd_module;
          id = 0;
        })
        (command_manager_lookup cm (p.sds_new name))

  -- `redis_module_use_create_command`; `func` names the module's function, and a missing
  -- `strflags` is `none`; `sflags`, which is left unset and never read, is empty. The result is true for 0 and false for -1.
  unfoldable pub create_command :
      CommandManager R C → List ℕ → ModuleFunc → Option (List ℕ) → CommandManager R C × Bool
  unfolding create_with_flags
  create_command cm name func none = create_with_flags cm name func (some 0)
  create_command cm name func (some strflags) =
      create_with_flags cm name func (command_flags_from_string strflags)

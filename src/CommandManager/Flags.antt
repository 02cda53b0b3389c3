-- ===== src/CommandManager/Flags.antt =====
-- The flags of commands: parsing in src/commands/command_manager.c and registration of module
-- commands in src/redis/module.c.
use Prim.Native.Nat.{bit_or}
use latte_redis_server.Prelude.{
  ℕ, ◌%◌, ◌^◌, ◌≡◌, refl, List, [], ◌∷◌, ◌++◌, Bool, true, false, Option, none, some, ◌==◌,
  Bool-cases, inl, inr,
}
use latte_redis_server.Prelude.Int.{negsuc}
use latte_redis_server.Command.{Command, ModuleFunc, module_dispatcher}
use latte_redis_server.CommandManager.{
  cmd_module, ManagerApi, CommandManager, int_flag, command_data_type_flag_by_name, parse_flags,
  fast_or_slow, populate_command_table_parse_flags, id_of, acl_get_command_id,
  command_manager_register_command, create_command, command_manager_lookup,
  command_flags_from_string,
}

module _ {R C : Type 0} (p : ManagerApi R C) where
  int_flag-zero : (f : ℕ) → f % 2 ^ 32 ≡ 0 → int_flag f ≡ 0
  unfolding int_flag
  int_flag-zero f h = rw h refl

  parse_flags-high :
      (before after : List (List ℕ)) (word : List ℕ) (flags : ℕ)
      → command_data_type_flag_by_name p word % 2 ^ 32 ≡ 0
      → (parse_flags p (before ++ (word ∷ after)) flags).1 ≡ false
  unfolding parse_flags
  parse_flags-high [] after word flags h =
      rw (int_flag-zero (command_data_type_flag_by_name p word) h) refl
  parse_flags-high (b ∷ before) after word flags h =
      elim (Bool-cases (int_flag (command_data_type_flag_by_name p b) == 0)) [
        | inl e ↦ rw e refl
        | inr e ↦ rw e (
            parse_flags-high before after word
              (bit_or flags (int_flag (command_data_type_flag_by_name p b))) h)
      ]

  fast_or_slow-failed : (r : ℕ × Bool) → r.1 ≡ false → (fast_or_slow p r).1 ≡ false
  unfolding fast_or_slow
  fast_or_slow-failed (flags, false) h = refl
  fast_or_slow-failed (flags, true) h = h

  -- A word of the flags string whose category has no bit below 2^32 makes the call fail,
  -- wherever it stands and whatever the other words are: `int catflag` drops the high bits, so
  -- that a known category such as @admin is taken for an unknown one.
  pub populate_command_table_parse_flags-high :
      (flags : ℕ) (strflags : List ℕ) (before after : List (List ℕ)) (word : List ℕ)
      → p.sds_split_args strflags ≡ some (before ++ (word ∷ after))
      → command_data_type_flag_by_name p word % 2 ^ 32 ≡ 0
      → (populate_command_table_parse_flags p flags strflags).1 ≡ false
  unfolding populate_command_table_parse_flags
  populate_command_table_parse_flags-high flags strflags before after word e h = rw e (
      fast_or_slow-failed (parse_flags p (before ++ (word ∷ after)) flags)
        (parse_flags-high before after word flags h))

  -- What the dictionary of commands is relied on for.
  pub record TableLaws : Type 0 where
    pub add-missing :
        (t : C) (k : List ℕ) (c : Command)
        → p.dict_fetch t k ≡ none
        → (t' : C) × (p.dict_add t k c ≡ some t') × (p.dict_fetch t' k ≡ some c)

  lookup_none :
      (cm : CommandManager R C) (s : List ℕ)
      → command_manager_lookup p cm s ≡ none
      → p.dict_fetch cm.commands s ≡ none
  unfolding command_manager_lookup
  lookup_none cm s h = h

  id_of-commands :
      (cm : CommandManager R C) (s : List ℕ) (o : Option ℕ)
      → (id_of p cm s o).1.commands ≡ cm.commands
  unfolding id_of
  id_of-commands cm s (some id) = refl
  id_of-commands cm s none = refl

  -- Registering a command whose name is not there: the table has it with its identifier.
  registered :
      (laws : TableLaws) (cm : CommandManager R C) (cmd : Command)
      → p.dict_fetch cm.commands (p.sds_new cmd.name) ≡ none
      → command_manager_lookup p (command_manager_register_command p cm cmd) (p.sds_new cmd.name)
        ≡ some (record cmd { id = (acl_get_command_id p cm cmd.name).0 })
  unfolding command_manager_lookup command_manager_register_command acl_get_command_id
  registered laws cm cmd missing =
      let s = p.sds_to_lower (p.sds_new cmd.name) in
      let o = p.rax_find cm.command_id s in
      let kept = id_of-commands cm s o in
      let c : Command = record cmd { id = (id_of p cm s o).0 } in
      let (t', e, found) =
        laws.add-missing (id_of p cm s o).1.commands (p.sds_new cmd.name) c (rw kept missing) in
      rw e found

  -- A module's command is registered, found by its name with its function, its flags and the module flag; a
  -- second command of that name is refused, and changes nothing.
  pub record Created (cm : CommandManager R C) (name : List ℕ) (func : ModuleFunc) (flags : ℕ)
      (strflags : List ℕ) : Type 0 where
    pub after : CommandManager R C
    pub command : Command
    pub done : create_command p cm name func (some strflags) ≡ (after, true)
    pub found : command_manager_lookup p after (p.sds_new name) ≡ some command
    pub proc_lem : command.proc ≡ module_dispatcher func
    pub flags_lem : command.flags ≡ bit_or flags cmd_module
    pub refused :
        (other : ModuleFunc) → create_command p after name other (some strflags) ≡ (after, false)

  -- A module's command whose flags are known and whose name is not taken is registered, and then
  -- found by its name with its function, those flags and the module flag; creating a second command of that name
  -- is refused, and changes nothing.
  pub create_command_lem :
      (laws : TableLaws) (cm : CommandManager R C) (name strflags : List ℕ) (func : ModuleFunc)
      (flags : ℕ)
      → p.sds_new (p.sds_new name) ≡ p.sds_new name
      → command_flags_from_string p strflags ≡ some flags
      → command_manager_lookup p cm (p.sds_new name) ≡ none
      → Created cm name func flags strflags
  unfolding create_command
  create_command_lem laws cm name strflags func flags copy fl missing =
      let cmd : Command = record {
        name = p.sds_new name;
        proc = module_dispatcher func;
        arity = negsuc 0;
        sflags = [];
        flags = bit_or flags cmd_module;
        id = 0;
      } in
      let found =
        rw copy at (registered laws cm cmd (rw copy (lookup_none cm (p.sds_new name) missing))) in
      record {
        after = command_manager_register_command p cm cmd;
        command = record cmd { id = (acl_get_command_id p cm cmd.name).0 };
        done = rw (fl, missing) refl;
        found = found;
        proc_lem = refl;
        flags_lem = refl;
        refused = λ other. rw (fl, found) refl;
      }

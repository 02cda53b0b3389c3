-- ===== src/CommandManager/Others.antt =====
-- Creating a command leaves the commands of other names.
use Prim.Native.Nat.{bit_or}
use latte_redis_server.Prelude.{
  ◌≡◌, refl, ap, ◌∙◌, List, [], Bool, false, Option, none, some, ℕ, Option-cases, inl, inr,
}
use latte_redis_server.Prelude.Int.{negsuc}
use latte_redis_server.Command.{Command, ModuleFunc, module_dispatcher}
use latte_redis_server.CommandManager.{
  cmd_module, ManagerApi, CommandManager, create_command, create_with_flags, register_missing,
  with_commands, id_of, acl_get_command_id, command_manager_register_command,
  command_manager_lookup, command_flags_from_string,
}

module _ {R C : Type 0} (p : ManagerApi R C) where
  -- Adding a command leaves the others: those whose names are not the same to the table, which does not
  -- tell capitals from small letters.
  pub record TableFrame (same : List ℕ → List ℕ → Bool) : Type 0 where
    pub fetch-add_ne :
        (t t' : C) (k j : List ℕ) (c : Command)
        → p.dict_add t k c ≡ some t'
        → same k j ≡ false
        → p.dict_fetch t' j ≡ p.dict_fetch t j

  module _ (same : List ℕ → List ℕ → Bool) (frame : TableFrame same) where
    with_commands-other :
        (cm : CommandManager R C) (k j : List ℕ) (c : Command)
        → same k j ≡ false
        → p.dict_fetch (with_commands p cm (p.dict_add cm.commands k c)).commands j
          ≡ p.dict_fetch cm.commands j
    unfolding with_commands
    with_commands-other cm k j c ne = elim (Option-cases (p.dict_add cm.commands k c)) [
      | inl e ↦ rw e refl
      | inr (t', e) ↦ rw e (frame.fetch-add_ne cm.commands t' k j c e ne)
    ]

    id_of-same :
        (cm : CommandManager R C) (s : List ℕ) (o : Option ℕ)
        → (id_of p cm s o).1.commands ≡ cm.commands
    unfolding id_of
    id_of-same cm s none = refl
    id_of-same cm s (some id) = refl

    register_command-other :
        (cm : CommandManager R C) (cmd : Command) (j : List ℕ)
        → same (p.sds_new cmd.name) j ≡ false
        → command_manager_lookup p (command_manager_register_command p cm cmd) j
          ≡ command_manager_lookup p cm j
    unfolding command_manager_lookup command_manager_register_command acl_get_command_id
    register_command-other cm cmd j ne =
        let s = p.sds_to_lower (p.sds_new cmd.name) in
        let o = p.rax_find cm.command_id s in
        let c : Command = record cmd { id = (id_of p cm s o).0 } in
        with_commands-other (id_of p cm s o).1 (p.sds_new cmd.name) j c ne
        ∙ ap (λ t. p.dict_fetch t j) (id_of-same cm s o)

    register_missing-other :
        (cm : CommandManager R C) (cmd : Command) (o : Option Command) (j : List ℕ)
        → same (p.sds_new cmd.name) j ≡ false
        → command_manager_lookup p (register_missing p cm cmd o).0 j ≡ command_manager_lookup p cm j
    unfolding register_missing
    register_missing-other cm cmd (some old) j ne = refl
    register_missing-other cm cmd none j ne = register_command-other cm cmd j ne

    create_with_flags-other :
        (cm : CommandManager R C) (name j : List ℕ) (func : ModuleFunc) (flags : Option ℕ)
        → p.sds_new (p.sds_new name) ≡ p.sds_new name
        → same (p.sds_new name) j ≡ false
        → command_manager_lookup p (create_with_flags p cm name func flags).0 j
          ≡ command_manager_lookup p cm j
    unfolding create_with_flags
    create_with_flags-other cm name j func none copy ne = refl
    create_with_flags-other cm name j func (some flags) copy ne =
        let cmd : Command = record {
          name = p.sds_new name;
          proc = module_dispatcher func;
          arity = negsuc 0;
          sflags = [];
          flags = bit_or flags cmd_module;
          id = 0;
        } in
        register_missing-other cm cmd (command_manager_lookup p cm (p.sds_new name)) j (rw copy ne)

    -- Creating a command leaves those of other names.
    pub create_command-other :
        (cm : CommandManager R C) (name j : List ℕ) (func : ModuleFunc) (strflags : List ℕ)
        → p.sds_new (p.sds_new name) ≡ p.sds_new name
        → same (p.sds_new name) j ≡ false
        → command_manager_lookup p (create_command p cm name func (some strflags)).0 j
          ≡ command_manager_lookup p cm j
    unfolding create_command
    create_command-other cm name j func strflags copy ne =
        create_with_flags-other cm name j func (command_flags_from_string p strflags) copy ne

  create_with_flags-taken :
      (cm : CommandManager R C) (name : List ℕ) (func : ModuleFunc) (flags : Option ℕ)
      (old : Command)
      → command_manager_lookup p cm (p.sds_new name) ≡ some old
      → create_with_flags p cm name func flags ≡ (cm, false)
  unfolding create_with_flags register_missing
  create_with_flags-taken cm name func none old e = refl
  create_with_flags-taken cm name func (some flags) old e = rw e refl

  -- A name that is taken is refused, whatever the flags.
  pub create_command-taken :
      (cm : CommandManager R C) (name strflags : List ℕ) (func : ModuleFunc) (old : Command)
      → command_manager_lookup p cm (p.sds_new name) ≡ some old
      → create_command p cm name func (some strflags) ≡ (cm, false)
  unfolding create_command
  create_command-taken cm name strflags func old e =
      create_with_flags-taken cm name func (command_flags_from_string p strflags) old e

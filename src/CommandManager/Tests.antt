-- ===== src/CommandManager/Tests.antt =====
-- The command manager at concrete inputs, over association lists.
use latte_redis_server.Prelude.{
  ℕ, ◌+◌, ◌%◌, ◌^◌, ◌≡◌, ◌≢◌, refl, List, [], ◌∷◌, true, false, Option, none, some, ◌==◌, ltb, ◌&&◌,
  if◌then◌else◌, arith,
}
use latte_redis_server.Prelude.Bytes.{bytes_eq, bytes_eq_iff}
use latte_redis_server.Object.{codes}
use latte_redis_server.Command.{Command, set_function}
use latte_redis_server.Dict.Assoc.{find_in_list}
use latte_redis_server.CommandManager.{
  ManagerApi, CommandManager, int_flag, command_data_type_flag_by_name,
  populate_command_table_parse_flags, acl_get_command_id, command_manager_lookup,
  command_flags_from_string, flag_by_name, module_flag, parse_flags,
}
use latte_redis_server.CommandManager.Ids.{
  RaxLaws, NeverLast, ids_of, Avoids, ids_of-Avoids, acl_get_command_id-again,
}
use latte_redis_server.CommandManager.Flags.{
  TableLaws, Created, populate_command_table_parse_flags-high, create_command_lem,
}

abbrev pub Table : Type 0
Table = List (List ℕ × Command)

abbrev pub Tree : Type 0
Tree = List (List ℕ × ℕ)

abbrev pub lower : List ℕ → List ℕ
lower [] = []
lower (b ∷ s) = (if ltb 64 b && ltb b 91 then b + 32 else b) ∷ lower s

abbrev glue : ℕ → List (List ℕ) → List (List ℕ)
glue b [] = (b ∷ []) ∷ []
glue b (w ∷ ws) = (b ∷ w) ∷ ws

-- The words between the spaces.
abbrev split : List ℕ → List (List ℕ)
split [] = [] ∷ []
split (b ∷ s) = let rest = split s in if b == 32 then [] ∷ rest else glue b rest

abbrev add_command : Table → List ℕ → Command → Option Command → Option Table
add_command t k c none = some ((k, c) ∷ t)
add_command t k c (some old) = none

abbrev pub api : ManagerApi Tree Table
api = record {
  same_text = λ s t. bytes_eq (lower s) (lower t);
  sds_split_args = λ s. some (split s);
  sds_split_spaces = split;
  sds_new = λ s. s;
  sds_to_lower = lower;
  rax_find = find_in_list;
  rax_insert = λ r s id. (s, id) ∷ r;
  dict_fetch = λ t k. find_in_list t (lower k);
  dict_add = λ t k c. add_command t (lower k) c (find_in_list t (lower k));
}

pub find_cons :
    {V : Type 0} (r : List (List ℕ × V)) (s t : List ℕ) (v : V)
    → find_in_list ((s, v) ∷ r) t ≡ (if bytes_eq s t then some v else find_in_list r t)
unfolding find_in_list
find_cons r s t v = refl

abbrev rax_laws : RaxLaws api
rax_laws = record {
  same = bytes_eq;
  same_refl = λ s. (bytes_eq_iff s s).1 refl;
  find-insert = λ r s t id. find_cons r s t id;
}

abbrev pub table_laws : TableLaws api
table_laws = record {
  add-missing = λ t k c h. (
    (lower k, c) ∷ t,
    rw h refl,
    (rw ((bytes_eq_iff (lower k) (lower k)).1 refl) at (find_cons t (lower k) (lower k) c)),
  );
}

abbrev pub empty : CommandManager Tree Table
empty = record { commands = []; command_id = []; nextid = 1022 }

pub find_nil : {V : Type 0} (s : List ℕ) → find_in_list {V = V} [] s ≡ none
unfolding find_in_list
find_nil s = refl

not_found : (s : List ℕ) → find_in_list {V = ℕ} [] s ≢ some 1023
not_found s e = ground (arith, find_nil {V = ℕ} s)

empty-NeverLast : NeverLast api empty
empty-NeverLast = record { next_lem = ground arith; found_lem = not_found }

-- "GET" gets 1022, "set" 1024, and "get" again 1022.
ids_of-Avoids_example :
    Avoids 1023 (ids_of api empty (codes "GET" ∷ codes "set" ∷ codes "get" ∷ [])).0
ids_of-Avoids_example =
    ids_of-Avoids api rax_laws empty (codes "GET" ∷ codes "set" ∷ codes "get" ∷ []) empty-NeverLast

acl_get_command_id-again_example :
    acl_get_command_id api (acl_get_command_id api empty (codes "GET")).1 (codes "get")
    ≡ acl_get_command_id api empty (codes "GET")
acl_get_command_id-again_example =
    acl_get_command_id-again api rax_laws empty (codes "GET") (codes "get") refl

slow_flag : command_data_type_flag_by_name api (codes "@slow") % 2 ^ 32 ≡ 0
unfolding command_data_type_flag_by_name flag_by_name bytes_eq
slow_flag = refl

populate_command_table_parse_flags-high_example :
    (populate_command_table_parse_flags api 0 (codes "write @slow fast")).1 ≡ false
populate_command_table_parse_flags-high_example =
    populate_command_table_parse_flags-high api 0 (codes "write @slow fast") (codes "write" ∷ [])
      (codes "fast" ∷ []) (codes "@slow") refl slow_flag

-- The flags of `expire` in the table, "write fast": no fast category, and the slow one.
expire_flags :
    populate_command_table_parse_flags api 0 (codes "write fast")
    ≡ (2 ^ 0 + 2 ^ 21 + 2 ^ 14 + 2 ^ 34, true)
unfolding populate_command_table_parse_flags command_data_type_flag_by_name flag_by_name bytes_eq
    parse_flags int_flag
expire_flags = refl

pub write_flags : command_flags_from_string api (codes "write deny-oom") ≡ some 5
unfolding command_flags_from_string module_flag bytes_eq
write_flags = refl

missing : command_manager_lookup api empty (codes "set") ≡ none
unfolding command_manager_lookup find_in_list
missing = refl

create_command_lem_example : Created api empty (codes "set") set_function 5 (codes "write deny-oom")
create_command_lem_example =
    create_command_lem api table_laws empty (codes "set") (codes "write deny-oom") set_function 5
      refl write_flags missing

pub readonly_flags : command_flags_from_string api (codes "readonly") ≡ some 2
unfolding command_flags_from_string module_flag bytes_eq
readonly_flags = refl

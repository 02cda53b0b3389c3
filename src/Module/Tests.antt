-- ===== src/Module/Tests.antt =====
-- Modules loaded into a concrete server, over association lists.
use latte_redis_server.Prelude.{
  ℕ, ◌≡◌, refl, List, [], ◌∷◌, Bool, true, false, Option, none, some, map,
}
use latte_redis_server.Prelude.Int.{negsuc}
use latte_redis_server.Prelude.Bytes.{bytes_eq, bytes_eq_iff}
use latte_redis_server.Object.{codes}
use latte_redis_server.Command.{Command, module_dispatcher, set_function, foreign_function}
use latte_redis_server.Dict.Assoc.{find_in_list}
use latte_redis_server.CommandManager.{command_manager_lookup}
use latte_redis_server.CommandManager.Others.{TableFrame}
use latte_redis_server.CommandManager.Tests.{
  Table, Tree, lower, api, table_laws, empty, find_cons, find_nil, write_flags, readonly_flags,
}
use latte_redis_server.Module.{
  ApiFunction, Module, NameDict, Host, module_register_core_api, linked, latte_onload,
}
use latte_redis_server.Module.Link.{
  NameLaws, AddLaw, wanted_functions, linked-module_register_core_api,
}
use latte_redis_server.Module.Load.{Loader, module_load, not_executable}
use latte_redis_server.Module.Onload.{LatteAt}
use latte_redis_server.Module.Reload.{
  LiteralCopies, Distinct, Loaded, module_load-Loaded, module_load-partial,
}

abbrev added : {V : Type 0} → List (List ℕ × V) → List ℕ → V → Option V → Option (List (List ℕ × V))
added t k v none = some ((k, v) ∷ t)
added t k v (some old) = none

abbrev pub names : {V : Type 0} → NameDict V (List (List ℕ × V))
names = record {
  dict_new = [];
  dict_find = find_in_list;
  dict_add = λ t k v. added t k v (find_in_list t k);
}

find_same :
    {V : Type 0} (t : List (List ℕ × V)) (k : List ℕ) (v : V) → find_in_list ((k, v) ∷ t) k ≡ some v
find_same t k v = rw ((bytes_eq_iff k k).1 refl) at (find_cons t k k v)

find_other :
    {V : Type 0} (t t' : List (List ℕ × V)) (k j : List ℕ) (v : V) (o : Option V)
    → added t k v o ≡ some t'
    → bytes_eq k j ≡ false
    → find_in_list t' j ≡ find_in_list t j
find_other t t' k j v none e ne = let f = rw ne at (find_cons t k j v) in cc (e, f)
find_other t t' k j v (some old) e ne = cc (e)

pub names-NameLaws : {V : Type 0} → NameLaws {V = V} names
names-NameLaws = record {
  find-new = find_nil;
  add-missing = λ t k v e. ((k, v) ∷ t, (rw e refl, find_same t k v));
  add-existing = λ t k v w e. rw e refl;
  find-add_ne = λ t t' k j v e ne. find_other t t' k j v (find_in_list t k) e ne;
}

pub names-AddLaw : {V : Type 0} → AddLaw {V = V} names
names-AddLaw = record { add-missing = λ t k v e. ((k, v) ∷ t, (rw e refl, find_same t k v)) }

abbrev pub TestHost : Type 0
TestHost = Host Tree Table (List (List ℕ × Module)) (List (List ℕ × ApiFunction))

abbrev pub fresh : TestHost
fresh = record {
  command_manager = empty;
  modules = [];
  module_api = module_register_core_api names;
}

-- One file, which may be executed.
abbrev pub files : Loader Tree Table (List (List ℕ × Module)) (List (List ℕ × ApiFunction))
files = record {
  stat = λ path. some 73;
  dlopen = λ path. some (some (λ ctx argv. latte_onload api names names ctx));
}

pub latte_so : LatteAt api names names names-NameLaws files (codes "latte.so")
unfolding not_executable
latte_so = record { mode = refl; handle = refl }

-- Names are the same to the table when they are so in small letters.
abbrev pub same : List ℕ → List ℕ → Bool
same k j = bytes_eq (lower k) (lower j)

pub frame : TableFrame api same
frame = record {
  fetch-add_ne =
      λ t t' k j c e ne. find_other t t' (lower k) (lower j) c (find_in_list t (lower k)) e ne;
}

pub distinct : Distinct same
unfolding bytes_eq
distinct = record { set_get = refl; get_set = refl }

pub copies : LiteralCopies api
copies = record { latte = refl; set = refl; get = refl }

linked-module_register_core_api_example :
    linked names (module_register_core_api names) ≡ map some wanted_functions
linked-module_register_core_api_example = linked-module_register_core_api names names-NameLaws

pub nothing_found : (s : List ℕ) → command_manager_lookup api empty s ≡ none
unfolding command_manager_lookup find_in_list
nothing_found s = refl

pub fresh-Loaded :
    (after : TestHost) × (module_load names files fresh (codes "latte.so") [] ≡ some (after, true))
    × Loaded api names names names-NameLaws after
    × (module_load names files after (codes "latte.so") [] ≡ some (after, false))
fresh-Loaded =
    module_load-Loaded api names names names-NameLaws files (codes "latte.so") latte_so table_laws
      same frame distinct copies names-AddLaw fresh [] [] refl (find_nil (codes "latte"))
      write_flags readonly_flags (nothing_found (codes "set")) (nothing_found (codes "get"))

module_load-Loaded_example :
    (after : TestHost) × (module_load names files fresh (codes "latte.so") [] ≡ some (after, true))
    × Loaded api names names names-NameLaws after
    × (module_load names files after (codes "latte.so") [] ≡ some (after, false))
module_load-Loaded_example =
    module_load-Loaded api names names names-NameLaws files (codes "latte.so") latte_so table_laws
      same frame distinct copies names-AddLaw fresh [] [] refl (find_nil (codes "latte"))
      write_flags readonly_flags (nothing_found (codes "set")) (nothing_found (codes "get"))

-- A table in which another module has taken `get`.
abbrev foreign_get : Command
foreign_get = record {
  name = codes "get";
  proc = module_dispatcher (foreign_function 1);
  arity = negsuc 0;
  sflags = [];
  flags = 0;
  id = 0;
}

abbrev taken : TestHost
taken = record fresh {
  command_manager = record empty { commands = (codes "get", foreign_get) ∷ [] };
}

set_free : command_manager_lookup api taken.command_manager (codes "set") ≡ none
unfolding command_manager_lookup find_in_list bytes_eq
set_free = refl

get_taken : command_manager_lookup api taken.command_manager (codes "get") ≡ some foreign_get
unfolding command_manager_lookup find_in_list bytes_eq
get_taken = refl

module_load-partial_example :
    (after : TestHost) × (module_load names files taken (codes "latte.so") [] ≡ some (after, false))
    × ((cmd : Command) × (command_manager_lookup api after.command_manager (codes "set") ≡ some cmd)
        × (cmd.proc ≡ module_dispatcher set_function))
module_load-partial_example =
    module_load-partial api names names names-NameLaws files (codes "latte.so") latte_so table_laws
      same frame distinct copies names-AddLaw taken [] foreign_get refl (find_nil (codes "latte"))
      write_flags set_free get_taken

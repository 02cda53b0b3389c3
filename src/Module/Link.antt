-- ===== src/Module/Link.antt =====
-- The names under which src/redis/module.c registers functions, and those that src/redis/redis_module.h asks
-- for.
use latte_redis_server.Prelude.{
  ◌≡◌, refl, ◌∙◌, List, [], ◌∷◌, true, false, Option, none, some, map, if◌then◌else◌, ℕ, Bool-cases,
  Option-cases, inl, inr,
}
use latte_redis_server.Prelude.Bytes.{bytes_eq, bytes_eq_iff}
use latte_redis_server.Module.{
  ApiFunction, NameDict, core_api, wanted_api, api_name, module_register_api, register_each,
  module_register_core_api, get_api, linked, use_create_command, use_is_module_name_busy,
  use_get_api, use_set_module_attribs, use_reply_with_simple_string, use_lookup_key, use_db_add,
  use_db_entry_get_value, use_db_entry_set_value, use_object_is_string, use_object_incr_count,
  use_object_decr_count, use_reply_with_wrong_type_error, use_reply_with_null,
  use_reply_with_object,
}

-- What the dictionary of functions for modules, whose keys are compared byte by byte, is relied on for: a new one is empty, a key is added once, and other keys stay.
pub record NameLaws {V T : Type 0} (d : NameDict V T) : Type 0 where
  pub find-new : (k : List ℕ) → d.dict_find d.dict_new k ≡ none
  pub add-missing :
      (t : T) (k : List ℕ) (v : V)
      → d.dict_find t k ≡ none
      → (t' : T) × ((d.dict_add t k v ≡ some t') × (d.dict_find t' k ≡ some v))
  pub add-existing :
      (t : T) (k : List ℕ) (v w : V) → d.dict_find t k ≡ some w → d.dict_add t k v ≡ none
  pub find-add_ne :
      (t t' : T) (k j : List ℕ) (v : V)
      → d.dict_add t k v ≡ some t'
      → bytes_eq k j ≡ false
      → d.dict_find t' j ≡ d.dict_find t j

-- What the dictionary of modules is relied on for.
pub record AddLaw {V T : Type 0} (d : NameDict V T) : Type 0 where
  pub add-missing :
      (t : T) (k : List ℕ) (v : V)
      → d.dict_find t k ≡ none
      → (t' : T) × ((d.dict_add t k v ≡ some t') × (d.dict_find t' k ≡ some v))

-- The first entry of a name in a table of names.
abbrev pub first_entry : List (List ℕ × ApiFunction) → List ℕ → Option ApiFunction
first_entry [] k = none
first_entry (e ∷ table) k =
    let rest = first_entry table k in if bytes_eq (api_name e.0) k then some e.1 else rest

-- The functions that a module's pointers are to have, in the order of `wanted_api`.
abbrev pub wanted_functions : List ApiFunction
wanted_functions =
    use_create_command ∷ use_is_module_name_busy ∷ use_get_api ∷ use_set_module_attribs
    ∷ use_reply_with_simple_string ∷ use_lookup_key ∷ use_db_add ∷ use_db_entry_get_value
    ∷ use_db_entry_set_value ∷ use_object_is_string ∷ use_object_incr_count ∷ use_object_decr_count
    ∷ use_reply_with_wrong_type_error ∷ use_reply_with_null ∷ use_reply_with_object ∷ []

abbrev kept_or : ApiFunction → Option ApiFunction → ApiFunction
kept_or f none = f
kept_or f (some g) = g

wanted_found :
    map (λ name. first_entry core_api (api_name name)) wanted_api ≡ map some wanted_functions
unfolding bytes_eq
wanted_found = refl

module _ {A : Type 0} (apis : NameDict ApiFunction A) (laws : NameLaws apis) where
  register-same :
      (api : A) (k : List ℕ) (f : ApiFunction) (o : Option ApiFunction)
      → apis.dict_find api k ≡ o
      → apis.dict_find (module_register_api apis api k f) k ≡ some (kept_or f o)
  unfolding module_register_api
  register-same api k f none e = let (t', h) = laws.add-missing api k f e in rw h.0 h.1
  register-same api k f (some g) e = rw (laws.add-existing api k f g e) e

  registered_at :
      (api : A) (k j : List ℕ) (f : ApiFunction) (o : Option ApiFunction)
      → bytes_eq k j ≡ true
      → apis.dict_find api j ≡ o
      → apis.dict_find (module_register_api apis api k f) j ≡ some (kept_or f o)
  registered_at api k j f o b e =
      let same = (bytes_eq_iff k j).0 b in rw (← same) (register-same api k f o (rw same e))

  register-other :
      (api : A) (k j : List ℕ) (f : ApiFunction)
      → bytes_eq k j ≡ false
      → apis.dict_find (module_register_api apis api k f) j ≡ apis.dict_find api j
  unfolding module_register_api
  register-other api k j f ne = elim (Option-cases (apis.dict_add api k f)) [
    | inl e ↦ rw e refl
    | inr (t', e) ↦ rw e (laws.find-add_ne api t' k j f e ne)
  ]

  -- A name keeps the first function registered.
  register_each-found :
      (table : List (List ℕ × ApiFunction)) (api : A) (k : List ℕ) (f : ApiFunction)
      → apis.dict_find api k ≡ some f
      → apis.dict_find (register_each apis api table) k ≡ some f
  unfolding register_each
  register_each-found [] api k f e = e
  register_each-found (x ∷ table) api k f e = elim (Bool-cases (bytes_eq (api_name x.0) k)) [
    | inl b ↦
        register_each-found table (module_register_api apis api (api_name x.0) x.1) k f
          (registered_at api (api_name x.0) k x.1 (some f) b e)
    | inr b ↦
        register_each-found table (module_register_api apis api (api_name x.0) x.1) k f
          (register-other api (api_name x.0) k x.1 b ∙ e)
  ]

  register_each_lem :
      (table : List (List ℕ × ApiFunction)) (api : A) (k : List ℕ)
      → apis.dict_find api k ≡ none
      → apis.dict_find (register_each apis api table) k ≡ first_entry table k
  unfolding register_each
  register_each_lem [] api k e = e
  register_each_lem (x ∷ table) api k e = elim (Bool-cases (bytes_eq (api_name x.0) k)) [
    | inl b ↦ rw b (
        register_each-found table (module_register_api apis api (api_name x.0) x.1) k x.1
          (registered_at api (api_name x.0) k x.1 none b e))
    | inr b ↦ rw b (
        register_each_lem table (module_register_api apis api (api_name x.0) x.1) k
          (register-other api (api_name x.0) k x.1 b ∙ e))
  ]

  pub get_api-core :
      (k : List ℕ) → get_api apis (module_register_core_api apis) k ≡ first_entry core_api k
  unfolding get_api module_register_core_api
  get_api-core k = register_each_lem core_api apis.dict_new k (laws.find-new k)

  linked_names :
      (names : List (List ℕ))
      → map (λ name. get_api apis (module_register_core_api apis) (api_name name)) names
        ≡ map (λ name. first_entry core_api (api_name name)) names
  linked_names [] = refl
  linked_names (name ∷ names) = cc (get_api-core (api_name name), linked_names names)

  -- Every function that a module asks the server for by name is registered, under that name: after
  -- the server has registered its functions, the pointers of a module that has been linked are
  -- exactly the functions meant, and none of them stays NULL.
  pub linked-module_register_core_api :
      linked apis (module_register_core_api apis) ≡ map some wanted_functions
  unfolding linked
  linked-module_register_core_api = linked_names wanted_api ∙ wanted_found

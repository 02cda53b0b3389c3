-- ===== src/Db/Tests.antt =====
-- The database functions at concrete inputs: two keys, one of which has a time of expiry.
use latte_redis_server.Prelude.{
  ℕ, ◌≡◌, ◌%◌, ◌-◌, ◌^◌, refl, List, [], ◌∷◌, true, Option, none, some, ◌==◌, if◌then◌else◌, ◌++◌,
}
use latte_redis_server.Prelude.Int.{ℤ, pos, ◌+ℤ◌}
use latte_redis_server.Prelude.Bytes.{bytes_eq}
use latte_redis_server.Object.{codes, Payload, text, integer, Object, string_object}
use latte_redis_server.Dict.{DictApi, DictLaws}
use latte_redis_server.Dict.Assoc.{assoc, assoc-laws, find_in_list, count_keys}
use latte_redis_server.KvStore.{
  get_kv_store_index_for_key, kv_store_dict_find, kv_store_dict_delete_key, kv_store_get_dict,
}
use latte_redis_server.KvStore.One.{one}
use latte_redis_server.KvStore.Single.{delete_key-non_empty_dicts}
use latte_redis_server.Db.{
  Db, Clocks, ObjectEnv, find_key, find_expire, db_set_expire, db_delete_key, expire_if_needed,
  db_add_key_value,
}
use latte_redis_server.Db.Expire.{
  IsDb, ExpireSet, KeyDeleted, Checked, is_due, db_set_expire-fresh, db_delete_key_lem,
  expire_if_needed_lem,
}
use latte_redis_server.Db.Values.{ValueAdded, db_add_key_value-fresh, db_add_key_value-existing}

abbrev pub Entries : Type 0 → Type 0
Entries V = List (List ℕ × V)

abbrev pub keys_api : DictApi (List ℕ) Object (Entries Object)
keys_api = assoc (string_object [])

abbrev pub keys_laws : DictLaws keys_api bytes_eq
keys_laws = assoc-laws (string_object [])

abbrev pub expires_api : DictApi (List ℕ) ℤ (Entries ℤ)
expires_api = assoc (pos 0)

abbrev pub expires_laws : DictLaws expires_api bytes_eq
expires_laws = assoc-laws (pos 0)

abbrev two_keys : Entries Object
two_keys = (codes "a", string_object (codes "1")) ∷ (codes "b", string_object (codes "2")) ∷ []

abbrev pub db : Db (Entries Object) (Entries ℤ)
db = record {
  keys = one keys_api bytes_eq keys_laws (some two_keys) 1 (pos 1) [];
  expires = one expires_api bytes_eq expires_laws (some ((codes "a", pos 1000) ∷ [])) 1 (pos 1) [];
}

abbrev pub db-IsDb : IsDb keys_api expires_api bytes_eq keys_laws expires_laws db
db-IsDb = record {
  keys_lem = record {
    made = some two_keys;
    allocated = 1;
    non_empty = pos 1;
    index = [];
    one_lem = refl;
  };
  expires_lem = record {
    made = some ((codes "a", pos 1000) ∷ []);
    allocated = 1;
    non_empty = pos 1;
    index = [];
    one_lem = refl;
  };
}

abbrev pub c_string : List ℕ → List ℕ
c_string [] = []
c_string (b ∷ s) = let rest = c_string s in if b == 0 then [] else b ∷ rest

abbrev pub text_at : Payload → Option (List ℕ)
text_at (text s) = some s
text_at (integer z) = none

abbrev pub objects : ObjectEnv
objects = record {
  lru_clock_max = 2 ^ 24 - 1;
  lru_field = λ n. n % 2 ^ 24;
  get_sds_from_object = λ o. text_at o.payload;
  sds_new = c_string;
}

abbrev pub clocks : Clocks
clocks = record { unixtime = 60; hz = 100; lruclock = 7; maxmemory_policy = 1 }

-- "a" has a time of expiry, 1000.
expire_of_a : find_expire keys_api expires_api db (codes "a") ≡ some (pos 1000)
unfolding kv_store_dict_find kv_store_get_dict get_kv_store_index_for_key find_in_list bytes_eq
expire_of_a = refl

expire_of_b : find_expire keys_api expires_api db (codes "b") ≡ none
unfolding kv_store_dict_find kv_store_get_dict get_kv_store_index_for_key find_in_list bytes_eq
expire_of_b = refl

key_a : find_key keys_api expires_api db (codes "a") ≡ some (string_object (codes "1"))
unfolding kv_store_dict_find kv_store_get_dict get_kv_store_index_for_key find_in_list bytes_eq
key_a = refl

key_c : find_key keys_api expires_api db (codes "c") ≡ none
unfolding kv_store_dict_find kv_store_get_dict get_kv_store_index_for_key find_in_list bytes_eq
key_c = refl

db_set_expire-fresh_example :
    ExpireSet keys_api expires_api bytes_eq keys_laws expires_laws db
      (codes "b")
      (pos 500)
      (db_set_expire keys_api expires_api db (codes "b") (pos 500))
db_set_expire-fresh_example =
    db_set_expire-fresh keys_api expires_api bytes_eq keys_laws expires_laws db (codes "b")
      (pos 500) db-IsDb expire_of_b

db_delete_key_lem_example :
    KeyDeleted keys_api expires_api bytes_eq keys_laws expires_laws db
      (codes "a")
      (db_delete_key keys_api expires_api db (codes "a"))
db_delete_key_lem_example =
    db_delete_key_lem keys_api expires_api bytes_eq keys_laws expires_laws db (codes "a") db-IsDb

expire_if_needed_lem_example :
    Checked keys_api expires_api bytes_eq keys_laws expires_laws
      (pos 1000)
      db
      (codes "a")
      (is_due (pos 1000) (find_expire keys_api expires_api db (codes "a")))
      (expire_if_needed keys_api expires_api (pos 1000) db (codes "a"))
expire_if_needed_lem_example =
    expire_if_needed_lem keys_api expires_api bytes_eq keys_laws expires_laws (pos 1000) db
      (codes "a") db-IsDb

db_add_key_value-fresh_example :
    ValueAdded keys_api expires_api bytes_eq keys_laws expires_laws objects clocks 5000 db
      (codes "c")
      (string_object (codes "3"))
      (db_add_key_value keys_api expires_api objects clocks 5000 db
        (string_object (codes "c"))
        (string_object (codes "3")))
db_add_key_value-fresh_example =
    db_add_key_value-fresh keys_api expires_api bytes_eq keys_laws expires_laws objects clocks 5000
      db (string_object (codes "c")) (string_object (codes "3")) (codes "c") db-IsDb refl key_c

-- The key of three bytes, of which `sds_new` copies the first.
abbrev cut_key : List ℕ
cut_key = codes "a" ++ (0 ∷ codes "z")

db_add_key_value-existing_example :
    db_add_key_value keys_api expires_api objects clocks 5000 db
      (string_object cut_key)
      (string_object (codes "3"))
    ≡ none
db_add_key_value-existing_example =
    db_add_key_value-existing keys_api expires_api bytes_eq keys_laws expires_laws objects clocks
      5000 db (string_object cut_key) (string_object (codes "3")) (string_object (codes "1"))
      cut_key db-IsDb refl key_a

two_keys-count : count_keys two_keys ≡ 2
unfolding count_keys find_in_list bytes_eq
two_keys-count = refl

a_in_two_keys : find_in_list two_keys (codes "a") ≡ some (string_object (codes "1"))
unfolding find_in_list bytes_eq
a_in_two_keys = refl

delete_key-non_empty_dicts_example :
    (d' : Entries Object) × (count_keys d' ≡ 1)
    × (kv_store_dict_delete_key keys_api
          (one keys_api bytes_eq keys_laws (some two_keys) 1 (pos 1) [])
          0
          (codes "a")
        ≡ some (one keys_api bytes_eq keys_laws (some d') 1 (pos 1 +ℤ pos 1) [], true))
delete_key-non_empty_dicts_example =
    delete_key-non_empty_dicts keys_api bytes_eq keys_laws two_keys 1 (pos 1) [] (codes "a")
      (string_object (codes "1")) a_in_two_keys two_keys-count

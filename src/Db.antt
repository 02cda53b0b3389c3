-- ===== src/Db.antt =====
-- `redis_db_t` of src/redis/db.h, and the functions of src/redis/db.c on it: the keys and their
-- times of expiry. `none` is a failed assertion, which stops the server.
pub mod Values
pub mod Expire
pub mod Tests
use Prim.Native.Nat.{bit_and}
use latte_redis_server.Prelude.{
  ℕ, ◌+◌, ◌*◌, ◌/◌, ◌%◌, ◌^◌, List, Bool, true, false, Option, none, some, leb, ◌==◌, if◌then◌else◌,
  not,
}
use latte_redis_server.Prelude.Int.{ℤ, pos, negsuc, ltb_ℤ}
use latte_redis_server.Object.{Object, Payload, text, integer}
use latte_redis_server.Dict.{DictApi}
use latte_redis_server.KvStore.{
  KvStore, get_kv_store_index_for_key, kv_store_dict_find, kv_store_dict_add_raw,
  kv_store_dict_set_val, kv_store_dict_delete_key,
}

-- `keys` maps a key to an object, `expires` a key to a time in milliseconds.
pub record Db (T E : Type 0) : Type 0 where
  pub keys : KvStore T
  pub expires : KvStore E

-- The fields of `redis_server_t` that the access clocks are read from.
pub record Clocks : Type 0 where
  pub unixtime : ℕ
  pub hz : ℕ
  pub lruclock : ℕ
  pub maxmemory_policy : ℕ

abbrev pub maxmemory_flag_lfu : ℕ
maxmemory_flag_lfu = 2 ^ 1

abbrev pub lru_clock_resolution : ℕ
lru_clock_resolution = 1000

abbrev pub lfu_init_val : ℕ
lfu_init_val = 5

unfoldable pub lfu_get_time_in_minutes : Clocks → ℕ
lfu_get_time_in_minutes server = bit_and (server.unixtime / 60) 65535

-- What the objects and strings outside the repository provide: `LRU_CLOCK_MAX`, the bits that the
-- field `lru` keeps of a number, `get_sds_from_object` (which fails on what is no string), and
-- `sds_new`, which copies up to the first zero byte.
pub record ObjectEnv : Type 0 where
  pub lru_clock_max : ℕ
  pub lru_field : ℕ → ℕ
  pub get_sds_from_object : Object → Option (List ℕ)
  pub sds_new : List ℕ → List ℕ

module _ (p : ObjectEnv) where
  -- `now` is `mstime()`.
  unfoldable pub get_lru_clock : ℕ → ℕ
  get_lru_clock now = bit_and (now / lru_clock_resolution) p.lru_clock_max

  unfoldable pub lru_clock : Clocks → ℕ → ℕ
  lru_clock server now =
      if leb (1000 / server.hz) lru_clock_resolution then server.lruclock else get_lru_clock now

  -- The object is changed unless its reference count is the shared one. The low byte of
  -- `minutes << 8` is zero, so that `|` adds.
  unfoldable pub init_object_lru_or_lfu : Clocks → ℕ → Object → Object
  init_object_lru_or_lfu server now o =
      let lfu = lfu_get_time_in_minutes server * 2 ^ 8 + lfu_init_val in
      let clock =
        if not (bit_and server.maxmemory_policy maxmemory_flag_lfu == 0)
        then lfu
        else lru_clock server now in
      if o.is_shared then o else record o { lru = p.lru_field clock }

module _ {T E : Type 0} (keys : DictApi (List ℕ) Object T) (expires : DictApi (List ℕ) ℤ E) where
  abbrev pub find_key : Db T E → List ℕ → Option Object
  find_key db key = kv_store_dict_find keys db.keys (get_kv_store_index_for_key key) key

  abbrev pub find_expire : Db T E → List ℕ → Option ℤ
  find_expire db key = kv_store_dict_find expires db.expires (get_kv_store_index_for_key key) key

  abbrev value_or_zero : Option ℤ → ℤ
  value_or_zero none = pos 0
  value_or_zero (some when_ms) = when_ms

  unfoldable pub db_get_expire : Db T E → List ℕ → ℤ
  db_get_expire db key = value_or_zero (find_expire db key)

  unfoldable pub set_added_expire :
      Db T E → List ℕ → ℤ → Option (KvStore E × Bool) → Option (Db T E × ℤ)
  set_added_expire db key when_ms none = none
  set_added_expire db key when_ms (some (kvs, false)) = some (record db { expires = kvs }, negsuc 0)
  set_added_expire db key when_ms (some (kvs, true)) = some (
    record db {
      expires = kv_store_dict_set_val expires kvs (get_kv_store_index_for_key key) key when_ms;
    },
    pos 0,
  )

  unfoldable pub db_set_expire : Db T E → List ℕ → ℤ → Option (Db T E × ℤ)
  unfolding set_added_expire
  db_set_expire db key when_ms =
      set_added_expire db key when_ms
        (kv_store_dict_add_raw expires db.expires (get_kv_store_index_for_key key) key)

  abbrev with_expires : Db T E → Option (KvStore E × Bool) → Option (Db T E)
  with_expires db none = none
  with_expires db (some (kvs, deleted)) = some (record db { expires = kvs })

  abbrev with_keys : Db T E → Option (KvStore T × Bool) → Option (Db T E)
  with_keys db none = none
  with_keys db (some (kvs, deleted)) = some (record db { keys = kvs })

  unfoldable pub db_remove_expire : Db T E → List ℕ → Option (Db T E)
  db_remove_expire db key =
      with_expires db
        (kv_store_dict_delete_key expires db.expires (get_kv_store_index_for_key key) key)

  unfoldable pub delete_from_keys : List ℕ → Option (Db T E) → Option (Db T E)
  delete_from_keys key none = none
  delete_from_keys key (some db) =
      with_keys db (kv_store_dict_delete_key keys db.keys (get_kv_store_index_for_key key) key)

  unfoldable pub db_delete_key : Db T E → List ℕ → Option (Db T E)
  unfolding delete_from_keys
  db_delete_key db key = delete_from_keys key (
      with_expires db
        (kv_store_dict_delete_key expires db.expires (get_kv_store_index_for_key key) key))

  abbrev pub expired : Option (Db T E) → Option (Db T E × Bool)
  expired none = none
  expired (some db) = some (db, true)

  unfoldable pub expire_at : ℤ → Db T E → List ℕ → Option ℤ → Option (Db T E × Bool)
  expire_at now db key none = some (db, false)
  expire_at now db key (some when_ms) =
      if ltb_ℤ now when_ms then some (db, false) else expired (db_delete_key db key)

  -- `now` is `mstime()`.
  unfoldable pub expire_if_needed : ℤ → Db T E → List ℕ → Option (Db T E × Bool)
  unfolding expire_at
  expire_if_needed now db key = expire_at now db key (find_expire db key)

  module _ (p : ObjectEnv) where
    -- The entry `de` that the value is set at: its key, and the value it has.
    unfoldable pub set_entry : Db T E → Object → Bool → Option (List ℕ × Object) → Option (Db T E)
    set_entry db val overwrite none = none
    set_entry db val true (some (key, old)) = none
    set_entry db val false (some (key, old)) = some (record db {
      keys =
          kv_store_dict_set_val keys db.keys (get_kv_store_index_for_key key) key
            (record val { lru = old.lru });
    })

    abbrev entry_of : List ℕ → Option Object → Option (List ℕ × Object)
    entry_of key none = none
    entry_of key (some old) = some (key, old)

    abbrev entry_or_found : Db T E → List ℕ → Option (List ℕ × Object) → Option (List ℕ × Object)
    entry_or_found db key none = entry_of key (find_key db key)
    entry_or_found db key (some de) = some de

    unfoldable pub set_value_at :
        Db T E → Object → Bool → Option (List ℕ × Object) → Option (List ℕ) → Option (Db T E)
    unfolding set_entry
    set_value_at db val overwrite de none = none
    set_value_at db val overwrite de (some key_ptr) =
        set_entry db val overwrite (entry_or_found db key_ptr de)

    unfoldable pub db_set_value :
        Db T E → Object → Object → Bool → Option (List ℕ × Object) → Option (Db T E)
    unfolding set_value_at
    db_set_value db key val overwrite de =
        set_value_at db val overwrite de (p.get_sds_from_object key)

    -- The outcome of `kv_store_dict_add_raw` on the new key: the new entry, or the existing one.
    unfoldable pub set_added_value :
        Clocks → ℕ → Db T E → Object → Object → List ℕ → Option (KvStore T × Bool) → Option (Db T E)
    set_added_value server now db key val new_key none = none
    set_added_value server now db key val new_key (some (kvs, true)) = some (record db {
      keys =
          kv_store_dict_set_val keys kvs (get_kv_store_index_for_key new_key) new_key
            (init_object_lru_or_lfu p server now val);
    })
    set_added_value server now db key val new_key (some (kvs, false)) =
        db_set_value (record db { keys = kvs }) key val true
          (entry_of new_key (find_key (record db { keys = kvs }) new_key))

    unfoldable pub add_key_value_at :
        Clocks → ℕ → Db T E → Object → Object → Option (List ℕ) → Option (Db T E)
    unfolding set_added_value
    add_key_value_at server now db key val none = none
    add_key_value_at server now db key val (some key_ptr) =
        set_added_value server now db key val (p.sds_new key_ptr) (
          kv_store_dict_add_raw keys db.keys (get_kv_store_index_for_key key_ptr)
            (p.sds_new key_ptr))

    -- The source's result is 0 on every path that returns: `dict_add_raw` gives no entry only
    -- when it gives the existing one.
    unfoldable pub db_add_key_value_internal :
        Clocks → ℕ → Db T E → Object → Object → Option (Db T E)
    unfolding add_key_value_at
    db_add_key_value_internal server now db key val =
        add_key_value_at server now db key val (p.get_sds_from_object key)

    unfoldable pub db_add_key_value : Clocks → ℕ → Db T E → Object → Object → Option (Db T E)
    unfolding db_add_key_value_internal
    db_add_key_value server now db key val = db_add_key_value_internal server now db key val

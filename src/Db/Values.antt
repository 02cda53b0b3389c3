-- ===== src/Db/Values.antt =====
-- Adding a value for a key in src/redis/db.c, whether the key is new or not.
use latte_redis_server.Prelude.{ℕ, ◌≡◌, refl, List, Bool, Option, none, some, if◌then◌else◌, ◌∙◌}
use latte_redis_server.Prelude.Int.{ℤ}
use latte_redis_server.Object.{Object}
use latte_redis_server.Dict.{DictApi, DictLaws}
use latte_redis_server.KvStore.{
  get_kv_store_index_for_key, kv_store_dict_find, kv_store_dict_set_val,
}
use latte_redis_server.KvStore.Single.{
  kv_store_dict_add_raw-fresh, kv_store_dict_add_raw-existing, kv_store_dict_set_val-present,
}
use latte_redis_server.Db.{
  Db, Clocks, ObjectEnv, init_object_lru_or_lfu, find_key, db_set_value, db_add_key_value,
}
use latte_redis_server.Db.Expire.{IsDb, if_if}

module _ {T E : Type 0} (keys : DictApi (List ℕ) Object T) (expires : DictApi (List ℕ) ℤ E)
    (eq : List ℕ → List ℕ → Bool) (key_laws : DictLaws keys eq) (expire_laws : DictLaws expires eq)
    (p : ObjectEnv) where
  -- The outcome of adding `val` at `key`: it is found there with its clock set, no other key's
  -- value changes, and the times of expiry stay as they are.
  pub record ValueAdded (server : Clocks) (now : ℕ) (db : Db T E) (key : List ℕ) (val : Object)
      (c : Option (Db T E)) : Type 0 where
    pub after : Db T E
    pub done : c ≡ some after
    pub is_db : IsDb keys expires eq key_laws expire_laws after
    pub expires_kept : after.expires ≡ db.expires
    pub finds :
        (j : List ℕ)
        → find_key keys expires after j ≡ (
            if eq key j
            then some (init_object_lru_or_lfu p server now val)
            else find_key keys expires db j)

  -- Where the copy that `sds_new` makes of the key is not in the database, the value is added at
  -- that copy with its access clock set, and no other key, and no time of expiry, changes.
  pub db_add_key_value-fresh :
      (server : Clocks) (now : ℕ) (db : Db T E) (key val : Object) (s : List ℕ)
      → IsDb keys expires eq key_laws expire_laws db
      → p.get_sds_from_object key ≡ some s
      → find_key keys expires db (p.sds_new s) ≡ none
      → ValueAdded server now db
          (p.sds_new s)
          val
          (db_add_key_value keys expires p server now db key val)
  unfolding db_add_key_value get_kv_store_index_for_key
  db_add_key_value-fresh server now db key val s is hs h =
      let k = p.sds_new s in
      let v = init_object_lru_or_lfu p server now val in
      let (w, a) = kv_store_dict_add_raw-fresh keys eq key_laws db.keys k is.keys_lem h in
      let (single, set_at) =
        kv_store_dict_set_val-present keys eq key_laws a.store k v w a.single
          (a.finds k ∙ rw ((key_laws.eq_iff k k).1 refl) refl) in
      record {
        after = record db { keys = kv_store_dict_set_val keys a.store 0 k v };
        done = rw (hs, a.done) refl;
        is_db = record { keys_lem = single; expires_lem = is.expires_lem };
        expires_kept = refl;
        finds = λ j.
            set_at j
            ∙ if_if (some v) (some w) (find_key keys expires db j)
                (kv_store_dict_find keys a.store 0 j) (eq k j) (a.finds j);
      }

  -- Where the copy that `sds_new` makes of the key is in the database, the call fails the assertion
  -- that overwriting is not supported.
  pub db_add_key_value-existing :
      (server : Clocks) (now : ℕ) (db : Db T E) (key val old : Object) (s : List ℕ)
      → IsDb keys expires eq key_laws expire_laws db
      → p.get_sds_from_object key ≡ some s
      → find_key keys expires db (p.sds_new s) ≡ some old
      → db_add_key_value keys expires p server now db key val ≡ none
  unfolding db_add_key_value get_kv_store_index_for_key db_set_value
  db_add_key_value-existing server now db key val old s is hs h =
      rw
        (
          hs,
          kv_store_dict_add_raw-existing keys eq key_laws db.keys (p.sds_new s) old is.keys_lem h,
          h,
          hs,
        )
        refl

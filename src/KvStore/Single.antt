-- ===== src/KvStore/Single.antt =====
-- The store that `init_redis_server_dbs` makes, with one dictionary made on demand: what its
-- operations in src/redis/db.c do to the entries and to the count of keys.
use latte_redis_server.Prelude.{
  ℕ, ◌≡◌, refl, sym, List, [], Bool, true, false, Option, none, some, arith, Bool-cases, inl, inr,
  ◌∙◌,
}
use latte_redis_server.Prelude.Int.{ℤ, pos, ◌+ℤ◌}
use latte_redis_server.Dict.{DictApi, DictLaws}
use latte_redis_server.KvStore.{
  KvStore, non_empty_delta, kv_store_get_dict, put_dict, cumulative_key_count_add,
  kv_store_dict_find, kv_store_dict_delete_key, after_delete, kv_store_dict_add_raw,
  kv_store_dict_set_val, kv_store_create,
}
use latte_redis_server.KvStore.One.{
  one, Single, FindsAt, Stored, find_one, add_raw-one, delete_key-one, set_val-one, existing-one,
  missing-one,
}

module _ {K V T : Type 0} (dict : DictApi K V T) (eq : K → K → Bool) (laws : DictLaws dict eq) where
  -- A key that is not there is added with a value of the dictionary's own, and counted.
  pub kv_store_dict_add_raw-fresh :
      (kvs : KvStore T) (key : K)
      → Single dict eq laws kvs
      → kv_store_dict_find dict kvs 0 key ≡ none
      → (w : V) × Stored dict eq laws kvs key (some w) (kv_store_dict_add_raw dict kvs 0 key)
  kv_store_dict_add_raw-fresh kvs key s h = rw s.one_lem (
      add_raw-one dict eq laws s.made s.allocated s.non_empty s.index key (
        sym (find_one dict eq laws s.made s.allocated s.non_empty s.index key)
        ∙ (rw s.one_lem at h)))

  -- A key that is there is not added again, and the store stays as it is.
  pub kv_store_dict_add_raw-existing :
      (kvs : KvStore T) (key : K) (v : V)
      → Single dict eq laws kvs
      → kv_store_dict_find dict kvs 0 key ≡ some v
      → kv_store_dict_add_raw dict kvs 0 key ≡ some (kvs, false)
  kv_store_dict_add_raw-existing kvs key v s h = rw s.one_lem (
      existing-one dict eq laws s.made s.allocated s.non_empty s.index key v (
        sym (find_one dict eq laws s.made s.allocated s.non_empty s.index key)
        ∙ (rw s.one_lem at h)))

  -- A key that is there is deleted, and no longer counted.
  pub kv_store_dict_delete_key-present :
      (kvs : KvStore T) (key : K) (v : V)
      → Single dict eq laws kvs
      → kv_store_dict_find dict kvs 0 key ≡ some v
      → Stored dict eq laws kvs key none (kv_store_dict_delete_key dict kvs 0 key)
  kv_store_dict_delete_key-present kvs key v s h = rw s.one_lem (
      delete_key-one dict eq laws s.made s.allocated s.non_empty s.index key v (
        sym (find_one dict eq laws s.made s.allocated s.non_empty s.index key)
        ∙ (rw s.one_lem at h)))

  pub kv_store_dict_delete_key-missing :
      (kvs : KvStore T) (key : K)
      → Single dict eq laws kvs
      → kv_store_dict_find dict kvs 0 key ≡ none
      → kv_store_dict_delete_key dict kvs 0 key ≡ some (kvs, false)
  kv_store_dict_delete_key-missing kvs key s h = rw s.one_lem (
      missing-one dict eq laws s.made s.allocated s.non_empty s.index key (
        sym (find_one dict eq laws s.made s.allocated s.non_empty s.index key)
        ∙ (rw s.one_lem at h)))

  pub kv_store_dict_set_val-present :
      (kvs : KvStore T) (key : K) (v w : V)
      → Single dict eq laws kvs
      → kv_store_dict_find dict kvs 0 key ≡ some w
      → Single dict eq laws (kv_store_dict_set_val dict kvs 0 key v)
        × FindsAt dict eq laws kvs (kv_store_dict_set_val dict kvs 0 key v) key (some v)
  kv_store_dict_set_val-present kvs key v w s h = rw s.one_lem (
      set_val-one dict eq laws s.made s.allocated s.non_empty s.index key v w (
        sym (find_one dict eq laws s.made s.allocated s.non_empty s.index key)
        ∙ (rw s.one_lem at h)))

  -- `kv_store_create(type, 0, KVSTORE_ALLOCATE_DICTS_ON_DEMAND)`
  pub kv_store_create_lem : kv_store_create dict 0 true ≡ some (one dict eq laws none 0 (pos 0) [])
  unfolding kv_store_create
  kv_store_create_lem = refl

  pub empty_store : Single dict eq laws (one dict eq laws none 0 (pos 0) [])
  empty_store = record { made = none; allocated = 0; non_empty = pos 0; index = []; one_lem = refl }

  pub find-empty_store :
      (k : K) → kv_store_dict_find dict (one dict eq laws none 0 (pos 0) []) 0 k ≡ none
  find-empty_store k = find_one dict eq laws none 0 (pos 0) [] k

  -- Deleting one of the two keys of the only dictionary raises `non_empty_dicts`, though that
  -- dictionary is non-empty before and after.
  pub delete_key-non_empty_dicts :
      (d : T) (a : ℕ) (n : ℤ) (ix : List ℕ) (key : K) (v : V)
      → dict.find d key ≡ some v
      → dict.size d ≡ 2
      → (d' : T) × (dict.size d' ≡ 1)
        × (kv_store_dict_delete_key dict (one dict eq laws (some d) a n ix) 0 key
            ≡ some (one dict eq laws (some d') a (n +ℤ pos 1) ix, true))
  unfolding kv_store_dict_delete_key kv_store_get_dict after_delete put_dict
      cumulative_key_count_add non_empty_delta
  delete_key-non_empty_dicts d a n ix key v h two =
      let (d', e) = laws.delete_key-present d key v h in
      let counted = laws.size-delete_key d d' key e in
      let left : dict.size d' ≡ 1 = omega arith in (d', left, rw (e, two, left) refl)

  -- Whether the key is there or not, deleting it leaves a store that does not find it.
  pub record Deleted (kvs : KvStore T) (key : K) (c : Option (KvStore T × Bool)) : Type 0 where
    pub store : KvStore T
    pub was_there : Bool
    pub done : c ≡ some (store, was_there)
    pub single : Single dict eq laws store
    pub finds : FindsAt dict eq laws kvs store key none

  missing_finds :
      (kvs : KvStore T) (key : K)
      → kv_store_dict_find dict kvs 0 key ≡ none
      → FindsAt dict eq laws kvs kvs key none
  missing_finds kvs key h j = elim (Bool-cases (eq key j)) [
    | inl e ↦ rw (e, ← ((laws.eq_iff key j).0 e)) h
    | inr e ↦ rw e refl
  ]

  kv_store_dict_delete_key_at :
      (kvs : KvStore T) (key : K)
      → Single dict eq laws kvs
      → (o : Option V) → kv_store_dict_find dict kvs 0 key ≡ o
      → Deleted kvs key (kv_store_dict_delete_key dict kvs 0 key)
  kv_store_dict_delete_key_at kvs key s none h = record {
    store = kvs;
    was_there = false;
    done = kv_store_dict_delete_key-missing kvs key s h;
    single = s;
    finds = missing_finds kvs key h;
  }
  kv_store_dict_delete_key_at kvs key s (some v) h =
      let d = kv_store_dict_delete_key-present kvs key v s h in
      record {
        store = d.store;
        was_there = true;
        done = d.done;
        single = d.single;
        finds = d.finds;
      }

  pub kv_store_dict_delete_key_lem :
      (kvs : KvStore T) (key : K)
      → Single dict eq laws kvs
      → Deleted kvs key (kv_store_dict_delete_key dict kvs 0 key)
  kv_store_dict_delete_key_lem kvs key s =
      kv_store_dict_delete_key_at kvs key s (kv_store_dict_find dict kvs 0 key) refl

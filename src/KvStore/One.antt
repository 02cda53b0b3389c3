-- ===== src/KvStore/One.antt =====
-- The store of one dictionary, and what each of its operations in src/redis/db.c computes to.
use latte_redis_server.Prelude.{
  ℕ, suc, ◌≡◌, refl, List, [], ◌∷◌, Bool, true, false, Option, none, some, arith, ◌+◌, ◌%◌, ◌^◌,
  if◌then◌else◌, Bool-cases, inl, inr,
}
use latte_redis_server.Prelude.Int.{ℤ, pos, negsuc, ◌+ℤ◌}
use latte_redis_server.Dict.{DictApi, DictLaws}
use latte_redis_server.KvStore.{
  KvStore, add_u64, non_empty_delta, kv_store_get_dict, kv_store_create_dict_if_needed, create_dict,
  put_dict, dict_size_at, cumulative_key_count_add, kv_store_dict_find, kv_store_dict_delete_key,
  after_delete, after_add, kv_store_dict_add_raw, kv_store_dict_set_val, find_in,
}

module _ {K V T : Type 0} (dict : DictApi K V T) (eq : K → K → Bool) (laws : DictLaws dict eq) where
  -- A store of one dictionary, which may not be made yet, with its number of keys in `key_count`.
  abbrev pub one : Option T → ℕ → ℤ → List ℕ → KvStore T
  one made allocated non_empty index = record {
    num_dicts = 1;
    dicts = made ∷ [];
    allocated_dicts = allocated;
    non_empty_dicts = non_empty;
    key_count = dict_size_at dict made % 2 ^ 64;
    dict_size_index = index;
  }

  pub record Single (kvs : KvStore T) : Type 0 where
    pub made : Option T
    pub allocated : ℕ
    pub non_empty : ℤ
    pub index : List ℕ
    pub one_lem : kvs ≡ one made allocated non_empty index

  -- The call changes what is found at `key` to `o`, and nothing else.
  abbrev pub FindsAt : KvStore T → KvStore T → K → Option V → Type 0
  FindsAt kvs kvs' key o =
      (j : K)
      → kv_store_dict_find dict kvs' 0 j ≡ (if eq key j then o else kv_store_dict_find dict kvs 0 j)

  add_one : (n : ℕ) → add_u64 (n % 2 ^ 64) (pos 1) ≡ suc n % 2 ^ 64
  add_one n = ground arith

  pub sub_one : (n : ℕ) → add_u64 (suc n % 2 ^ 64) (negsuc 0) ≡ n % 2 ^ 64
  sub_one n = ground arith

  pub find_one :
      (o : Option T) (a : ℕ) (n : ℤ) (ix : List ℕ) (j : K)
      → kv_store_dict_find dict (one o a n ix) 0 j ≡ find_in dict j o
  unfolding kv_store_dict_find kv_store_get_dict
  find_one none a n ix j = refl
  find_one (some d) a n ix j = refl

  -- A dictionary with the entry added is found to have a value at the key.
  find-add :
      (d d' : T) (key : K) (w : V)
      → dict.add_raw d key ≡ some d'
      → dict.find d' key ≡ some w
      → (j : K) → dict.find d' j ≡ (if eq key j then some w else dict.find d j)
  find-add d d' key w h hw j = elim (Bool-cases (eq key j)) [
    | inl e ↦ rw (e, ← ((laws.eq_iff key j).0 e)) hw
    | inr e ↦ rw e (laws.find-add_raw_ne d d' key j h e)
  ]

  after_add_lem :
      (o : Option T) (a : ℕ) (n : ℤ) (ix : List ℕ) (d d' : T) (key : K)
      → dict.size d ≡ dict_size_at dict o
      → dict.add_raw d key ≡ some d'
      → after_add dict (record (one o a n ix) { dicts = some d ∷ [] }) 0 (some d')
        ≡ some (one (some d') a (n +ℤ non_empty_delta (dict.size d')) ix, true)
  unfolding after_add put_dict cumulative_key_count_add kv_store_get_dict
  after_add_lem o a n ix d d' key hs h =
      rw (laws.size-add_raw d d' key h, ← hs, add_one (dict.size d)) refl

  -- What a call that went through leaves: the store is single, and it finds `o` at the key.
  pub record Stored (kvs : KvStore T) (key : K) (o : Option V) (c : Option (KvStore T × Bool))
      : Type 0 where
    pub store : KvStore T
    pub done : c ≡ some (store, true)
    pub single : Single store
    pub finds : FindsAt kvs store key o

  pub add_raw-one :
      (o : Option T) (a : ℕ) (n : ℤ) (ix : List ℕ) (key : K)
      → find_in dict key o ≡ none
      → (w : V) × Stored
          (one o a n ix)
          key
          (some w)
          (kv_store_dict_add_raw dict (one o a n ix) 0 key)
  unfolding kv_store_dict_add_raw kv_store_create_dict_if_needed create_dict kv_store_get_dict
  add_raw-one none a n ix key h =
      let (d', e) = laws.add_raw-fresh dict.new key (laws.find-new key) in
      let (w, hw) = laws.find-add_raw_self dict.new d' key e in
      (
        w,
        record {
          store = one (some d') (a + 1) (n +ℤ non_empty_delta (dict.size d')) ix;
          done = rw e (after_add_lem none (a + 1) n ix dict.new d' key laws.size-new e);
          single = record {
            made = some d';
            allocated = a + 1;
            non_empty = n +ℤ non_empty_delta (dict.size d');
            index = ix;
            one_lem = refl;
          };
          finds = λ j.
              rw
                (
                  find_one (some d') (a + 1) (n +ℤ non_empty_delta (dict.size d')) ix j,
                  find_one none a n ix j,
                  find-add dict.new d' key w e hw j,
                  laws.find-new j,
                )
                refl;
        },
      )
  add_raw-one (some d) a n ix key h =
      let (d', e) = laws.add_raw-fresh d key h in
      let (w, hw) = laws.find-add_raw_self d d' key e in
      (
        w,
        record {
          store = one (some d') a (n +ℤ non_empty_delta (dict.size d')) ix;
          done = rw e (after_add_lem (some d) a n ix d d' key refl e);
          single = record {
            made = some d';
            allocated = a;
            non_empty = n +ℤ non_empty_delta (dict.size d');
            index = ix;
            one_lem = refl;
          };
          finds = λ j.
              rw
                (
                  find_one (some d') a (n +ℤ non_empty_delta (dict.size d')) ix j,
                  find_one (some d) a n ix j,
                )
                (find-add d d' key w e hw j);
        },
      )

  pub delete_key-one :
      (o : Option T) (a : ℕ) (n : ℤ) (ix : List ℕ) (key : K) (v : V)
      → find_in dict key o ≡ some v
      → Stored (one o a n ix) key none (kv_store_dict_delete_key dict (one o a n ix) 0 key)
  unfolding kv_store_dict_delete_key kv_store_get_dict after_delete put_dict
      cumulative_key_count_add
  delete_key-one none a n ix key v h = ground arith
  delete_key-one (some d) a n ix key v h =
      let (d', e) = laws.delete_key-present d key v h in
      record {
        store = one (some d') a (n +ℤ non_empty_delta (dict.size d')) ix;
        done = rw (e, laws.size-delete_key d d' key e, sub_one (dict.size d')) refl;
        single = record {
          made = some d';
          allocated = a;
          non_empty = n +ℤ non_empty_delta (dict.size d');
          index = ix;
          one_lem = refl;
        };
        finds = λ j.
            rw
              (
                find_one (some d') a (n +ℤ non_empty_delta (dict.size d')) ix j,
                find_one (some d) a n ix j,
              )
              (laws.find-delete_key d d' key j e);
      }

  find_set_val :
      (d : T) (a : ℕ) (n : ℤ) (ix : List ℕ) (key : K) (v w : V) (j : K)
      → dict.find d key ≡ some w
      → kv_store_dict_find dict (kv_store_dict_set_val dict (one (some d) a n ix) 0 key v) 0 j
        ≡ (if eq key j then some v else kv_store_dict_find dict (one (some d) a n ix) 0 j)
  unfolding kv_store_dict_set_val kv_store_get_dict put_dict kv_store_dict_find
  find_set_val d a n ix key v w j h = laws.find-set_val d key j v w h

  pub set_val-one :
      (o : Option T) (a : ℕ) (n : ℤ) (ix : List ℕ) (key : K) (v w : V)
      → find_in dict key o ≡ some w
      → Single (kv_store_dict_set_val dict (one o a n ix) 0 key v)
        × FindsAt (one o a n ix) (kv_store_dict_set_val dict (one o a n ix) 0 key v) key (some v)
  unfolding kv_store_dict_set_val kv_store_get_dict put_dict
  set_val-one none a n ix key v w h = ground arith
  set_val-one (some d) a n ix key v w h = (
    record {
      made = some (dict.set_val d key v);
      allocated = a;
      non_empty = n;
      index = ix;
      one_lem = rw (laws.size-set_val d key v) refl;
    },
    λ j. find_set_val d a n ix key v w j h,
  )

  pub existing-one :
      (o : Option T) (a : ℕ) (n : ℤ) (ix : List ℕ) (key : K) (v : V)
      → find_in dict key o ≡ some v
      → kv_store_dict_add_raw dict (one o a n ix) 0 key ≡ some (one o a n ix, false)
  unfolding kv_store_dict_add_raw kv_store_create_dict_if_needed create_dict kv_store_get_dict
      after_add
  existing-one none a n ix key v h = ground arith
  existing-one (some d) a n ix key v h = rw (laws.add_raw-existing d key v h) refl

  pub missing-one :
      (o : Option T) (a : ℕ) (n : ℤ) (ix : List ℕ) (key : K)
      → find_in dict key o ≡ none
      → kv_store_dict_delete_key dict (one o a n ix) 0 key ≡ some (one o a n ix, false)
  unfolding kv_store_dict_delete_key kv_store_get_dict after_delete
  missing-one none a n ix key h = refl
  missing-one (some d) a n ix key h = rw (laws.delete_key-missing d key h) refl

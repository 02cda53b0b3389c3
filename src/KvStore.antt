-- ===== src/KvStore.antt =====
-- `kv_store_t` of src/redis/db.h and its functions in src/redis/db.c: an array of dictionaries that
-- are made on demand, with the counts kept beside them.
pub mod One
pub mod Single
use Prim.Native.Nat.{bit_and}
use latte_redis_server.Prelude.{
  ℕ, zero, suc, ◌+◌, ◌-◌, ◌%◌, ◌^◌, List, [], Bool, true, false, Option, none, some, get_elem?,
  get_or, set, replicate, ltb, leb, ◌==◌, if◌then◌else◌,
}
use latte_redis_server.Prelude.Int.{ℤ, pos, negsuc, pos_part, neg_part, ◌+ℤ◌}
use latte_redis_server.Dict.{DictApi}

-- The fields that the code reads or writes after `kv_store_create`. The counts of machine type
-- `unsigned long long` are taken mod 2^64; `dict_size_index` is empty for one dictionary.
pub record KvStore (T : Type 0) : Type 0 where
  pub num_dicts : ℕ
  pub dicts : List (Option T)
  pub allocated_dicts : ℕ
  pub non_empty_dicts : ℤ
  pub key_count : ℕ
  pub dict_size_index : List ℕ

-- `(unsigned long long)` addition of a `long`
abbrev pub add_u64 : ℕ → ℤ → ℕ
add_u64 n z = (n + pos_part z + (2 ^ 64 - neg_part z)) % 2 ^ 64

-- `idx & -idx` on 32 bits
unfoldable pub low_bit : ℕ → ℕ
low_bit idx = bit_and idx (2 ^ 32 - idx)

-- `while (idx <= num_dicts)` on fuel; `none` is the failed assertion that a count of at least
-- `labs(delta)` is there.
unfoldable pub index_add : ℕ → ℕ → ℕ → ℤ → List ℕ → Option (List ℕ)
index_add zero num_dicts idx delta ix = some ix
index_add (suc fuel) num_dicts idx delta ix =
    let count = get_or ix idx 0 in
    let rest =
      index_add fuel num_dicts (idx + low_bit idx) delta (set ix idx (add_u64 count delta)) in
    if leb idx num_dicts then (if ltb count (neg_part delta) then none else rest) else some ix

-- `dsize == 1 ? 1 : dsize == 0 ? -1 : 0`
unfoldable pub non_empty_delta : ℕ → ℤ
non_empty_delta dsize = if dsize == 1 then pos 1 else if dsize == 0 then negsuc 0 else pos 0

-- `get_kv_store_index_for_key`
unfoldable pub get_kv_store_index_for_key : List ℕ → ℕ
get_kv_store_index_for_key key = 0

abbrev pub flatten_entry {ℓ} : {A : Type ℓ} → Option (Option A) → Option A
flatten_entry none = none
flatten_entry (some o) = o

module _ {K V T : Type 0} (dict : DictApi K V T) where
  -- `kvs->dicts[didx]`, which is NULL until it is made
  unfoldable pub kv_store_get_dict : KvStore T → ℕ → Option T
  kv_store_get_dict kvs didx = flatten_entry (get_elem? kvs.dicts didx)

  -- The dictionary at `didx`, made if it is not there, and the store with it.
  unfoldable pub create_dict : KvStore T → ℕ → Option T → T × KvStore T
  create_dict kvs didx (some d) = (d, kvs)
  create_dict kvs didx none = (
    dict.new,
    record kvs {
      dicts = set kvs.dicts didx (some dict.new);
      allocated_dicts = kvs.allocated_dicts + 1;
    },
  )

  unfoldable pub kv_store_create_dict_if_needed : KvStore T → ℕ → T × KvStore T
  kv_store_create_dict_if_needed kvs didx = create_dict kvs didx (kv_store_get_dict kvs didx)

  -- `kvs->dicts[didx]` after a call that changed the dictionary in place
  unfoldable pub put_dict : KvStore T → ℕ → T → KvStore T
  put_dict kvs didx d = record kvs { dicts = set kvs.dicts didx (some d) }

  abbrev pub dict_size_at : Option T → ℕ
  dict_size_at none = 0
  dict_size_at (some d) = dict.size d

  unfoldable pub with_index : KvStore T → Option (List ℕ) → Option (KvStore T)
  with_index kvs none = none
  with_index kvs (some ix) = some (record kvs { dict_size_index = ix })

  -- `none` is a failed assertion.
  unfoldable pub cumulative_key_count_add : KvStore T → ℕ → ℤ → Option (KvStore T)
  unfolding with_index
  cumulative_key_count_add kvs didx delta =
      let dsize = dict_size_at (kv_store_get_dict kvs didx) in
      let counted = record kvs {
        key_count = add_u64 kvs.key_count delta;
        non_empty_dicts = kvs.non_empty_dicts +ℤ non_empty_delta dsize;
      } in
      let indexed =
        with_index counted
          (index_add (suc kvs.num_dicts) kvs.num_dicts (didx + 1) delta kvs.dict_size_index) in
      if kvs.num_dicts == 1 then some counted else indexed

  abbrev find_in : K → Option T → Option V
  find_in key none = none
  find_in key (some d) = dict.find d key

  unfoldable pub kv_store_dict_find : KvStore T → ℕ → K → Option V
  kv_store_dict_find kvs didx key = find_in key (kv_store_get_dict kvs didx)

  -- An outcome of a call that may fail an assertion (`none`): the store, and whether the
  -- dictionary did what was asked.
  abbrev pub Change : Type 0
  Change = Option (KvStore T × Bool)

  abbrev pub succeeded : Option (KvStore T) → Change
  succeeded none = none
  succeeded (some kvs) = some (kvs, true)

  unfoldable pub after_delete : KvStore T → ℕ → Option T → Change
  after_delete kvs didx none = some (kvs, false)
  after_delete kvs didx (some d) =
      succeeded (cumulative_key_count_add (put_dict kvs didx d) didx (negsuc 0))

  unfoldable pub delete_in : KvStore T → ℕ → K → Option T → Change
  unfolding after_delete
  delete_in kvs didx key none = some (kvs, false)
  delete_in kvs didx key (some d) = after_delete kvs didx (dict.delete_key d key)

  unfoldable pub kv_store_dict_delete_key : KvStore T → ℕ → K → Change
  unfolding delete_in
  kv_store_dict_delete_key kvs didx key = delete_in kvs didx key (kv_store_get_dict kvs didx)

  unfoldable pub after_add : KvStore T → ℕ → Option T → Change
  after_add kvs didx none = some (kvs, false)
  after_add kvs didx (some d) =
      succeeded (cumulative_key_count_add (put_dict kvs didx d) didx (pos 1))

  unfoldable pub kv_store_dict_add_raw : KvStore T → ℕ → K → Change
  unfolding after_add
  kv_store_dict_add_raw kvs didx key =
      let (d, kvs') = kv_store_create_dict_if_needed kvs didx in
      after_add kvs' didx (dict.add_raw d key)

  abbrev set_val_in : KvStore T → ℕ → K → V → Option T → KvStore T
  set_val_in kvs didx key v none = kvs
  set_val_in kvs didx key v (some d) = put_dict kvs didx (dict.set_val d key v)

  -- The entry is the one that `key` was found or added at.
  unfoldable pub kv_store_dict_set_val : KvStore T → ℕ → K → V → KvStore T
  kv_store_dict_set_val kvs didx key v = set_val_in kvs didx key v (kv_store_get_dict kvs didx)

  -- `kv_store_create`: `none` is the failed assertion on `num_dicts_bits`; the flag is
  -- `KVSTORE_ALLOCATE_DICTS_ON_DEMAND`. `allocated_dicts` starts at 0 by `zcalloc`.
  unfoldable pub kv_store_create : ℕ → Bool → Option (KvStore T)
  kv_store_create num_dicts_bits on_demand =
      let n = 2 ^ num_dicts_bits in
      if leb num_dicts_bits 16
      then some (record {
        num_dicts = n;
        dicts = replicate n (if on_demand then none else some dict.new);
        allocated_dicts = if on_demand then 0 else n;
        non_empty_dicts = pos 0;
        key_count = 0;
        dict_size_index = if ltb 1 n then replicate (n + 1) 0 else [];
      })
      else none

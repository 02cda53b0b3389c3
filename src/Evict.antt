-- ===== src/Evict.antt =====
-- src/redis/evict.c: the pool of candidates for eviction. The file is a draft that is not built yet, and
-- reads the server through a pointer with `.`; it is taken as meant.
pub mod View
pub mod Insert
pub mod Offer
pub mod Shift
pub mod Refine
mod Tests
use Prim.Native.Nat.{bit_and}
use latte_redis_server.Prelude.{
  ℕ, zero, suc, ◌+◌, ◌-◌, ◌*◌, ◌^◌, ◌%◌, List, [], ◌∷◌, ◌++◌, Bool, true, false, not, ◌&&◌, Option,
  none, some, ltb, leb, ◌==◌, if◌then◌else◌, length, get_elem?, set, take, drop, replicate,
}
use latte_redis_server.ListApi.{but_last}
use latte_redis_server.Db.{maxmemory_flag_lfu}

abbrev pub evpool_size : ℕ
evpool_size = 16

abbrev pub evpool_cached_sds_size : ℕ
evpool_cached_sds_size = 255

-- A key: an `sds` of its own, or the cached one of the number.
pub data Key : Type 0 where
  own : List ℕ → Key
  cached_sds : ℕ → Key

-- `eviction_pool_entry_t`; `slot` is never set. `cached` is the number of a cached `sds`, and a key
-- that is NULL is `none`.
pub record PoolEntry : Type 0 where
  pub idle : ℕ
  pub key : Option Key
  pub cached : ℕ
  pub dbid : ℕ

-- The array, and what the cached strings hold.
pub record Pool : Type 0 where
  pub entries : List PoolEntry
  pub caches : ℕ → List ℕ

abbrev pub from_number : ℕ → ℕ → List PoolEntry
from_number zero j = []
from_number (suc n) j =
    record { idle = 0; key = none; cached = j; dbid = 0 } ∷ from_number n (j + 1)

-- `blank` is what `sds_new_len(NULL, 255)` holds.
unfoldable pub eviction_pool_alloc : List ℕ → Pool
eviction_pool_alloc blank = record { entries = from_number evpool_size 0; caches = λ i. blank }

-- `LRU_CLOCK_MAX` is the object library's.
unfoldable pub estimate_object_idle_time : ℕ → ℕ → ℕ → ℕ
estimate_object_idle_time lru_clock_max lruclock lru =
    if leb lru lruclock
    then (lruclock - lru) * 1000 % 2 ^ 64
    else (lruclock + (lru_clock_max - lru)) * 1000 % 2 ^ 64

abbrev pub maxmemory_flag_lru : ℕ
maxmemory_flag_lru = 2 ^ 0

abbrev pub maxmemory_volatile_ttl : ℕ
maxmemory_volatile_ttl = 2 * 2 ^ 8

-- What a sampled key is scored by: the access clock and the counter of the object, and the number kept in
-- the entry of the times of expiry.
pub record Sample : Type 0 where
  pub key : List ℕ
  pub lru : ℕ
  pub lfu_counter : ℕ
  pub ttl : ℕ

-- The score; `none` is the panic on an unknown policy. The counter is a byte.
unfoldable pub score : ℕ → ℕ → ℕ → Sample → Option ℕ
unfolding estimate_object_idle_time
score policy lru_clock_max lruclock s =
    if not (bit_and policy maxmemory_flag_lru == 0)
    then some (estimate_object_idle_time lru_clock_max lruclock s.lru)
    else if not (bit_and policy maxmemory_flag_lfu == 0)
    then some (255 - s.lfu_counter)
    else if policy == maxmemory_volatile_ttl
    then some ((2 ^ 64 - 1 + (2 ^ 64 - s.ttl)) % 2 ^ 64)
    else none

-- A key with its score.
pub record Candidate : Type 0 where
  pub idle : ℕ
  pub key : List ℕ
  pub dbid : ℕ

abbrev pub has_key : Option Key → Bool
has_key none = false
has_key (some k) = true

-- Whether a place of the pool is there and taken.
abbrev pub used : Option PoolEntry → Bool
used none = false
used (some e) = has_key e.key

abbrev pub cached_at : Option PoolEntry → ℕ
cached_at none = 0
cached_at (some e) = e.cached

-- `while (k < EVPOOL_SIZE && pool[k].key && pool[k].idle < idle) k++`
unfoldable pub position : List PoolEntry → ℕ → ℕ
position [] idle = 0
position (e ∷ es) idle =
    let rest = position es idle in if has_key e.key && ltb e.idle idle then suc rest else 0

abbrev pub put : (ℕ → List ℕ) → ℕ → List ℕ → ℕ → List ℕ
put caches i s j = if i == j then s else caches j

-- The entry that is set in the end, with the cached string of the number.
unfoldable pub new_entry : Candidate → ℕ → PoolEntry
new_entry x cached = record {
  idle = x.idle;
  key = some (if ltb evpool_cached_sds_size (length x.key) then own x.key else cached_sds cached);
  cached = cached;
  dbid = x.dbid;
}

unfoldable pub new_caches : Candidate → ℕ → (ℕ → List ℕ) → ℕ → List ℕ
new_caches x cached caches =
    if ltb evpool_cached_sds_size (length x.key) then caches else put caches cached x.key

unfoldable pub insert_at : Candidate → ℕ → ℕ → List PoolEntry → (ℕ → List ℕ) → Pool
unfolding new_entry new_caches
insert_at x k cached entries caches = record {
  entries = set entries k (new_entry x cached);
  caches = new_caches x cached caches;
}

-- `memmove(pool + k + 1, pool + k, sizeof(pool[0]) * (EVPOOL_SIZE - k - 1))`
unfoldable pub shift_right : ℕ → List PoolEntry → List PoolEntry
shift_right k entries = take (k + 1) entries ++ but_last (drop k entries)

-- `memmove(pool, pool + 1, sizeof(pool[0]) * k)`
unfoldable pub shift_left : ℕ → List PoolEntry → List PoolEntry
shift_left k entries = take k (drop 1 entries) ++ drop k entries

-- A round of `eviction_pool_populate` with a key that has been scored.
unfoldable pub offer : Pool → Candidate → Pool
unfolding position insert_at shift_right shift_left
offer pool x =
    let es = pool.entries in
    let k = position es x.idle in
    let full = used (get_elem? es (evpool_size - 1)) in
    if (k == 0) && full
    then pool
    else if ltb k evpool_size && not (used (get_elem? es k))
    then insert_at x k (cached_at (get_elem? es k)) es pool.caches
    else if not full
    then insert_at x k (cached_at (get_elem? es (evpool_size - 1))) (shift_right k es) pool.caches
    else insert_at x (k - 1) (cached_at (get_elem? es 0)) (shift_left (k - 1) es) pool.caches

abbrev pub offered : ℕ → Pool → Sample → Option ℕ → Option Pool
offered dbid pool s none = none
offered dbid pool s (some idle) =
    some (offer pool (record { idle = idle; key = s.key; dbid = dbid }))

abbrev pub next_sample : (Pool → Option Pool) → Option Pool → Option Pool
next_sample next none = none
next_sample next (some pool) = next pool

-- The loop over the sampled keys; `none` is a panic.
unfoldable pub eviction_pool_populate : ℕ → ℕ → ℕ → ℕ → List Sample → Pool → Option Pool
unfolding offer score
eviction_pool_populate policy lru_clock_max lruclock dbid [] pool = some pool
eviction_pool_populate policy lru_clock_max lruclock dbid (s ∷ samples) pool =
    next_sample (eviction_pool_populate policy lru_clock_max lruclock dbid samples)
      (offered dbid pool s (score policy lru_clock_max lruclock s))

-- ===== src/Evict/Tests.antt =====
-- The pool of candidates at concrete inputs.
use latte_redis_server.Prelude.{
  ℕ, ◌^◌, ◌-◌, ◌≡◌, refl, List, [], ◌∷◌, Option, some, replicate, ◌++◌, none, ◌*◌,
}
use latte_redis_server.Object.{codes}
use latte_redis_server.Evict.{
  Candidate, Sample, Pool, eviction_pool_alloc, eviction_pool_populate, score,
  estimate_object_idle_time, maxmemory_flag_lru,
}
use latte_redis_server.Evict.View.{view}
use latte_redis_server.Evict.Refine.{
  Populated, best_candidates, eviction_pool_populate_lem, eviction_pool_alloc-Sound,
}

abbrev lru_clock_max : ℕ
lru_clock_max = 2 ^ 24 - 1

abbrev sampled : ℕ → List ℕ → Sample
sampled lru key = record { key = key; lru = lru; lfu_counter = 0; ttl = 0 }

abbrev three : List Sample
three = sampled 90 (codes "b") ∷ sampled 95 (codes "a") ∷ sampled 92 (replicate 300 7) ∷ []

-- A full pool of equal scores, then a key that is older and one that is younger.
abbrev more : List Sample
more =
    replicate 16 (sampled 90 (codes "b")) ++ (sampled 80 (codes "c") ∷ sampled 99 (codes "d") ∷ [])

abbrev keys : List Candidate → List (List ℕ)
keys [] = []
keys (y ∷ ys) = y.key ∷ keys ys

abbrev shown : Option Pool → List (List ℕ)
shown none = []
shown (some pool) = keys (view pool.caches pool.entries)

in_order :
    shown
      (eviction_pool_populate maxmemory_flag_lru lru_clock_max 100 0 three (eviction_pool_alloc []))
    ≡ codes "a" ∷ replicate 300 7 ∷ codes "b" ∷ []
unfolding eviction_pool_populate eviction_pool_alloc
in_order = refl

first_goes :
    shown
      (eviction_pool_populate maxmemory_flag_lru lru_clock_max 100 0 more (eviction_pool_alloc []))
    ≡ replicate 15 (codes "b") ++ (codes "c" ∷ [])
unfolding eviction_pool_populate eviction_pool_alloc
first_goes = refl

-- The clock has gone round.
idle_wraps : estimate_object_idle_time 100 10 95 ≡ 15000
unfolding estimate_object_idle_time
idle_wraps = refl

no_score : score (7 * 2 ^ 8) lru_clock_max 100 (sampled 90 []) ≡ none
unfolding score
no_score = refl

eviction_pool_populate_example :
    Populated
      (eviction_pool_populate maxmemory_flag_lru lru_clock_max 100 0 more (eviction_pool_alloc []))
      (best_candidates maxmemory_flag_lru lru_clock_max 100 0 more
        (view (eviction_pool_alloc []).caches (eviction_pool_alloc []).entries))
eviction_pool_populate_example =
    eviction_pool_populate_lem maxmemory_flag_lru lru_clock_max 100 0 more (eviction_pool_alloc [])
      (eviction_pool_alloc-Sound [])

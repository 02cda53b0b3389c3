-- ===== src/Evict/Refine.antt =====
-- A pool against the list of its candidates: a round of the loop, and the loop.
use latte_redis_server.Prelude.{
  Option-cases, ℕ, zero, suc, ◌+◌, ◌≤◌, ◌≡◌, refl, sym, ap, ◌∙◌, List, [], ◌∷◌, ◌++◌, Option, none,
  some, length, arith, append-nil, Bool-cases, inl, inr, ltb, ltb→lt, ◌<◌,
}
use mathlib.Core.Path.{subst}
use latte_redis_server.Evict.{
  PoolEntry, Pool, Sample, Candidate, position, offer, score, eviction_pool_populate,
  eviction_pool_alloc, from_number, evpool_size,
}
use latte_redis_server.Evict.View.{
  view, insert, same, count, KeysOk, AllUsed, AllUnused, position-SplitAt,
}
use latte_redis_server.Evict.Insert.{Sound, keep}
use latte_redis_server.Evict.Offer.{Kept, pool_of, skip-Kept, place-Kept}
use latte_redis_server.Evict.Shift.{right-Kept, left-Kept}

module _ (caches : ℕ → List ℕ) (x : Candidate) where
  abbrev KeptOf : List PoolEntry → Type 0
  KeptOf es = Kept (pool_of caches x es) x (offer (pool_of caches x es) x)

  parts-KeptOf :
      (front back vs : List PoolEntry)
      → AllUsed (front ++ back)
      → AllUnused vs
      → length (front ++ back) + length vs ≡ 16
      → KeysOk (front ++ back)
      → ((i : ℕ) → count i (front ++ back) + count i vs ≤ 1)
      → length front ≡ position (front ++ back) x.idle
      → insert x (view caches (front ++ back)) ≡ view caches front ++ (x ∷ view caches back)
      → KeptOf ((front ++ back) ++ vs)
  parts-KeptOf [] back [] all free len keys once at spec = subst KeptOf (sym (append-nil back)) (
      skip-Kept caches x back
        (record {
          us = back;
          vs = [];
          entries_lem = sym (append-nil back);
          all_used = all;
          all_unused = free;
          size_lem = len;
          keys = keys;
          once = once;
        })
        all (omega (arith, len)) at spec)
  parts-KeptOf (e ∷ a) back [] all free len keys once at spec =
      subst KeptOf (sym (append-nil (e ∷ (a ++ back)))) (
        left-Kept caches x e a back all (omega (arith, len)) keys (λ i. omega (arith, once i)) at
          spec)
  parts-KeptOf front [] (v ∷ vs) all free len keys once at spec =
      place-Kept caches x (front ++ []) v vs all free len keys once
        (ap length (append-nil front) ∙ at)
        (spec ∙ ap (λ l. view caches l ++ (x ∷ [])) (sym (append-nil front)))
  parts-KeptOf front (e ∷ back) (v ∷ vs) all free len keys once at spec =
      right-Kept caches x front e back v vs all free len keys once at spec

  offer-KeptOf : (es : List PoolEntry) → Sound (pool_of caches x es) → KeptOf es
  offer-KeptOf es s =
      let r = position-SplitAt caches x s.us s.all_used in
      subst KeptOf (sym s.entries_lem) (
        subst (λ u. KeptOf (u ++ s.vs)) (sym r.split)
          (parts-KeptOf r.front r.back s.vs (subst AllUsed r.split s.all_used) s.all_unused
            (subst (λ u. length u + length s.vs ≡ 16) r.split s.size_lem)
            (subst KeysOk r.split s.keys)
            (λ i. subst (λ u. count i u + count i s.vs ≤ 1) r.split (s.once i))
            (r.at ∙ ap (λ u. position u x.idle) r.split)
            (ap (λ u. insert x (view caches u)) (sym r.split) ∙ r.spec)))

pub offer_lem : (pool : Pool) (x : Candidate) → Sound pool → Kept pool x (offer pool x)
offer_lem pool x s = offer-KeptOf pool.caches x pool.entries s

-- The loop on a list of candidates.
abbrev with_candidate : ℕ → Sample → List Candidate → Option ℕ → Option (List Candidate)
with_candidate dbid s ys none = none
with_candidate dbid s ys (some idle) =
    some (keep (insert (record { idle = idle; key = s.key; dbid = dbid }) ys))

abbrev next_candidates :
    (List Candidate → Option (List Candidate)) → Option (List Candidate) → Option (List Candidate)
next_candidates next none = none
next_candidates next (some ys) = next ys

unfoldable pub best_candidates :
    ℕ → ℕ → ℕ → ℕ → List Sample → List Candidate → Option (List Candidate)
best_candidates policy lru_clock_max lruclock dbid [] ys = some ys
best_candidates policy lru_clock_max lruclock dbid (s ∷ samples) ys =
    next_candidates (best_candidates policy lru_clock_max lruclock dbid samples)
      (with_candidate dbid s ys (score policy lru_clock_max lruclock s))

-- A panic on both sides, or a sound pool that shows the candidates.
unfoldable pub Populated : Option Pool → Option (List Candidate) → Type 0
Populated none none = 0 ≤ 0
Populated none (some ys) = 1 ≤ 0
Populated (some pool) none = 1 ≤ 0
Populated (some pool) (some ys) = Sound pool × (view pool.caches pool.entries ≡ ys)

-- Whatever the keys that are sampled, the loop on a sound pool and the loop on the list of the pool's
-- candidates, where a key goes in front of those whose score is not below its own and the first candidate
-- goes when there are more than 16, both panic, or the pool is sound and shows the candidates of the list.
-- A pool is sound when it has 16 places, the taken ones in front, a key that is in a cached `sds` is in that
-- of its own place, and no two places have the same cached `sds`.
pub eviction_pool_populate_lem :
    (policy lru_clock_max lruclock dbid : ℕ) (samples : List Sample) (pool : Pool)
    → Sound pool
    → Populated
        (eviction_pool_populate policy lru_clock_max lruclock dbid samples pool)
        (best_candidates policy lru_clock_max lruclock dbid samples (view pool.caches pool.entries))
unfolding eviction_pool_populate best_candidates Populated
eviction_pool_populate_lem policy lru_clock_max lruclock dbid [] pool s = (s, refl)
eviction_pool_populate_lem policy lru_clock_max lruclock dbid (t ∷ samples) pool s =
    elim (Option-cases (score policy lru_clock_max lruclock t)) [
      | inl e ↦ rw e (omega arith)
      | inr (idle, e) ↦
          let x : Candidate = record { idle = idle; key = t.key; dbid = dbid } in
          let kept = offer_lem pool x s in
          rw (e, ← kept.shows)
            (eviction_pool_populate_lem policy lru_clock_max lruclock dbid samples (offer pool x)
              kept.sound)
    ]

-- The pool that is allocated.
from_number-AllUnused : (n j : ℕ) → AllUnused (from_number n j)
from_number-AllUnused zero j = omega arith
from_number-AllUnused (suc n) j = (refl, from_number-AllUnused n (j + 1))

from_number-below : (n j i : ℕ) → i < j → count i (from_number n j) ≡ 0
from_number-below zero j i h = refl
from_number-below (suc n) j i h =
    let other : same j i ≡ 0 = ground arith in
    omega (arith, other, from_number-below n (j + 1) i (omega arith))

from_number-count : (n j i : ℕ) → count i (from_number n j) ≤ 1
from_number-count zero j i = omega arith
from_number-count (suc n) j i = elim (Bool-cases (ltb i (j + 1))) [
  | inl b ↦
      let rest = from_number-below n (j + 1) i (ltb→lt i (j + 1) b) in
      let one : same j i ≤ 1 = ground arith in omega (arith, rest, one)
  | inr b ↦
      let other : same j i ≡ 0 = ground arith in omega (arith, other, from_number-count n (j + 1) i)
]

pub eviction_pool_alloc-Sound : (blank : List ℕ) → Sound (eviction_pool_alloc blank)
unfolding eviction_pool_alloc
eviction_pool_alloc-Sound blank = record {
  us = [];
  vs = from_number evpool_size 0;
  entries_lem = refl;
  all_used = omega arith;
  all_unused = from_number-AllUnused evpool_size 0;
  size_lem = refl;
  keys = omega arith;
  once = λ i. omega (arith, from_number-count evpool_size 0 i);
}

-- ===== src/Evict/Offer.antt =====
-- What a pool holds after a candidate has been offered to it.
use latte_redis_server.Prelude.{
  ℕ, ◌+◌, ◌-◌, ◌≤◌, ◌<◌, ◌≡◌, refl, sym, ap, ◌∙◌, List, [], ◌∷◌, ◌++◌, Bool, true, false, not, ◌&&◌,
  ltb, ◌==◌, length, get_elem?, arith, append-nil, lt→ltb,
}
use mathlib.Core.Path.{subst}
use latte_redis_server.Evict.{
  PoolEntry, Pool, Candidate, has_key, used, cached_at, position, new_entry, new_caches, insert_at,
  shift_right, shift_left, offer, evpool_size,
}
use latte_redis_server.Evict.View.{
  view, insert, count, KeysOk, AllUsed, AllUnused, view-append, view-AllUnused, position-append,
}
use latte_redis_server.Evict.Insert.{
  Sound, keep, Settled, settled, set-append, get_elem?-append, length-view, length-insert,
  keep-full, keep-room, last-free, used-taken,
}

pub and_false : (b : Bool) → (b && false) ≡ false
and_false true = refl
and_false false = refl

-- The branches of a round.
module _ (pool : Pool) (x : Candidate) where
  abbrev pub k : ℕ
  k = position pool.entries x.idle

  abbrev pub full : Bool
  full = used (get_elem? pool.entries (evpool_size - 1))

  offer-skip : ((k == 0) && full) ≡ true → offer pool x ≡ pool
  unfolding offer
  offer-skip h = rw h refl

  offer-place :
      ((k == 0) && full) ≡ false
      → (ltb k evpool_size && not (used (get_elem? pool.entries k))) ≡ true
      → offer pool x ≡ insert_at x k (cached_at (get_elem? pool.entries k)) pool.entries pool.caches
  unfolding offer
  offer-place h g = rw (h, g) refl

  pub offer-right :
      ((k == 0) && full) ≡ false
      → (ltb k evpool_size && not (used (get_elem? pool.entries k))) ≡ false
      → full ≡ false
      → offer pool x
        ≡ insert_at x k
            (cached_at (get_elem? pool.entries (evpool_size - 1)))
            (shift_right k pool.entries)
            pool.caches
  unfolding offer
  offer-right h g f = rw (h, g, f) refl

  pub offer-left :
      ((k == 0) && full) ≡ false
      → (ltb k evpool_size && not (used (get_elem? pool.entries k))) ≡ false
      → full ≡ true
      → offer pool x
        ≡ insert_at x
            (k - 1)
            (cached_at (get_elem? pool.entries 0))
            (shift_left (k - 1) pool.entries)
            pool.caches
  unfolding offer
  offer-left h g f = rw (h, g, f) refl

-- The pool is still sound, and holds the best of its candidates and the new one.
pub record Kept (pool : Pool) (x : Candidate) (after : Pool) : Type 0 where
  pub sound : Sound after
  pub shows : view after.caches after.entries ≡ keep (insert x (view pool.caches pool.entries))

module _ (caches : ℕ → List ℕ) (x : Candidate) where
  abbrev pub pool_of : List PoolEntry → Pool
  pool_of es = record { entries = es; caches = caches }

  -- All places are taken, and the candidate is not better than any.
  pub skip-Kept :
      (us : List PoolEntry)
      → Sound (pool_of us)
      → AllUsed us
      → length us ≡ 16
      → 0 ≡ position us x.idle
      → insert x (view caches us) ≡ x ∷ view caches us
      → Kept (pool_of us) x (offer (pool_of us) x)
  skip-Kept us sound all len at spec =
      let taken =
        subst (λ l. used (get_elem? l 15) ≡ true) (append-nil us)
          (used-taken us [] 15 all (omega (arith, len))) in
      subst (λ q. Kept (pool_of us) x q) (sym (offer-skip (pool_of us) x (rw (← at, taken) refl)))
        (record {
          sound = sound;
          shows = sym (
              ap keep spec
              ∙ keep-full (x ∷ view caches us) (omega (arith, len, length-view caches us all)));
        })

  -- A place is free: the candidates are those before, and the new one.
  pub room-Kept :
      (us : List PoolEntry) (v : PoolEntry) (vs a r : List PoolEntry) (after : Pool)
      → AllUsed us
      → AllUnused (v ∷ vs)
      → length us + length (v ∷ vs) ≡ 16
      → insert x (view caches us) ≡ view caches a ++ (x ∷ view caches r)
      → Settled x caches a r after
      → Kept (pool_of (us ++ (v ∷ vs))) x after
  room-Kept us v vs a r after all none_used len spec t =
      let same_view =
        view-append caches us (v ∷ vs)
        ∙ ap (λ l. view caches us ++ l) (view-AllUnused caches (v ∷ vs) none_used)
        ∙ append-nil (view caches us) in
      record {
        sound = t.sound;
        shows =
            t.shows
            ∙ sym spec
            ∙ sym (
                ap (λ l. keep (insert x l)) same_view
                ∙ keep-room (insert x (view caches us)) (
                    omega
                      (arith, len, length-insert x (view caches us), length-view caches us all)));
      }

  pub place-Kept :
      (us : List PoolEntry) (v : PoolEntry) (vs : List PoolEntry)
      → AllUsed us
      → AllUnused (v ∷ vs)
      → length us + length (v ∷ vs) ≡ 16
      → KeysOk us
      → ((i : ℕ) → count i us + count i (v ∷ vs) ≤ 1)
      → length us ≡ position us x.idle
      → insert x (view caches us) ≡ view caches us ++ (x ∷ [])
      → Kept (pool_of (us ++ (v ∷ vs))) x (offer (pool_of (us ++ (v ∷ vs))) x)
  unfolding insert_at
  place-Kept us v vs all free len keys once at spec =
      let es = us ++ (v ∷ vs) in
      let at' : position es x.idle ≡ length us = position-append us (v ∷ vs) x.idle free ∙ sym at in
      let below : length us < 16 = omega (arith, len) in
      let first = last-free us v vs 15 free (omega (arith, len)) in
      let here = get_elem?-append us v vs in
      let unused : used (get_elem? es (length us)) ≡ false = ap used here ∙ ap has_key free.0 in
      let eq =
        offer-place (pool_of es) x (rw first (and_false (position es x.idle == 0)))
          (rw (at', unused, lt→ltb (length us) 16 below) refl)
        ∙ ap (λ i. insert_at x i (cached_at (get_elem? es i)) es caches) at'
        ∙ ap (λ o. insert_at x (length us) (cached_at o) es caches) here
        ∙ ap (λ l. record { entries = l; caches = new_caches x v.cached caches })
            (set-append us v (new_entry x v.cached) vs) in
      subst (λ q. Kept (pool_of es) x q) (sym eq)
        (room-Kept us v vs us [] _ all free len spec (
          settled x caches v.cached us [] vs all (omega arith) free.1 keys (omega arith)
            (omega (arith, len)) (λ i. omega (arith, once i))))

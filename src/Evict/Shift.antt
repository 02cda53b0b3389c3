-- ===== src/Evict/Shift.antt =====
-- A candidate put between others: those on one side of it are moved.
use latte_redis_server.Prelude.{
  ℕ, suc, ◌+◌, ◌-◌, ◌≤◌, ◌≡◌, refl, sym, ap, ◌∙◌, List, [], ◌∷◌, ◌++◌, true, false, not, ◌&&◌, some,
  ltb, ◌==◌, length, get_elem?, set, drop, arith, append_assoc, append-nil, length-append, ltb→lt,
  Bool-cases, inl, inr,
}
use mathlib.Core.Path.{subst}
use latte_redis_server.Evict.{
  PoolEntry, Candidate, has_key, used, cached_at, position, new_entry, new_caches, insert_at,
  shift_right, shift_left, offer,
}
use latte_redis_server.Evict.View.{
  view, insert, count, KeysOk, AllUsed, AllUnused, count-append, KeysOk-split, position-append,
}
use latte_redis_server.Evict.Insert.{
  settled, AllUsed-split, AllUnused-split, set-append, get_elem?-append, shift_right-append,
  shift_left-append, snoc, length-view, length-insert, keep-full, last-free, used-taken,
}
use latte_redis_server.Evict.View.{key_cases}
use latte_redis_server.Evict.Offer.{
  Kept, pool_of, full, offer-right, offer-left, room-Kept, and_false,
}

module _ (caches : ℕ → List ℕ) (x : Candidate) where
  pub right-Kept :
      (front : List PoolEntry) (e : PoolEntry) (back : List PoolEntry) (v : PoolEntry)
      (vs : List PoolEntry)
      → AllUsed (front ++ (e ∷ back))
      → AllUnused (v ∷ vs)
      → length (front ++ (e ∷ back)) + length (v ∷ vs) ≡ 16
      → KeysOk (front ++ (e ∷ back))
      → ((i : ℕ) → count i (front ++ (e ∷ back)) + count i (v ∷ vs) ≤ 1)
      → length front ≡ position (front ++ (e ∷ back)) x.idle
      → insert x (view caches (front ++ (e ∷ back)))
        ≡ view caches front ++ (x ∷ view caches (e ∷ back))
      → Kept
          (pool_of caches x ((front ++ (e ∷ back)) ++ (v ∷ vs)))
          x
          (offer (pool_of caches x ((front ++ (e ∷ back)) ++ (v ∷ vs))) x)
  unfolding insert_at shift_right
  right-Kept front e back v vs all free len keys once at spec =
      let us = front ++ (e ∷ back) in
      let es = us ++ (v ∷ vs) in
      let (w, z, last) = snoc v vs in
      let lens = length-append front (e ∷ back) in
      let ends : length (v ∷ vs) ≡ length w + 1 = ap length last ∙ length-append w (z ∷ []) in
      let at' : position es x.idle ≡ length front =
        position-append us (v ∷ vs) x.idle free ∙ sym at in
      let first = last-free us v vs 15 free (omega (arith, len)) in
      let taken = used-taken us (v ∷ vs) (length front) all (omega (arith, lens)) in
      let es' : es ≡ front ++ (e ∷ ((back ++ w) ++ (z ∷ []))) =
        ap (λ l. us ++ l) last
        ∙ append_assoc front (e ∷ back) (w ++ (z ∷ []))
        ∙ ap (λ l. front ++ (e ∷ l)) (sym (append_assoc back w (z ∷ []))) in
      let before = front ++ (e ∷ (back ++ w)) in
      let size : 15 ≡ length before =
        omega
          (arith, len, lens, ends, length-append front (e ∷ (back ++ w)), length-append back w) in
      let there : get_elem? es 15 ≡ some z =
        ap (λ l. get_elem? l 15) (es' ∙ sym (append_assoc front (e ∷ (back ++ w)) (z ∷ [])))
        ∙ ap (λ i. get_elem? (before ++ (z ∷ [])) i) size
        ∙ get_elem?-append before z [] in
      let shifted : shift_right (length front) es ≡ front ++ (e ∷ e ∷ (back ++ w)) =
        ap (shift_right (length front)) es' ∙ shift_right-append front (back ++ w) e z in
      let eq =
        offer-right (pool_of caches x es) x (rw first (and_false (position es x.idle == 0)))
          (rw (at', taken) (and_false (ltb (length front) 16))) first
        ∙ ap (λ i. insert_at x i (cached_at (get_elem? es 15)) (shift_right i es) caches) at'
        ∙ ap (λ o. insert_at x (length front) (cached_at o) (shift_right (length front) es) caches)
            there
        ∙ ap
            (λ l. record {
              entries = set l (length front) (new_entry x z.cached);
              caches = new_caches x z.cached caches;
            })
            shifted
        ∙ ap (λ l. record { entries = l; caches = new_caches x z.cached caches })
            (set-append front e (new_entry x z.cached) (e ∷ (back ++ w))) in
      let used_parts = AllUsed-split front (e ∷ back) all in
      let key_parts = KeysOk-split front (e ∷ back) keys in
      let unused = AllUnused-split w (z ∷ []) (subst AllUnused last free) in
      subst (λ q. Kept (pool_of caches x es) x q) (sym eq)
        (room-Kept caches x us v vs front (e ∷ back) _ all free len spec (
          settled x caches z.cached front (e ∷ back) w used_parts.0 used_parts.1 unused.0
            key_parts.0 key_parts.1 (omega (arith, len, lens, ends))
            (λ i. omega (
              arith,
              once i,
              count-append i front (e ∷ back),
              ap (count i) last,
              count-append i w (z ∷ []),
            ))))

  full_pool :
      (us : List PoolEntry) → AllUsed us → length us ≡ 16 → full (pool_of caches x us) x ≡ true
  full_pool us all len =
      subst (λ l. used (get_elem? l 15) ≡ true) (append-nil us)
        (used-taken us [] 15 all (omega (arith, len)))

  all_taken :
      (us : List PoolEntry) (i : ℕ)
      → AllUsed us
      → length us ≡ 16
      → (ltb i 16 && not (used (get_elem? us i))) ≡ false
  all_taken us i all len = elim (Bool-cases (ltb i 16)) [
    | inl b ↦
        let below = ltb→lt i 16 b in
        let taken =
          subst (λ l. used (get_elem? l i) ≡ true) (append-nil us)
            (used-taken us [] i all (omega (arith, below, len))) in
        rw taken (and_false (ltb i 16))
    | inr b ↦ rw b refl
  ]

  view-first :
      (e : PoolEntry) (a : List PoolEntry) (l : List Candidate)
      → has_key e.key ≡ true
      → drop 1 (view caches (e ∷ a) ++ l) ≡ view caches a ++ l
  view-first e a l h = let (t, key) = key_cases e.key h in rw key refl

  pub left-Kept :
      (e : PoolEntry) (a back : List PoolEntry)
      → AllUsed (e ∷ (a ++ back))
      → length (e ∷ (a ++ back)) ≡ 16
      → KeysOk (e ∷ (a ++ back))
      → ((i : ℕ) → count i (e ∷ (a ++ back)) ≤ 1)
      → suc (length a) ≡ position (e ∷ (a ++ back)) x.idle
      → insert x (view caches (e ∷ (a ++ back))) ≡ view caches (e ∷ a) ++ (x ∷ view caches back)
      → Kept (pool_of caches x (e ∷ (a ++ back))) x (offer (pool_of caches x (e ∷ (a ++ back))) x)
  unfolding insert_at shift_left
  left-Kept e a back all len keys once at spec =
      let us = e ∷ (a ++ back) in
      let (z, shifted) = shift_left-append a back e in
      let some_before : (suc (length a) == 0) ≡ false = ground arith in
      let less : suc (length a) - 1 ≡ length a = omega arith in
      let eq =
        offer-left (pool_of caches x us) x
          (ap (λ i. (i == 0) && full (pool_of caches x us) x) (sym at)
            ∙ ap (λ b. b && full (pool_of caches x us) x) some_before)
          (all_taken us (position us x.idle) all len) (full_pool us all len)
        ∙ ap (λ i. insert_at x (i - 1) e.cached (shift_left (i - 1) us) caches) (sym at)
        ∙ ap (λ i. insert_at x i e.cached (shift_left i us) caches) less
        ∙ ap
            (λ l. record {
              entries = set l (length a) (new_entry x e.cached);
              caches = new_caches x e.cached caches;
            })
            shifted
        ∙ ap (λ l. record { entries = l; caches = new_caches x e.cached caches })
            (set-append a z (new_entry x e.cached) back)
        ∙ ap
            (λ l. record {
              entries = a ++ (new_entry x e.cached ∷ l);
              caches = new_caches x e.cached caches;
            })
            (sym (append-nil back)) in
      let used_parts = AllUsed-split a back all.1 in
      let key_parts = KeysOk-split a back keys.1 in
      let t =
        settled x caches e.cached a back [] used_parts.0 used_parts.1 (omega arith) key_parts.0
          key_parts.1 (omega (arith, len, length-append a back))
          (λ i. omega (arith, once i, count-append i a back)) in
      subst (λ q. Kept (pool_of caches x us) x q) (sym eq)
        (record {
          sound = t.sound;
          shows =
              t.shows
              ∙ sym (
                  keep-full (insert x (view caches us)) (
                    omega (arith, len, length-insert x (view caches us), length-view caches us all))
                  ∙ ap (drop 1) spec
                  ∙ view-first e a (x ∷ view caches back) all.0);
        })

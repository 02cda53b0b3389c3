-- ===== src/Evict/Insert.antt =====
-- A candidate offered to the pool: the pool keeps the best ones, in order.
use latte_redis_server.Prelude.{
  ℕ, zero, suc, ◌+◌, ◌≤◌, ◌<◌, ◌≡◌, refl, sym, ap, ◌∙◌, List, [], ◌∷◌, ◌++◌, true, false, some, ltb,
  if◌then◌else◌, length, get_elem?, set, take, drop, arith, Bool-cases, inl, inr, append_assoc,
  append-nil, length-append, lt→ltb, ltb→lt,
}
use latte_redis_server.ListApi.{but_last}
use latte_redis_server.Evict.{
  PoolEntry, Pool, Candidate, has_key, used, new_entry, new_caches, evpool_size,
  evpool_cached_sds_size,
}
use mathlib.Core.Path.{subst}
use latte_redis_server.Evict.View.{
  KeyOk, key_cases, view, insert, same, count, KeysOk, AllUsed, AllUnused, view-append,
  count-append, KeysOk-append, view-AllUnused, view-new_entry,
}

suc-add : (a b : ℕ) → suc a + b ≡ suc (a + b)
suc-add a b = omega arith

module _ {X : Type 0} where
  pub set-append :
      (a : List X) (e new : X) (b : List X) → set (a ++ (e ∷ b)) (length a) new ≡ a ++ (new ∷ b)
  set-append [] e new b = refl
  set-append (x ∷ a) e new b = ap (λ l. x ∷ l) (set-append a e new b)

  pub get_elem?-append :
      (a : List X) (e : X) (b : List X) → get_elem? (a ++ (e ∷ b)) (length a) ≡ some e
  get_elem?-append [] e b = refl
  get_elem?-append (x ∷ a) e b = get_elem?-append a e b

  but_last-append : (a : List X) (e : X) → but_last (a ++ (e ∷ [])) ≡ a
  but_last-append [] e = refl
  but_last-append (x ∷ []) e = refl
  but_last-append (x ∷ y ∷ a) e = ap (λ l. x ∷ l) (but_last-append (y ∷ a) e)

  -- Everything from the place of `e` moves one to the right, over the last.
  pub shift_right-append :
      (a b : List X) (e z : X)
      → take (length a + 1) (a ++ (e ∷ (b ++ (z ∷ []))))
          ++ but_last (drop (length a) (a ++ (e ∷ (b ++ (z ∷ [])))))
        ≡ a ++ (e ∷ e ∷ b)
  shift_right-append [] b e z = ap (λ l. e ∷ l) (but_last-append (e ∷ b) z)
  shift_right-append (x ∷ a) b e z =
      let es = a ++ (e ∷ (b ++ (z ∷ []))) in
      ap (λ n. take n (x ∷ es) ++ but_last (drop (length a) es)) (suc-add (length a) 1)
      ∙ ap (λ l. x ∷ l) (shift_right-append a b e z)

  -- The first element is left out, and the places behind it move one to the left.
  pub shift_left-append :
      (a b : List X) (e : X)
      → (z : X) × (take (length a) (a ++ b) ++ drop (length a) (e ∷ (a ++ b)) ≡ a ++ (z ∷ b))
  shift_left-append [] b e = (e, refl)
  shift_left-append (x ∷ a) b e = let (z, h) = shift_left-append a b x in (z, ap (λ l. x ∷ l) h)

  -- The last one of a list that is not empty.
  pub snoc : (e : X) (es : List X) → (a : List X) × (z : X) × (e ∷ es ≡ a ++ (z ∷ []))
  snoc e [] = ([], e, refl)
  snoc e (x ∷ es) = let (a, z, h) = snoc x es in (e ∷ a, z, ap (λ l. e ∷ l) h)

AllUsed-append : (a b : List PoolEntry) → AllUsed a → AllUsed b → AllUsed (a ++ b)
AllUsed-append [] b h k = k
AllUsed-append (e ∷ a) b h k = (h.0, AllUsed-append a b h.1 k)

pub AllUsed-split : (a b : List PoolEntry) → AllUsed (a ++ b) → AllUsed a × AllUsed b
AllUsed-split [] b h = (omega arith, h)
AllUsed-split (e ∷ a) b h = let r = AllUsed-split a b h.1 in ((h.0, r.0), r.1)

pub AllUnused-split : (a b : List PoolEntry) → AllUnused (a ++ b) → AllUnused a × AllUnused b
AllUnused-split [] b h = (omega arith, h)
AllUnused-split (e ∷ a) b h = let r = AllUnused-split a b h.1 in ((h.0, r.0), r.1)

AllUnused-KeysOk : (vs : List PoolEntry) → AllUnused vs → KeysOk vs
AllUnused-KeysOk [] h = omega arith
AllUnused-KeysOk (v ∷ vs) h =
    (subst (λ k. KeyOk v.cached k) (sym h.0) (omega arith), AllUnused-KeysOk vs h.1)

-- The taken places are in front, a key is an `sds` of its own or the cached one of its place, and no two
-- places share a cached `sds`.
pub record Sound (pool : Pool) : Type 0 where
  pub us : List PoolEntry
  pub vs : List PoolEntry
  pub entries_lem : pool.entries ≡ us ++ vs
  pub all_used : AllUsed us
  pub all_unused : AllUnused vs
  pub size_lem : length us + length vs ≡ 16
  pub keys : KeysOk us
  pub once : (i : ℕ) → count i us + count i vs ≤ 1

-- Above the size of the pool, the candidate with the least score goes.
unfoldable pub keep : List Candidate → List Candidate
keep ys = if ltb evpool_size (length ys) then drop 1 ys else ys

same_self : (c : ℕ) → same c c ≡ 1
same_self c = ground arith

new_entry-has_key : (x : Candidate) (c : ℕ) → has_key (new_entry x c).key ≡ true
unfolding new_entry
new_entry-has_key x c = refl

new_entry-cached : (x : Candidate) (c : ℕ) → (new_entry x c).cached ≡ c
unfolding new_entry
new_entry-cached x c = refl

new_entry-KeyOk : (x : Candidate) (c : ℕ) → KeyOk (new_entry x c).cached (new_entry x c).key
unfolding new_entry
new_entry-KeyOk x c = elim (Bool-cases (ltb evpool_cached_sds_size (length x.key))) [
  | inl e ↦ rw e (omega arith)
  | inr e ↦ rw e refl
]

pub record Settled (x : Candidate) (caches : ℕ → List ℕ) (a r : List PoolEntry) (pool : Pool)
    : Type 0 where
  pub sound : Sound pool
  pub shows : view pool.caches pool.entries ≡ view caches a ++ (x ∷ view caches r)

-- An entry put between taken places, with a cached `sds` that no other place has.
pub settled :
    (x : Candidate) (caches : ℕ → List ℕ) (c : ℕ) (a r w : List PoolEntry)
    → AllUsed a
    → AllUsed r
    → AllUnused w
    → KeysOk a
    → KeysOk r
    → length a + 1 + length r + length w ≡ 16
    → ((i : ℕ) → count i a + same c i + count i r + count i w ≤ 1)
    → Settled x caches a r
        (record { entries = a ++ (new_entry x c ∷ (r ++ w)); caches = new_caches x c caches })
settled x caches c a r w ua ur uw ka kr len once =
    let here = once c in
    record {
      sound = record {
        us = a ++ (new_entry x c ∷ r);
        vs = w;
        entries_lem = sym (append_assoc a (new_entry x c ∷ r) w);
        all_used = AllUsed-append a (new_entry x c ∷ r) ua (new_entry-has_key x c, ur);
        all_unused = uw;
        size_lem = omega (arith, len, length-append a (new_entry x c ∷ r));
        keys = KeysOk-append a (new_entry x c ∷ r) ka (new_entry-KeyOk x c, kr);
        once = λ i. omega (
          arith,
          once i,
          count-append i a (new_entry x c ∷ r),
          ap (λ j. same j i) (new_entry-cached x c),
        );
      };
      shows =
          view-new_entry x caches c a (r ++ w) ka (KeysOk-append r w kr (AllUnused-KeysOk w uw))
            (omega (arith, here, same_self c))
            (omega (arith, here, same_self c, count-append c r w))
          ∙ ap (λ t. view caches a ++ (x ∷ t))
              (view-append caches r w
                ∙ ap (λ t. view caches r ++ t) (view-AllUnused caches w uw)
                ∙ append-nil (view caches r));
    }

pub length-view :
    (caches : ℕ → List ℕ) (us : List PoolEntry) → AllUsed us → length (view caches us) ≡ length us
length-view caches [] h = refl
length-view caches (e ∷ us) h =
    let (t, key) = key_cases e.key h.0 in rw key (ap suc (length-view caches us h.1))

pub length-insert : (x : Candidate) (ys : List Candidate) → length (insert x ys) ≡ suc (length ys)
unfolding insert
length-insert x [] = refl
length-insert x (y ∷ ys) = elim (Bool-cases (ltb y.idle x.idle)) [
  | inl e ↦ rw e (ap suc (length-insert x ys))
  | inr e ↦ rw e refl
]

pub keep-full : (ys : List Candidate) → 16 < length ys → keep ys ≡ drop 1 ys
unfolding keep
keep-full ys h = rw (lt→ltb 16 (length ys) h) refl

pub keep-room : (ys : List Candidate) → length ys ≤ 16 → keep ys ≡ ys
unfolding keep
keep-room ys h = elim (Bool-cases (ltb 16 (length ys))) [
  | inl e ↦ let c = ltb→lt 16 (length ys) e in absurd (omega arith)
  | inr e ↦ rw e refl
]

-- The last place is free when any is.
pub last-free :
    (us : List PoolEntry) (v : PoolEntry) (vs : List PoolEntry) (i : ℕ)
    → AllUnused (v ∷ vs)
    → length us ≤ i
    → used (get_elem? (us ++ (v ∷ vs)) i) ≡ false
last-free [] v vs zero h k = ap has_key h.0
last-free [] v [] (suc i) h k = refl
last-free [] v (z ∷ vs) (suc i) h k = last-free [] z vs i h.1 (omega arith)
last-free (u ∷ us) v vs zero h k = absurd (omega arith)
last-free (u ∷ us) v vs (suc i) h k = last-free us v vs i h (omega arith)

pub used-taken :
    (us vs : List PoolEntry) (i : ℕ)
    → AllUsed us
    → i < length us
    → used (get_elem? (us ++ vs) i) ≡ true
used-taken [] vs i h k = absurd (omega arith)
used-taken (u ∷ us) vs zero h k = h.0
used-taken (u ∷ us) vs (suc i) h k = used-taken us vs i h.1 (omega arith)

-- ===== src/Evict/View.antt =====
-- The candidates that a pool holds, and where a new one goes.
use latte_redis_server.Prelude.{
  ℕ, suc, ◌+◌, ◌≤◌, ◌≡◌, refl, sym, ap, ◌∙◌, List, [], ◌∷◌, ◌++◌, true, false, Option, none, some,
  ltb, ◌==◌, if◌then◌else◌, length, arith, Bool-cases, inl, inr, append_assoc,
}
use latte_redis_server.Evict.{
  Key, own, cached_sds, PoolEntry, Candidate, has_key, position, put, evpool_cached_sds_size,
  new_entry, new_caches,
}

abbrev pub read : (ℕ → List ℕ) → Key → List ℕ
read caches (own s) = s
read caches (cached_sds i) = caches i

abbrev shown : (ℕ → List ℕ) → PoolEntry → Option Key → List Candidate
shown caches e none = []
shown caches e (some k) = record { idle = e.idle; key = read caches k; dbid = e.dbid } ∷ []

-- The candidates of a stretch of the pool.
abbrev pub view : (ℕ → List ℕ) → List PoolEntry → List Candidate
view caches [] = []
view caches (e ∷ es) = shown caches e e.key ++ view caches es

-- In front of the first candidate whose score is not below.
unfoldable pub insert : Candidate → List Candidate → List Candidate
insert x [] = x ∷ []
insert x (y ∷ ys) = let rest = insert x ys in if ltb y.idle x.idle then y ∷ rest else x ∷ y ∷ ys

-- The number of entries with a cached string.
abbrev pub same : ℕ → ℕ → ℕ
same i j = if i == j then 1 else 0

abbrev pub count : ℕ → List PoolEntry → ℕ
count i [] = 0
count i (e ∷ es) = same e.cached i + count i es

-- A key is an `sds` of its own or the cached one of its entry.
abbrev pub KeyOk : ℕ → Option Key → Type 0
KeyOk c none = 0 ≤ 0
KeyOk c (some (own s)) = 0 ≤ 0
KeyOk c (some (cached_sds i)) = i ≡ c

abbrev pub KeysOk : List PoolEntry → Type 0
KeysOk [] = 0 ≤ 0
KeysOk (e ∷ es) = KeyOk e.cached e.key × KeysOk es

abbrev pub AllUsed : List PoolEntry → Type 0
AllUsed [] = 0 ≤ 0
AllUsed (e ∷ es) = (has_key e.key ≡ true) × AllUsed es

abbrev pub AllUnused : List PoolEntry → Type 0
AllUnused [] = 0 ≤ 0
AllUnused (e ∷ es) = (e.key ≡ none) × AllUnused es

pub view-append :
    (caches : ℕ → List ℕ) (a b : List PoolEntry)
    → view caches (a ++ b) ≡ view caches a ++ view caches b
view-append caches [] b = refl
view-append caches (e ∷ a) b =
    rw (view-append caches a b)
      (sym (append_assoc (shown caches e e.key) (view caches a) (view caches b)))

pub count-append : (i : ℕ) (a b : List PoolEntry) → count i (a ++ b) ≡ count i a + count i b
count-append i [] b = omega arith
count-append i (e ∷ a) b = omega (arith, count-append i a b)

pub KeysOk-append : (a b : List PoolEntry) → KeysOk a → KeysOk b → KeysOk (a ++ b)
KeysOk-append [] b h k = k
KeysOk-append (e ∷ a) b h k = (h.0, KeysOk-append a b h.1 k)

pub KeysOk-split : (a b : List PoolEntry) → KeysOk (a ++ b) → KeysOk a × KeysOk b
KeysOk-split [] b h = (omega arith, h)
KeysOk-split (e ∷ a) b h = let r = KeysOk-split a b h.1 in ((h.0, r.0), r.1)

pub view-AllUnused :
    (caches : ℕ → List ℕ) (vs : List PoolEntry) → AllUnused vs → view caches vs ≡ []
view-AllUnused caches [] h = refl
view-AllUnused caches (e ∷ vs) h = rw (h.0, view-AllUnused caches vs h.1) refl

not_same : (i c : ℕ) → same i c ≡ 0 → (c == i) ≡ false
not_same i c h = ground arith

put-other :
    (caches : ℕ → List ℕ) (c i : ℕ) (s : List ℕ) → same i c ≡ 0 → put caches c s i ≡ caches i
put-other caches c i s h = rw (not_same i c h) refl

put_self : (caches : ℕ → List ℕ) (c : ℕ) (s : List ℕ) → put caches c s c ≡ s
put_self caches c s = let e : (c == c) ≡ true = ground arith in rw e refl

-- Writing a cached string that no entry of a stretch has leaves what the stretch shows.
shown-put :
    (caches : ℕ → List ℕ) (c : ℕ) (s : List ℕ) (e : PoolEntry) (k : Option Key)
    → KeyOk e.cached k
    → same e.cached c ≡ 0
    → shown (put caches c s) e k ≡ shown caches e k
shown-put caches c s e none h n = refl
shown-put caches c s e (some (own t)) h n = refl
shown-put caches c s e (some (cached_sds i)) h n =
    ap (λ t. record { idle = e.idle; key = t; dbid = e.dbid } ∷ [])
      (put-other caches c i s (ap (λ j. same j c) h ∙ n))

view-put :
    (caches : ℕ → List ℕ) (c : ℕ) (s : List ℕ) (es : List PoolEntry)
    → KeysOk es
    → count c es ≡ 0
    → view (put caches c s) es ≡ view caches es
view-put caches c s [] h n = refl
view-put caches c s (e ∷ es) h n = cc (
  shown-put caches c s e e.key h.0 (omega (arith, n)),
  view-put caches c s es h.1 (omega (arith, n)),
)

view-new_caches :
    (x : Candidate) (caches : ℕ → List ℕ) (c : ℕ) (es : List PoolEntry)
    → KeysOk es
    → count c es ≡ 0
    → view (new_caches x c caches) es ≡ view caches es
unfolding new_caches
view-new_caches x caches c es h n = elim (Bool-cases (ltb evpool_cached_sds_size (length x.key))) [
  | inl e ↦ rw e refl
  | inr e ↦ rw e (view-put caches c x.key es h n)
]

shown-new_entry :
    (x : Candidate) (caches : ℕ → List ℕ) (c : ℕ)
    → shown (new_caches x c caches) (new_entry x c) (new_entry x c).key ≡ x ∷ []
unfolding new_caches new_entry
shown-new_entry x caches c = elim (Bool-cases (ltb evpool_cached_sds_size (length x.key))) [
  | inl e ↦ rw e refl
  | inr e ↦ rw e (ap (λ t. record x { key = t } ∷ []) (put_self caches c x.key))
]

-- An entry put between two stretches that do not have its cached string shows the candidate there.
pub view-new_entry :
    (x : Candidate) (caches : ℕ → List ℕ) (c : ℕ) (a b : List PoolEntry)
    → KeysOk a
    → KeysOk b
    → count c a ≡ 0
    → count c b ≡ 0
    → view (new_caches x c caches) (a ++ (new_entry x c ∷ b)) ≡ view caches a ++ (x ∷ view caches b)
view-new_entry x caches c a b ka kb na nb =
    view-append (new_caches x c caches) a (new_entry x c ∷ b)
    ∙ cc (
      view-new_caches x caches c a ka na,
      view-new_caches x caches c b kb nb,
      shown-new_entry x caches c,
    )

-- Where a candidate goes in the taken part of the pool.
pub record SplitAt (caches : ℕ → List ℕ) (x : Candidate) (us : List PoolEntry) : Type 0 where
  pub front : List PoolEntry
  pub back : List PoolEntry
  pub split : us ≡ front ++ back
  pub at : length front ≡ position us x.idle
  pub spec : insert x (view caches us) ≡ view caches front ++ (x ∷ view caches back)

pub key_cases : (k : Option Key) → has_key k ≡ true → (t : Key) × (k ≡ some t)
key_cases none h = ground arith
key_cases (some t) h = (t, refl)

pub position-SplitAt :
    (caches : ℕ → List ℕ) (x : Candidate) (us : List PoolEntry) → AllUsed us → SplitAt caches x us
unfolding position insert
position-SplitAt caches x [] h = record {
  front = [];
  back = [];
  split = refl;
  at = refl;
  spec = refl;
}
position-SplitAt caches x (e ∷ us) h =
    let r = position-SplitAt caches x us h.1 in
    let (t, key) = key_cases e.key h.0 in
    elim (Bool-cases (ltb e.idle x.idle)) [
      | inl b ↦ record {
        front = e ∷ r.front;
        back = r.back;
        split = ap (λ l. e ∷ l) r.split;
        at = rw (h.0, b) (ap suc r.at);
        spec =
            rw (key, b)
              (ap (λ l. record { idle = e.idle; key = read caches t; dbid = e.dbid } ∷ l) r.spec);
      }
      | inr b ↦ record {
        front = [];
        back = e ∷ us;
        split = refl;
        at = rw (h.0, b) refl;
        spec = rw (key, b) refl;
      }
    ]

-- The free part of the pool is not looked at.
pub position-append :
    (us vs : List PoolEntry) (idle : ℕ) → AllUnused vs → position (us ++ vs) idle ≡ position us idle
unfolding position
position-append [] [] idle h = refl
position-append [] (v ∷ vs) idle h = rw h.0 refl
position-append (e ∷ us) vs idle h = rw (position-append us vs idle h) refl

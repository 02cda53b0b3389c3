-- ===== src/Dict/Assoc.antt =====
-- A dictionary that the tests are run with: a list of keys and values, the newest first.
use latte_redis_server.Prelude.{
  ℕ, suc, ◌≡◌, refl, sym, List, [], ◌∷◌, Bool, true, false, Option, none, some, if◌then◌else◌,
  Bool-cases, inl, inr, arith, ◌∙◌,
}
use latte_redis_server.Prelude.Bytes.{bytes_eq, bytes_eq_iff}
use latte_redis_server.Dict.{DictApi, DictLaws}

bytes_eq_same : (k : List ℕ) → bytes_eq k k ≡ true
bytes_eq_same k = (bytes_eq_iff k k).1 refl

twice :
    {V : Type 0} (y x : Option V) (b : Bool)
    → (if b then none else x) ≡ (if b then none else (if b then y else x))
twice y x true = refl
twice y x false = refl

swap :
    {V : Type 0} (x y : Option V) (a b : Bool)
    → (a ≡ true → b ≡ true → false ≡ true)
    → (if a then x else (if b then none else y)) ≡ (if b then none else (if a then x else y))
swap x y true true h = let c = h refl refl in ground arith
swap x y true false h = refl
swap x y false b h = refl

-- Two different keys are not both the same as a third.
not_both :
    (a k j : List ℕ)
    → bytes_eq a k ≡ false
    → bytes_eq a j ≡ true
    → bytes_eq k j ≡ true
    → false ≡ true
not_both a k j other e f =
    sym other ∙ (bytes_eq_iff a k).1 ((bytes_eq_iff a j).0 e ∙ sym ((bytes_eq_iff k j).0 f))

different_sym : (a k : List ℕ) → bytes_eq a k ≡ false → bytes_eq k a ≡ false
different_sym a k other = elim (Bool-cases (bytes_eq k a)) [
  | inl e ↦ let c = sym other ∙ (bytes_eq_iff a k).1 (sym ((bytes_eq_iff k a).0 e)) in ground arith
  | inr e ↦ e
]

counted_apart :
    (b c : Bool) (n : ℕ)
    → (if b then (if c then suc n else n) else suc (if c then suc n else n))
      ≡ (if c then suc (if b then n else suc n) else (if b then n else suc n))
counted_apart true true n = refl
counted_apart true false n = refl
counted_apart false true n = refl
counted_apart false false n = refl

counted_once :
    (b : Bool) (n : ℕ)
    → (if b then (if b then suc n else n) else suc (if b then suc n else n)) ≡ suc n
counted_once true n = refl
counted_once false n = refl

module _ {V : Type 0} where
  unfoldable pub find_in_list : List (List ℕ × V) → List ℕ → Option V
  find_in_list [] k = none
  find_in_list (e ∷ t) k = if bytes_eq e.0 k then some e.1 else find_in_list t k

  abbrev pub is_found : Option V → Bool
  is_found none = false
  is_found (some v) = true

  -- The number of different keys.
  unfoldable pub count_keys : List (List ℕ × V) → ℕ
  unfolding find_in_list
  count_keys [] = 0
  count_keys (e ∷ t) =
      let rest = count_keys t in if is_found (find_in_list t e.0) then rest else suc rest

  unfoldable pub without_key : List ℕ → List (List ℕ × V) → List (List ℕ × V)
  without_key k [] = []
  without_key k (e ∷ t) = let rest = without_key k t in if bytes_eq e.0 k then rest else e ∷ rest

  unfoldable pub delete_found : List ℕ → List (List ℕ × V) → Option V → Option (List (List ℕ × V))
  delete_found k t none = none
  delete_found k t (some v) = some (without_key k t)

  unfoldable pub add_missing :
      V → List ℕ → List (List ℕ × V) → Option V → Option (List (List ℕ × V))
  add_missing v0 k t none = some ((k, v0) ∷ t)
  add_missing v0 k t (some v) = none

  unfoldable pub set_found : V → List ℕ → List (List ℕ × V) → Option V → List (List ℕ × V)
  set_found v k t none = t
  set_found v k t (some w) = (k, v) ∷ t

  abbrev pub assoc : V → DictApi (List ℕ) V (List (List ℕ × V))
  assoc v0 = record {
    new = [];
    size = count_keys;
    find = find_in_list;
    add_raw = λ t k. add_missing v0 k t (find_in_list t k);
    set_val = λ t k v. set_found v k t (find_in_list t k);
    delete_key = λ t k. delete_found k t (find_in_list t k);
  }

  find-without_key :
      (k j : List ℕ) (t : List (List ℕ × V))
      → find_in_list (without_key k t) j ≡ (if bytes_eq k j then none else find_in_list t j)
  unfolding find_in_list without_key
  find-without_key k j [] = elim (Bool-cases (bytes_eq k j)) [
    | inl e ↦ rw e refl
    | inr e ↦ rw e refl
  ]
  find-without_key k j ((a, v) ∷ t) = elim (Bool-cases (bytes_eq a k)) [
    | inl same ↦ rw same (
        find-without_key k j t
        ∙ rw ((bytes_eq_iff a k).0 same) (twice (some v) (find_in_list t j) (bytes_eq k j)))
    | inr other ↦
        rw (other, find-without_key k j t)
          (swap (some v) (find_in_list t j) (bytes_eq a j) (bytes_eq k j) (not_both a k j other))
  ]

  pub count-without_key :
      (k : List ℕ) (t : List (List ℕ × V))
      → count_keys t ≡ (
          if is_found (find_in_list t k)
          then suc (count_keys (without_key k t))
          else count_keys (without_key k t))
  unfolding find_in_list without_key count_keys
  count-without_key k [] = refl
  count-without_key k ((a, v) ∷ t) = elim (Bool-cases (bytes_eq a k)) [
    | inl same ↦
        rw (same, (bytes_eq_iff a k).0 same, count-without_key k t)
          (counted_once (is_found (find_in_list t k)) (count_keys (without_key k t)))
    | inr other ↦ rw other (
        rw (find-without_key k a t, count-without_key k t, different_sym a k other)
          (counted_apart (is_found (find_in_list t a)) (is_found (find_in_list t k))
            (count_keys (without_key k t))))
  ]

  -- What `set_val` leaves at the keys, where the key is there.
  find-set_found :
      (t : List (List ℕ × V)) (k j : List ℕ) (v w : V)
      → find_in_list t k ≡ some w
      → find_in_list (set_found v k t (find_in_list t k)) j
        ≡ (if bytes_eq k j then some v else find_in_list t j)
  unfolding find_in_list set_found
  find-set_found t k j v w h = rw h refl

  count-set_found :
      (t : List (List ℕ × V)) (k : List ℕ) (v : V) (o : Option V)
      → find_in_list t k ≡ o
      → count_keys (set_found v k t o) ≡ count_keys t
  unfolding count_keys set_found
  count-set_found t k v none h = refl
  count-set_found t k v (some w) h = rw h refl

  add_missing-inv :
      (v0 : V) (k : List ℕ) (t t' : List (List ℕ × V)) (o : Option V)
      → find_in_list t k ≡ o
      → add_missing v0 k t o ≡ some t'
      → ((k, v0) ∷ t ≡ t') × (find_in_list t k ≡ none)
  unfolding add_missing
  add_missing-inv v0 k t t' none h e = (ground arith, h)
  add_missing-inv v0 k t t' (some w) h e = ground arith

  delete_found-inv :
      (k : List ℕ) (t t' : List (List ℕ × V)) (o : Option V)
      → find_in_list t k ≡ o
      → delete_found k t o ≡ some t'
      → (without_key k t ≡ t') × (is_found (find_in_list t k) ≡ true)
  unfolding delete_found
  delete_found-inv k t t' none h e = ground arith
  delete_found-inv k t t' (some w) h e = (ground arith, rw h refl)

  pub assoc-laws : (v0 : V) → DictLaws (assoc v0) bytes_eq
  unfolding add_missing delete_found find_in_list count_keys
  assoc-laws v0 = record {
    eq_iff = bytes_eq_iff;
    size-new = refl;
    find-new = λ k. refl;
    add_raw-existing = λ t k v h. rw h refl;
    add_raw-fresh = λ t k h. ((k, v0) ∷ t, rw h refl);
    find-add_raw_ne =
        λ t t' k j h e. rw (← (add_missing-inv v0 k t t' (find_in_list t k) refl h).0, e) refl;
    find-add_raw_self = λ t t' k h.
        (v0, rw (← (add_missing-inv v0 k t t' (find_in_list t k) refl h).0, bytes_eq_same k) refl);
    size-add_raw = λ t t' k h.
        let q = add_missing-inv v0 k t t' (find_in_list t k) refl h in rw (← q.0, q.1) refl;
    find-set_val = find-set_found;
    size-set_val = λ t k v. count-set_found t k v (find_in_list t k) refl;
    delete_key-missing = λ t k h. rw h refl;
    delete_key-present = λ t k v h. (without_key k t, rw h refl);
    find-delete_key = λ t t' k j h.
        rw (← (delete_found-inv k t t' (find_in_list t k) refl h).0) (find-without_key k j t);
    size-delete_key = λ t t' k h.
        let q = delete_found-inv k t t' (find_in_list t k) refl h in
        rw (← q.0) (count-without_key k t ∙ rw q.1 refl);
  }

-- ===== src/Db/Expire.antt =====
-- Times of expiry in src/redis/db.c: setting, reading and acting on them.
use latte_redis_server.Prelude.{
  ℕ, ◌≡◌, refl, List, Bool, true, false, Option, none, some, if◌then◌else◌, Bool-cases, inl, inr,
  ◌∙◌, not, ◌&&◌,
}
use latte_redis_server.Prelude.Int.{ℤ, pos, negsuc, ltb_ℤ}
use latte_redis_server.Object.{Object}
use latte_redis_server.Dict.{DictApi, DictLaws}
use latte_redis_server.KvStore.{
  get_kv_store_index_for_key, kv_store_dict_find, kv_store_dict_set_val,
}
use latte_redis_server.KvStore.One.{Single}
use latte_redis_server.KvStore.Single.{
  kv_store_dict_delete_key_lem, kv_store_dict_add_raw-fresh, kv_store_dict_add_raw-existing,
  kv_store_dict_set_val-present,
}
use latte_redis_server.Db.{
  Db, find_key, find_expire, db_get_expire, db_set_expire, db_delete_key, expired, expire_at,
  expire_if_needed,
}

-- Writing over a choice that falls on the same test.
pub if_if :
    {A : Type 0} (x y z w : A) (b : Bool)
    → w ≡ (if b then y else z)
    → (if b then x else w) ≡ (if b then x else z)
if_if x y z w true h = refl
if_if x y z w false h = h

-- `when_ms <= now` for the time of expiry, if there is one
abbrev pub is_due : ℤ → Option ℤ → Bool
is_due now none = false
is_due now (some when_ms) = not (ltb_ℤ now when_ms)

module _ {T E : Type 0} (keys : DictApi (List ℕ) Object T) (expires : DictApi (List ℕ) ℤ E)
    (eq : List ℕ → List ℕ → Bool) (key_laws : DictLaws keys eq)
    (expire_laws : DictLaws expires eq) where
  -- The database as `init_redis_server_dbs` makes it: one dictionary in each store.
  pub record IsDb (db : Db T E) : Type 0 where
    pub keys_lem : Single keys eq key_laws db.keys
    pub expires_lem : Single expires eq expire_laws db.expires

  eq_refl : (key : List ℕ) → eq key key ≡ true
  eq_refl key = (key_laws.eq_iff key key).1 refl

  -- The outcome of setting a time of expiry for `key`: it is read back, no other key's time
  -- changes, and the keys stay as they are.
  pub record ExpireSet (db : Db T E) (key : List ℕ) (when_ms : ℤ) (c : Option (Db T E × ℤ))
      : Type 0 where
    pub after : Db T E
    pub done : c ≡ some (after, pos 0)
    pub is_db : IsDb after
    pub keys_kept : after.keys ≡ db.keys
    pub set_lem : db_get_expire keys expires after key ≡ when_ms
    pub finds :
        (j : List ℕ)
        → find_expire keys expires after j
          ≡ (if eq key j then some when_ms else find_expire keys expires db j)

  -- A key that has no time of expiry gets the one asked for, which is then read back; no other
  -- key's time and no value changes.
  pub db_set_expire-fresh :
      (db : Db T E) (key : List ℕ) (when_ms : ℤ)
      → IsDb db
      → find_expire keys expires db key ≡ none
      → ExpireSet db key when_ms (db_set_expire keys expires db key when_ms)
  unfolding db_set_expire get_kv_store_index_for_key db_get_expire
  db_set_expire-fresh db key when_ms is h =
      let (w, s) =
        kv_store_dict_add_raw-fresh expires eq expire_laws db.expires key is.expires_lem h in
      let (single, set_at) =
        kv_store_dict_set_val-present expires eq expire_laws s.store key when_ms w s.single
          (s.finds key ∙ rw (eq_refl key) refl) in
      let found : (j : List ℕ)
          → kv_store_dict_find expires (kv_store_dict_set_val expires s.store 0 key when_ms) 0 j
            ≡ (if eq key j then some when_ms else kv_store_dict_find expires db.expires 0 j) =
        λ j.
          set_at j
          ∙ if_if (some when_ms) (some w) (find_expire keys expires db j)
              (kv_store_dict_find expires s.store 0 j) (eq key j) (s.finds j) in
      record {
        after = record db { expires = kv_store_dict_set_val expires s.store 0 key when_ms };
        done = rw s.done refl;
        is_db = record { keys_lem = is.keys_lem; expires_lem = single };
        keys_kept = refl;
        set_lem = rw (found key, eq_refl key) refl;
        finds = found;
      }

  -- A key that has a time of expiry keeps it: the call changes nothing and returns -1.
  pub db_set_expire-existing :
      (db : Db T E) (key : List ℕ) (when_ms t : ℤ)
      → IsDb db
      → find_expire keys expires db key ≡ some t
      → db_set_expire keys expires db key when_ms ≡ some (db, negsuc 0)
  unfolding db_set_expire get_kv_store_index_for_key
  db_set_expire-existing db key when_ms t is h =
      rw (kv_store_dict_add_raw-existing expires eq expire_laws db.expires key t is.expires_lem h)
        refl

  -- The outcome of deleting `key`: neither the keys nor the times of expiry have it, and nothing
  -- else changes.
  pub record KeyDeleted (db : Db T E) (key : List ℕ) (c : Option (Db T E)) : Type 0 where
    pub after : Db T E
    pub done : c ≡ some after
    pub is_db : IsDb after
    pub finds_key :
        (j : List ℕ)
        → find_key keys expires after j ≡ (if eq key j then none else find_key keys expires db j)
    pub finds_expire :
        (j : List ℕ)
        → find_expire keys expires after j
          ≡ (if eq key j then none else find_expire keys expires db j)

  -- Whether the key is there or not, deleting it removes its value and its time of expiry, and
  -- leaves those of every other key.
  pub db_delete_key_lem :
      (db : Db T E) (key : List ℕ) → IsDb db → KeyDeleted db key (db_delete_key keys expires db key)
  unfolding db_delete_key get_kv_store_index_for_key
  db_delete_key_lem db key is =
      let e = kv_store_dict_delete_key_lem expires eq expire_laws db.expires key is.expires_lem in
      let k = kv_store_dict_delete_key_lem keys eq key_laws db.keys key is.keys_lem in
      record {
        after = record { keys = k.store; expires = e.store };
        done = rw (e.done, k.done) refl;
        is_db = record { keys_lem = k.single; expires_lem = e.single };
        finds_key = k.finds;
        finds_expire = e.finds;
      }

  -- The outcome of checking `key` at a time: the answer is whether its time of expiry has come,
  -- and then, and only then, the key is gone.
  pub record Checked (now : ℤ) (db : Db T E) (key : List ℕ) (due : Bool)
      (c : Option (Db T E × Bool)) : Type 0 where
    pub after : Db T E
    pub done : c ≡ some (after, due)
    pub is_db : IsDb after
    pub finds_key :
        (j : List ℕ)
        → find_key keys expires after j
          ≡ (if due && eq key j then none else find_key keys expires db j)
    pub finds_expire :
        (j : List ℕ)
        → find_expire keys expires after j
          ≡ (if due && eq key j then none else find_expire keys expires db j)

  deleted_then :
      (now : ℤ) (db : Db T E) (key : List ℕ)
      → KeyDeleted db key (db_delete_key keys expires db key)
      → Checked now db key true (expired keys expires (db_delete_key keys expires db key))
  deleted_then now db key d = record {
    after = d.after;
    done = rw d.done refl;
    is_db = d.is_db;
    finds_key = d.finds_key;
    finds_expire = d.finds_expire;
  }

  checked :
      (now : ℤ) (db : Db T E) (key : List ℕ)
      → IsDb db
      → (o : Option ℤ) → Checked now db key (is_due now o) (expire_at keys expires now db key o)
  unfolding expire_at
  checked now db key is none = record {
    after = db;
    done = refl;
    is_db = is;
    finds_key = λ j. refl;
    finds_expire = λ j. refl;
  }
  checked now db key is (some when_ms) = elim (Bool-cases (ltb_ℤ now when_ms)) [
    | inl e ↦ rw e (record {
      after = db;
      done = refl;
      is_db = is;
      finds_key = λ j. refl;
      finds_expire = λ j. refl;
    })
    | inr e ↦ rw e (deleted_then now db key (db_delete_key_lem db key is))
  ]

  -- At any time `now`, `expire_if_needed` answers whether the key's time of expiry has come; then
  -- the key and its time are gone and all others stay, and otherwise nothing changes.
  pub expire_if_needed_lem :
      (now : ℤ) (db : Db T E) (key : List ℕ)
      → IsDb db
      → Checked now db key
          (is_due now (find_expire keys expires db key))
          (expire_if_needed keys expires now db key)
  unfolding expire_if_needed
  expire_if_needed_lem now db key is = checked now db key is (find_expire keys expires db key)

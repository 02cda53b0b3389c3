-- ===== src/Commands/Lookup.antt =====
-- Looking a key up for a command, `redis_module_use_lookup_key` of src/redis/module.c, which removes it when
-- its time has come.
use latte_redis_server.Prelude.{
  ℕ, ◌≡◌, refl, sym, ap, List, Bool, true, false, Option, none, some, if◌then◌else◌, ◌∙◌,
}
use latte_redis_server.Prelude.Int.{ℤ, pos}
use latte_redis_server.Object.{Object}
use latte_redis_server.Dict.{DictApi, DictLaws}
use latte_redis_server.KvStore.{get_kv_store_index_for_key}
use latte_redis_server.Db.{Db, find_key, find_expire, expire_if_needed}
use latte_redis_server.Db.Expire.{IsDb, is_due, Checked, expire_if_needed_lem}
use latte_redis_server.Commands.{CommandEnv, lookup_checked, lookup_key}

module _ (p : CommandEnv) where
  -- A string object that names the key `s`, all of whose bytes `sds_new` copies.
  pub record Names (key : Object) (s : List ℕ) : Type 0 where
    pub is_string : key.is_string ≡ true
    pub bytes : p.key_bytes key ≡ s
    pub sds : p.objects.get_sds_from_object key ≡ some s
    pub whole : p.objects.sds_new s ≡ s

module _ {T E : Type 0} (keys : DictApi (List ℕ) Object T) (expires : DictApi (List ℕ) ℤ E) where
  -- The value of a key at a time: none once its time of expiry has come.
  abbrev pub current : ℕ → Db T E → List ℕ → Option Object
  current now db s =
      if is_due (pos now) (find_expire keys expires db s) then none else find_key keys expires db s

  -- The time of expiry that a key keeps when it is looked up.
  abbrev pub kept_expire : ℕ → Db T E → List ℕ → Option ℤ
  kept_expire now db s =
      if is_due (pos now) (find_expire keys expires db s)
      then none
      else find_expire keys expires db s

module _ {T E : Type 0} (keys : DictApi (List ℕ) Object T) (expires : DictApi (List ℕ) ℤ E)
    (eq : List ℕ → List ℕ → Bool) (key_laws : DictLaws keys eq) (expire_laws : DictLaws expires eq)
    (p : CommandEnv) where
  abbrev IsDb' : Db T E → Type 0
  IsDb' db = IsDb keys expires eq key_laws expire_laws db

  pub record LookedUp (now : ℕ) (db : Db T E) (s : List ℕ) (c : Option (Db T E × Option Object))
      : Type 0 where
    pub after : Db T E
    pub done : c ≡ some (after, current keys expires now db s)
    pub is_db : IsDb' after
    pub fresh : is_due (pos now) (find_expire keys expires after s) ≡ false
    pub same : find_key keys expires after s ≡ current keys expires now db s
    pub kept : find_expire keys expires after s ≡ kept_expire keys expires now db s
    pub others :
        (j : List ℕ) → eq s j ≡ false → find_key keys expires after j ≡ find_key keys expires db j

  looked_up :
      (now : ℕ) (db : Db T E) (s : List ℕ) (due : Bool)
      → due ≡ is_due (pos now) (find_expire keys expires db s)
      → Checked keys expires eq key_laws expire_laws
          (pos now)
          db
          s
          due
          (expire_if_needed keys expires (pos now) db s)
      → LookedUp now db s
          (lookup_checked p keys expires s (expire_if_needed keys expires (pos now) db s))
  unfolding lookup_checked get_kv_store_index_for_key
  looked_up now db s true e c = record {
    after = c.after;
    done = rw (c.done, ← e) refl;
    is_db = c.is_db;
    fresh = rw (c.finds_expire s, (key_laws.eq_iff s s).1 refl) refl;
    same = rw (← e) (c.finds_key s ∙ rw ((key_laws.eq_iff s s).1 refl) refl);
    kept = rw (← e) (c.finds_expire s ∙ rw ((key_laws.eq_iff s s).1 refl) refl);
    others = λ j h. c.finds_key j ∙ rw h refl;
  }
  looked_up now db s false e c = record {
    after = c.after;
    done = rw (c.done, ← e) (ap (λ o. some (c.after, o)) (c.finds_key s));
    is_db = c.is_db;
    fresh = ap (is_due (pos now)) (c.finds_expire s) ∙ sym e;
    same = rw (← e) (c.finds_key s);
    kept = rw (← e) (c.finds_expire s);
    others = λ j h. c.finds_key j;
  }

  -- Looking a key up gives its current value, and removes it when its time has come.
  pub lookup_key_lem :
      (now : ℕ) (db : Db T E) (key : Object) (s : List ℕ)
      → IsDb' db
      → key.is_string ≡ true
      → p.key_bytes key ≡ s
      → LookedUp now db s (lookup_key p keys expires (pos now) db key)
  unfolding lookup_key
  lookup_key_lem now db key s is string bytes =
      rw (bytes, string)
        (looked_up now db s (is_due (pos now) (find_expire keys expires db s)) refl
          (expire_if_needed_lem keys expires eq key_laws expire_laws (pos now) db s is))

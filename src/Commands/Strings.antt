-- ===== src/Commands/Strings.antt =====
-- `SET` and `GET` of src/modules/string.c: what is set is what is got.
use latte_redis_server.Prelude.{
  ℕ, ◌≡◌, refl, List, [], ◌∷◌, Bool, true, false, Option, none, some, ◌∙◌, Bool-cases, inl, inr,
}
use latte_redis_server.Prelude.Int.{ℤ, pos}
use latte_redis_server.Object.{codes, Object}
use latte_redis_server.Reply.{add_reply_bulk}
use latte_redis_server.Dict.{DictApi, DictLaws}
use latte_redis_server.KvStore.{get_kv_store_index_for_key, kv_store_dict_set_val}
use latte_redis_server.KvStore.Single.{kv_store_dict_set_val-present}
use latte_redis_server.Db.{Db, Clocks, init_object_lru_or_lfu, find_key, find_expire}
use latte_redis_server.Db.Expire.{IsDb, is_due}
use latte_redis_server.Db.Values.{db_add_key_value-fresh, db_add_key_value-existing}
use latte_redis_server.Commands.{
  CommandEnv, Session, db_entry_set_value, set_found, set_command, get_command, reply_with_object,
  reply_with_simple_string,
}
use latte_redis_server.Commands.Lookup.{Names, current, kept_expire, lookup_key_lem}

-- No value, or a string.
abbrev pub IsStringOr : Option Object → Type 0
IsStringOr none = true ≡ true
IsStringOr (some o) = o.is_string ≡ true

module _ {T E : Type 0} (keys : DictApi (List ℕ) Object T) (expires : DictApi (List ℕ) ℤ E)
    (eq : List ℕ → List ℕ → Bool) (key_laws : DictLaws keys eq) (expire_laws : DictLaws expires eq)
    (p : CommandEnv) where
  abbrev IsDb' : Db T E → Type 0
  IsDb' db = IsDb keys expires eq key_laws expire_laws db

  -- The outcome of a `SET`: it answers OK, the key has the value's text and no time of expiry has
  -- come for it, and every other key has the value it had.
  pub record SetDone (now : ℕ) (s : List ℕ) (value : Object) (before : Session T E)
      (c : Option (Session T E × ℤ)) : Type 0 where
    pub after : Db T E
    pub stored : Object
    pub done :
        c
        ≡ some (
          record { client = reply_with_simple_string p before.client (codes "OK"); db = after },
          pos 0,
        )
    pub is_db : IsDb' after
    pub finds : current keys expires now after s ≡ some stored
    pub found : find_key keys expires after s ≡ some stored
    pub kept : find_expire keys expires after s ≡ kept_expire keys expires now before.db s
    pub payload_lem : stored.payload ≡ value.payload
    pub is_string_lem : stored.is_string ≡ value.is_string
    pub others :
        (j : List ℕ)
        → eq s j ≡ false
        → find_key keys expires after j ≡ find_key keys expires before.db j

  init_payload :
      (server : Clocks) (now : ℕ) (o : Object)
      → (init_object_lru_or_lfu p.objects server now o).payload ≡ o.payload
  unfolding init_object_lru_or_lfu
  init_payload server now o = elim (Bool-cases o.is_shared) [
    | inl e ↦ rw e refl
    | inr e ↦ rw e refl
  ]

  init_is_string :
      (server : Clocks) (now : ℕ) (o : Object)
      → (init_object_lru_or_lfu p.objects server now o).is_string ≡ o.is_string
  unfolding init_object_lru_or_lfu
  init_is_string server now o = elim (Bool-cases o.is_shared) [
    | inl e ↦ rw e refl
    | inr e ↦ rw e refl
  ]

  current_found :
      (now : ℕ) (db : Db T E) (s : List ℕ) {o : Option Object}
      → is_due (pos now) (find_expire keys expires db s) ≡ false
      → find_key keys expires db s ≡ o
      → current keys expires now db s ≡ o
  current_found now db s h e = rw h e

  set_new :
      (server : Clocks) (now : ℕ) (before : Session T E) (db : Db T E) (key value : Object)
      (s : List ℕ)
      → IsDb' db
      → Names p key s
      → is_due (pos now) (find_expire keys expires db s) ≡ false
      → find_key keys expires db s ≡ none
      → find_expire keys expires db s ≡ kept_expire keys expires now before.db s
      → ((j : List ℕ)
          → eq s j ≡ false
          → find_key keys expires db j ≡ find_key keys expires before.db j)
      → SetDone now s value before
          (set_found p keys expires server now before.client key value (some (db, none)))
  unfolding set_found get_kv_store_index_for_key
  set_new server now before db key value s is names fresh missing kept others =
      let a =
        db_add_key_value-fresh keys expires eq key_laws expire_laws p.objects server now db key
          value s is names.sds (rw names.whole missing) in
      record {
        after = a.after;
        stored = init_object_lru_or_lfu p.objects server now value;
        done = rw a.done refl;
        is_db = a.is_db;
        finds =
            current_found now a.after s (rw a.expires_kept fresh)
              (a.finds s ∙ rw (names.whole, (key_laws.eq_iff s s).1 refl) refl);
        found = a.finds s ∙ rw (names.whole, (key_laws.eq_iff s s).1 refl) refl;
        kept = rw a.expires_kept kept;
        payload_lem = init_payload server now value;
        is_string_lem = init_is_string server now value;
        others = λ j h. a.finds j ∙ rw (names.whole, h) (others j h);
      }

  set_over :
      (server : Clocks) (now : ℕ) (before : Session T E) (db : Db T E) (key value old : Object)
      (s : List ℕ)
      → IsDb' db
      → Names p key s
      → is_due (pos now) (find_expire keys expires db s) ≡ false
      → find_key keys expires db s ≡ some old
      → old.is_string ≡ true
      → find_expire keys expires db s ≡ kept_expire keys expires now before.db s
      → ((j : List ℕ)
          → eq s j ≡ false
          → find_key keys expires db j ≡ find_key keys expires before.db j)
      → SetDone now s value before
          (set_found p keys expires server now before.client key value (some (db, some old)))
  unfolding set_found get_kv_store_index_for_key db_entry_set_value
  set_over server now before db key value old s is names fresh found string kept others =
      let (single, set_at) =
        kv_store_dict_set_val-present keys eq key_laws db.keys s value old is.keys_lem found in
      record {
        after = record db { keys = kv_store_dict_set_val keys db.keys 0 s value };
        stored = value;
        done = rw (names.bytes, string) refl;
        is_db = record { keys_lem = single; expires_lem = is.expires_lem };
        finds =
            current_found now (record db { keys = kv_store_dict_set_val keys db.keys 0 s value }) s
              fresh (set_at s ∙ rw ((key_laws.eq_iff s s).1 refl) refl);
        found = set_at s ∙ rw ((key_laws.eq_iff s s).1 refl) refl;
        kept = kept;
        payload_lem = refl;
        is_string_lem = refl;
        others = λ j h. set_at j ∙ rw h (others j h);
      }

  set_at_current :
      (server : Clocks) (now : ℕ) (before : Session T E) (db : Db T E) (key value : Object)
      (s : List ℕ) (o : Option Object)
      → IsDb' db
      → Names p key s
      → IsStringOr o
      → is_due (pos now) (find_expire keys expires db s) ≡ false
      → find_key keys expires db s ≡ o
      → find_expire keys expires db s ≡ kept_expire keys expires now before.db s
      → ((j : List ℕ)
          → eq s j ≡ false
          → find_key keys expires db j ≡ find_key keys expires before.db j)
      → SetDone now s value before
          (set_found p keys expires server now before.client key value (some (db, o)))
  set_at_current server now before db key value s none is names string fresh found kept others =
      set_new server now before db key value s is names fresh found kept others
  set_at_current server now before db key value s (some old) is names string fresh found kept
        others =
      set_over server now before db key value old s is names fresh found string kept others

  -- `SET` on a key whose current value, if any, is a string.
  pub set_command_lem :
      (server : Clocks) (now : ℕ) (before : Session T E) (name key value : Object) (s : List ℕ)
      → IsDb' before.db
      → Names p key s
      → IsStringOr (current keys expires now before.db s)
      → SetDone now s value before
          (set_command p keys expires server now before (name ∷ key ∷ value ∷ []))
  unfolding set_command
  set_command_lem server now before name key value s is names string =
      let l =
        lookup_key_lem keys expires eq key_laws expire_laws p now before.db key s is names.is_string
          names.bytes in
      rw l.done (
        set_at_current server now before l.after key value s (current keys expires now before.db s)
          l.is_db names string l.fresh l.same l.kept l.others)

  -- The key has a string for its value, and `GET` answers with it.
  pub get_command_lem :
      (now : ℕ) (before : Session T E) (name key value : Object) (s : List ℕ)
      → IsDb' before.db
      → Names p key s
      → current keys expires now before.db s ≡ some value
      → value.is_string ≡ true
      → (db : Db T E) × IsDb' db
        × (get_command p keys expires now before (name ∷ key ∷ [])
            ≡ some (record { client = add_reply_bulk p.reply before.client value; db = db }, pos 0))
  unfolding get_command reply_with_object
  get_command_lem now before name key value s is names found string =
      let l =
        lookup_key_lem keys expires eq key_laws expire_laws p now before.db key s is names.is_string
          names.bytes in
      (l.after, l.is_db, rw (l.done, found, string) refl)

  -- A `SET` of a string, at a key without zero bytes whose current value is a string or missing,
  -- goes through, and a `GET` of the key at the same time answers with that value's payload.
  pub get_command-set_command :
      (server : Clocks) (now : ℕ) (before : Session T E) (name key value : Object) (s : List ℕ)
      → IsDb' before.db
      → Names p key s
      → IsStringOr (current keys expires now before.db s)
      → value.is_string ≡ true
      → (after : Session T E) × (last : Db T E) × (stored : Object) × (stored.payload
          ≡ value.payload)
        × (set_command p keys expires server now before (name ∷ key ∷ value ∷ [])
            ≡ some (after, pos 0))
        × (get_command p keys expires now after (name ∷ key ∷ [])
            ≡ some
                (record { client = add_reply_bulk p.reply after.client stored; db = last }, pos 0))
  get_command-set_command server now before name key value s is names writable string =
      let w = set_command_lem server now before name key value s is names writable in
      let after : Session T E = record {
        client = reply_with_simple_string p before.client (codes "OK");
        db = w.after;
      } in
      let (last, last_is, got) =
        get_command_lem now after name key w.stored s w.is_db names w.finds
          (w.is_string_lem ∙ string) in
      (after, last, w.stored, w.payload_lem, w.done, got)

  -- Setting a key that is not there, but whose part up to the first zero byte is another key that
  -- is there, stops the server: the new entry's key is that part, and overwriting is asserted away.
  pub set_command-cut_key :
      (server : Clocks) (now : ℕ) (before : Session T E) (name key value old : Object) (s : List ℕ)
      → IsDb' before.db
      → key.is_string ≡ true
      → p.key_bytes key ≡ s
      → p.objects.get_sds_from_object key ≡ some s
      → eq s (p.objects.sds_new s) ≡ false
      → current keys expires now before.db s ≡ none
      → find_key keys expires before.db (p.objects.sds_new s) ≡ some old
      → set_command p keys expires server now before (name ∷ key ∷ value ∷ []) ≡ none
  unfolding set_command
  set_command-cut_key server now before name key value old s is string bytes sds cut missing found =
      let l =
        lookup_key_lem keys expires eq key_laws expire_laws p now before.db key s is string bytes in
      rw
        (
          l.done,
          missing,
          db_add_key_value-existing keys expires eq key_laws expire_laws p.objects server now
              l.after key value old s l.is_db sds (l.others (p.objects.sds_new s) cut ∙ found),
        )
        refl

-- ===== src/Commands.antt =====
-- The commands of src/commands/command_manager.c (`quit`, `ping`, `expire`) and of the string module,
-- src/modules/string.c (`set`, `get`), with the calls of src/redis/module.c that the latter are made of.
-- `none` is a failed assertion or a signed overflow.
pub mod Lookup
pub mod Quit
pub mod Strings
pub mod Expiring
pub mod Tests
use latte_redis_server.Prelude.{
  ℕ, zero, ◌*◌, ◌+◌, ◌-◌, ◌^◌, List, [], ◌∷◌, ◌++◌, Bool, true, false, Option, none, some, ltb,
  if◌then◌else◌,
}
use latte_redis_server.Prelude.Int.{ℤ, pos, negsuc}
use latte_redis_server.Object.{codes, Object, string_object}
use latte_redis_server.Client.{Client}
use latte_redis_server.Reply.{
  ReplyApi, crlf, add_reply_proto, add_reply, add_reply_bulk, add_reply_error,
  add_reply_error_format, add_reply_long_long_with_prefix, shared_ok, shared_pong,
  shared_wrongtypeerr,
}
use latte_redis_server.Dict.{DictApi}
use latte_redis_server.KvStore.{
  KvStore, get_kv_store_index_for_key, kv_store_dict_find, kv_store_dict_set_val,
}
use latte_redis_server.Db.{
  Db, Clocks, ObjectEnv, find_key, expire_if_needed, db_add_key_value, db_set_expire,
}

-- `key_bytes o` is `sds_new_len(o->ptr, string_object_len(o))`; `string2ll` is the number that a
-- text spells, if it does.
pub record CommandEnv : Type 0 where
  pub objects : ObjectEnv
  pub reply : ReplyApi
  pub key_bytes : Object → List ℕ
  pub string2ll : List ℕ → Option ℤ

-- The client and the database that it has selected.
pub record Session (T E : Type 0) : Type 0 where
  pub client : Client
  pub db : Db T E

abbrev pub wrong_arguments : List ℕ → List ℕ
wrong_arguments name = codes "wrong number of arguments for '" ++ (name ++ codes "' command")

module _ (p : CommandEnv) where
  unfoldable pub quit_command : Client → Client
  quit_command c = record (add_reply p.reply c (string_object shared_ok)) {
    close_after_reply = true;
  }

  -- `name` is `c->cmd->name`; `args` is `argv` after the command's name, which is always there.
  unfoldable pub ping_command : List ℕ → Client → List Object → Client
  ping_command name c [] = add_reply p.reply c (string_object shared_pong)
  ping_command name c (arg ∷ []) = add_reply_bulk p.reply c arg
  ping_command name c (arg ∷ x ∷ args) = add_reply_error_format p.reply c (wrong_arguments name)

  unfoldable pub reply_with_simple_string : Client → List ℕ → Client
  reply_with_simple_string c msg =
      add_reply_proto (add_reply_proto (add_reply_proto c (codes "+")) msg) crlf

  unfoldable pub reply_with_wrong_type_error : Client → Client
  reply_with_wrong_type_error c = add_reply p.reply c (string_object shared_wrongtypeerr)

  unfoldable pub reply_with_null : Client → Client
  reply_with_null c = add_reply_proto c (codes "*-1" ++ crlf)

  unfoldable pub reply_with_object : Client → Object → Client
  reply_with_object c o = add_reply_bulk p.reply c o

  module _ {T E : Type 0} (keys : DictApi (List ℕ) Object T) (expires : DictApi (List ℕ) ℤ E) where
    unfoldable pub lookup_checked :
        List ℕ → Option (Db T E × Bool) → Option (Db T E × Option Object)
    lookup_checked key none = none
    lookup_checked key (some (db, true)) = some (db, none)
    lookup_checked key (some (db, false)) = some (db, find_key keys expires db key)

    -- `redis_module_use_lookup_key`, with the value of the entry it finds
    unfoldable pub lookup_key : ℤ → Db T E → Object → Option (Db T E × Option Object)
    unfolding lookup_checked
    lookup_key now db key =
        if key.is_string
        then lookup_checked (p.key_bytes key)
            (expire_if_needed keys expires now db (p.key_bytes key))
        else some (db, none)

    -- `redis_module_use_db_entry_set_value` on the entry of a key
    unfoldable pub db_entry_set_value : Db T E → List ℕ → Object → Db T E
    db_entry_set_value db key value = record db {
      keys = kv_store_dict_set_val keys db.keys (get_kv_store_index_for_key key) key value;
    }

    unfoldable pub set_added : Client → Option (Db T E) → Option (Session T E × ℤ)
    set_added c none = none
    set_added c (some db) =
        some (record { client = reply_with_simple_string c (codes "OK"); db = db }, pos 0)

    unfoldable pub set_found :
        Clocks
        → ℕ
        → Client
        → Object
        → Object
        → Option (Db T E × Option Object)
        → Option (Session T E × ℤ)
    unfolding set_added
    set_found server now c key value none = none
    set_found server now c key value (some (db, none)) =
        set_added c (db_add_key_value keys expires p.objects server now db key value)
    set_found server now c key value (some (db, some old)) =
        if old.is_string
        then set_added c (some (db_entry_set_value db (p.key_bytes key) value))
        else some (record { client = reply_with_wrong_type_error c; db = db }, negsuc 0)

    unfoldable pub wrong_number : Session T E → List ℕ → Option (Session T E × ℤ)
    wrong_number s msg =
        some (record s { client = reply_with_simple_string s.client msg }, negsuc 0)

    -- `now` is `mstime()`, the same at each call within a command.
    unfoldable pub set_command : Clocks → ℕ → Session T E → List Object → Option (Session T E × ℤ)
    unfolding set_found
    set_command server now s (name ∷ key ∷ value ∷ []) =
        set_found server now s.client key value (lookup_key (pos now) s.db key)
    set_command server now s _ =
        wrong_number s (codes "ERR wrong number of arguments for 'set' command")

    unfoldable pub get_found : Client → Option (Db T E × Option Object) → Option (Session T E × ℤ)
    get_found c none = none
    get_found c (some (db, none)) = some (record { client = reply_with_null c; db = db }, pos 0)
    get_found c (some (db, some value)) =
        if value.is_string
        then some (record { client = reply_with_object c value; db = db }, pos 0)
        else some (record { client = reply_with_wrong_type_error c; db = db }, negsuc 0)

    unfoldable pub get_command : ℕ → Session T E → List Object → Option (Session T E × ℤ)
    unfolding get_found
    get_command now s (name ∷ key ∷ []) = get_found s.client (lookup_key (pos now) s.db key)
    get_command now s _ = wrong_number s (codes "ERR wrong number of arguments for 'get' command")

    unfoldable pub reply_set_expire : Client → Option (Db T E × ℤ) → Option (Session T E)
    reply_set_expire c none = none
    reply_set_expire c (some (db, pos zero)) =
        some (record { client = add_reply_long_long_with_prefix p.reply c (pos 1) b':'; db = db })
    reply_set_expire c (some (db, z)) =
        some (record { client = add_reply_error c (codes "ERR could not set expire"); db = db })

    -- `mstime() + seconds * 1000`, unless it overflows
    unfoldable pub set_expire_in :
        ℕ → Session T E → List ℕ → ℕ → Option Object → Option (Session T E)
    unfolding reply_set_expire
    set_expire_in now s key seconds none =
        some (record s { client = add_reply_long_long_with_prefix p.reply s.client (pos 0) b':' })
    set_expire_in now s key seconds (some value) =
        if ltb (now + seconds * 1000) (2 ^ 63)
        then reply_set_expire s.client
            (db_set_expire keys expires s.db key (pos (now + seconds * 1000)))
        else none

    unfoldable pub expire_in : ℕ → Session T E → List ℕ → Option ℤ → Option (Session T E)
    unfolding set_expire_in
    expire_in now s key (some (pos seconds)) =
        set_expire_in now s key seconds (find_key keys expires s.db key)
    expire_in now s key _ = some (record s {
      client = add_reply_error s.client (codes "ERR value is not an integer or out of range");
    })

    -- `name` is `c->cmd->name`.
    unfoldable pub expire_command : List ℕ → ℕ → Session T E → List Object → Option (Session T E)
    unfolding expire_in
    expire_command name now s (cmd ∷ key ∷ seconds ∷ []) =
        expire_in now s (p.key_bytes key) (p.string2ll (p.key_bytes seconds))
    expire_command name now s _ =
        some (record s { client = add_reply_error_format p.reply s.client (wrong_arguments name) })

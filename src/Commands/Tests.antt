-- ===== src/Commands/Tests.antt =====
-- The commands at concrete inputs, on the database of the tests of Db.
use latte_redis_server.Prelude.{
  true, ℕ, suc, ◌≡◌, refl, List, [], ◌∷◌, ◌++◌, false, none, some, length, arith,
}
use latte_redis_server.Prelude.Int.{ℤ, pos, negsuc}
use latte_redis_server.Prelude.Bytes.{bytes_eq}
use latte_redis_server.Prelude.Decimal.{decimal, decimal_value}
use mathlib.Core.Option
use latte_redis_server.Object.{codes, text, Object, string_object}
use latte_redis_server.Client.{unset}
use latte_redis_server.Reply.{ReplyApi, add_reply_bulk, add_reply_error}
use latte_redis_server.KvStore.{kv_store_dict_find, kv_store_get_dict, get_kv_store_index_for_key}
use latte_redis_server.Dict.Assoc.{find_in_list}
use latte_redis_server.Db.{Db, find_key, find_expire}
use latte_redis_server.Db.Tests.{
  Entries, keys_api, keys_laws, expires_api, expires_laws, db, db-IsDb, objects, clocks,
}
use latte_redis_server.Commands.{CommandEnv, Session, set_command, get_command, expire_command}
use latte_redis_server.Client.{Client, reset_redis_client}
use latte_redis_server.Client.Process.{Env, redis_process_input_buffer, returned}
use latte_redis_server.Commands.{quit_command}
use latte_redis_server.Commands.Quit.{process_input_buffer-quit_command}
use latte_redis_server.Commands.Lookup.{Names}
use latte_redis_server.Commands.Strings.{get_command-set_command, set_command-cut_key}
use latte_redis_server.Commands.Expiring.{Expires, expire_command-fresh, expire_command-existing}

abbrev pub reply_api : ReplyApi
reply_api = record {
  ll2string = λ z. elim z [ pos n ↦ decimal n | negsuc n ↦ b'-' ∷ decimal (suc n) ];
  object_len = λ o. elim o.payload [ text s ↦ length s | _ ↦ 0 ];
  sds_trim_crlf = λ s. s;
  sds_blank_crlf = λ s. s;
}

abbrev pub env : CommandEnv
env = record {
  objects = objects;
  reply = reply_api;
  key_bytes = λ o. elim o.payload [ text s ↦ s | _ ↦ [] ];
  string2ll = λ s. Option.map pos (decimal_value s);
}

abbrev session : Session (Entries Object) (Entries ℤ)
session = record {
  client = record {
    querybuf = [];
    qb_pos = 0;
    flag = 0;
    close_after_reply = false;
    close_asap = false;
    req_type = unset;
    read_reploff = 0;
    argv = [];
    cmd = none;
    lastcmd = none;
    argv_len_sum = 0;
    bulk_len = none;
    multi_bulk_len = 0;
    repl_ack_time = 0;
    dbid = 0;
    reply = [];
  };
  db = db;
}

abbrev word_a : Object
word_a = string_object (codes "a")

abbrev word_b : Object
word_b = string_object (codes "b")

abbrev value : Object
value = string_object (codes "hello")

abbrev pub b-Names : Names env word_b (codes "b")
b-Names = record { is_string = refl; bytes = refl; sds = refl; whole = refl }

found_a : find_key keys_api expires_api db (codes "a") ≡ some (string_object (codes "1"))
unfolding kv_store_dict_find kv_store_get_dict get_kv_store_index_for_key find_in_list bytes_eq
found_a = refl

found_b : find_key keys_api expires_api db (codes "b") ≡ some (string_object (codes "2"))
unfolding kv_store_dict_find kv_store_get_dict get_kv_store_index_for_key find_in_list bytes_eq
found_b = refl

no_time_b : find_expire keys_api expires_api db (codes "b") ≡ none
unfolding kv_store_dict_find kv_store_get_dict get_kv_store_index_for_key find_in_list bytes_eq
no_time_b = refl

time_a : find_expire keys_api expires_api db (codes "a") ≡ some (pos 1000)
unfolding kv_store_dict_find kv_store_get_dict get_kv_store_index_for_key find_in_list bytes_eq
time_a = refl

get_command-set_command_example :
    (after : Session (Entries Object) (Entries ℤ)) × (last : Db (Entries Object) (Entries ℤ))
    × (stored : Object) × (stored.payload ≡ text (codes "hello"))
    × (set_command env keys_api expires_api clocks 500 session
          (string_object (codes "SET") ∷ word_b ∷ value ∷ [])
        ≡ some (after, pos 0))
    × (get_command env keys_api expires_api 500 after (string_object (codes "SET") ∷ word_b ∷ [])
        ≡ some (record { client = add_reply_bulk env.reply after.client stored; db = last }, pos 0))
unfolding kv_store_dict_find kv_store_get_dict get_kv_store_index_for_key find_in_list bytes_eq
get_command-set_command_example =
    get_command-set_command keys_api expires_api bytes_eq keys_laws expires_laws env clocks 500
      session (string_object (codes "SET")) word_b value (codes "b") db-IsDb b-Names refl refl

abbrev cut_key : List ℕ
cut_key = codes "a" ++ (0 ∷ codes "z")

set_command-cut_key_example :
    set_command env keys_api expires_api clocks 500 session
      (string_object (codes "SET") ∷ string_object cut_key ∷ value ∷ [])
    ≡ none
unfolding kv_store_dict_find kv_store_get_dict get_kv_store_index_for_key find_in_list bytes_eq
set_command-cut_key_example =
    set_command-cut_key keys_api expires_api bytes_eq keys_laws expires_laws env clocks 500 session
      (string_object (codes "SET")) (string_object cut_key) value (string_object (codes "1"))
      cut_key db-IsDb refl refl refl refl refl refl

expire_command-fresh_example :
    Expires keys_api expires_api bytes_eq keys_laws expires_laws env 500 10
      (codes "b")
      (string_object (codes "2"))
      session
      (expire_command env keys_api expires_api
        (codes "expire")
        500
        session
        (string_object (codes "expire") ∷ word_b ∷ string_object (codes "10") ∷ []))
unfolding decimal_value
expire_command-fresh_example =
    expire_command-fresh keys_api expires_api bytes_eq keys_laws expires_laws env (codes "expire")
      500 10 session (string_object (codes "expire")) word_b (string_object (codes "10"))
      (string_object (codes "2")) (codes "b") db-IsDb refl refl (omega arith) found_b no_time_b

expire_command-existing_example :
    expire_command env keys_api expires_api
      (codes "expire")
      500
      session
      (string_object (codes "expire") ∷ word_a ∷ string_object (codes "10") ∷ [])
    ≡ some (record session {
      client = add_reply_error session.client (codes "ERR could not set expire");
    })
unfolding decimal_value
expire_command-existing_example =
    expire_command-existing keys_api expires_api bytes_eq keys_laws expires_laws env
      (codes "expire") 500 10 session (string_object (codes "expire")) word_a
      (string_object (codes "10")) (string_object (codes "1")) (codes "a") (pos 1000) db-IsDb refl
      refl (omega arith) found_a time_a

-- A server whose only command answers nothing, and counts.
abbrev loop_env : Env ℕ
loop_env = record {
  lookup = λ s name. none;
  run = λ k s c. (suc s, c, true);
  proto = record {
    reply = reply_api;
    string2ll = env.string2ll;
    big_arg = 32768;
    proto_max_bulk_len = 1048576;
  };
  inline_api = record { split_args = λ s. some (s ∷ []); unixtime = 0; linefeed_chars = 1 };
}

abbrev two_more : Client
two_more = record session.client { querybuf = codes "QUIT PING PING"; qb_pos = 5 }

-- QUIT with two more requests in the buffer.
process_input_buffer-quit_command_example :
    redis_process_input_buffer loop_env 1 7 (reset_redis_client (quit_command env two_more))
    ≡ returned 1 7 (reset_redis_client (quit_command env two_more))
process_input_buffer-quit_command_example =
    process_input_buffer-quit_command loop_env env 0 7 two_more

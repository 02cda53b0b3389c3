-- ===== src/Server/Tests.antt =====
-- A `SET` and a `GET` on the wire, to a server that has loaded the string module.
use latte_redis_server.Prelude.{
  ℕ, ◌+◌, ◌≡◌, refl, List, [], ◌∷◌, ◌++◌, false, none, arith, inl, inr, length, some, ap, ◌∙◌,
}
use latte_redis_server.Prelude.Int.{ℤ, negsuc}
use latte_redis_server.Object.{codes, Object, text}
use latte_redis_server.Client.{Client, unread}
use latte_redis_server.Client.Multibulk.RoundTrip.{Sendable, encode}
use latte_redis_server.Client.Process.{redis_process_input_buffer, finish}
use latte_redis_server.Client.Tests.{proto, printer, client, client-IsReset, inline_api}
use latte_redis_server.Reply.Deferred.Tests.{block_api}
use latte_redis_server.Db.Tests.{
  Entries, keys_api, keys_laws, expires_api, expires_laws, db, db-IsDb, clocks,
}
use latte_redis_server.Commands.Tests.{env, b-Names}
use latte_redis_server.Prelude.Decimal.{decimal}
use latte_redis_server.Prelude.Bytes.{bytes_eq}
use latte_redis_server.CommandManager.Tests.{Table, Tree, api, empty}
use latte_redis_server.CommandManager.{command_manager_lookup}
use latte_redis_server.Command.{Command, Proc, ping_command, info_command}
use latte_redis_server.Client.Process.Unknown.{IsReset}
use latte_redis_server.Client.Process.Pipeline.{
  Runnable, Served, encode_all, process_input_buffer-encode_all,
}
use latte_redis_server.Server.Plain.{Answering, Running, Answering-AllPolite}
use latte_redis_server.Dict.Assoc.{find_in_list}
use latte_redis_server.Module.{ApiFunction, Module}
use latte_redis_server.Module.Tests.{names, names-NameLaws, files, fresh, fresh-Loaded, TestHost}
use latte_redis_server.KvStore.{kv_store_dict_find, kv_store_get_dict, get_kv_store_index_for_key}
use latte_redis_server.Server.{Server, ServerEnv, server_env}
use latte_redis_server.Server.Strings.{set_then_get}

abbrev Names' : Type 0 → Type 0
Names' V = List (List ℕ × V)

abbrev server_libs :
    ServerEnv Tree Table (Names' Module) (Names' ApiFunction) (Entries Object) (Entries ℤ)
server_libs = record {
  commands = env;
  manager = api;
  keys = keys_api;
  expires = expires_api;
  modules = names;
  loader = files;
  blocks = block_api;
  foreign = λ n s argv. none;
  proto = proto;
  inline_api = inline_api 0;
}

abbrev server : Server Tree Table (Names' Module) (Names' ApiFunction) (Entries Object) (Entries ℤ)
server = record {
  host = fresh-Loaded.0;
  dbs = db ∷ [];
  clocks = clocks;
  now = 500;
  later = λ n. 501 + n;
  stopped = false;
}

abbrev set_words : List (List ℕ)
set_words = codes "set" ∷ codes "b" ∷ codes "hello" ∷ []

abbrev get_words : List (List ℕ)
get_words = codes "get" ∷ codes "b" ∷ []

abbrev sent_bytes : List ℕ
sent_bytes = encode proto printer set_words ++ encode proto printer get_words

set_words-Sendable : Sendable proto printer 0 set_words
set_words-Sendable = (
  omega arith,
  inr (omega arith),
  (omega arith, inr (omega arith), (omega arith, inr (omega arith), tt)),
)

get_words-Sendable : Sendable proto printer 0 get_words
get_words-Sendable = (omega arith, inr (omega arith), (omega arith, inr (omega arith), tt))

text_len : (o : Object) (s : List ℕ) → o.payload ≡ text s → env.reply.object_len o ≡ length s
text_len o s e = rw e refl

set_then_get_example :
    (server' : Server Tree Table (Names' Module) (Names' ApiFunction) (Entries Object) (Entries ℤ))
    × (c' : Client) × (redis_process_input_buffer
          (server_env server_libs)
          3
          server
          (client sent_bytes)
        ≡ finish (server_env server_libs) server' c')
    × (c'.reply ≡ codes "+OK\r\n" ++ codes "$5\r\nhello\r\n")
    × (unread c' ≡ [])
    × (server'.host ≡ server.host)
unfolding kv_store_dict_find kv_store_get_dict get_kv_store_index_for_key find_in_list bytes_eq
    decimal
set_then_get_example =
    set_then_get server_libs bytes_eq keys_laws expires_laws printer names names-NameLaws server
      (client sent_bytes) db (codes "b") (codes "hello") 0 refl refl db-IsDb b-Names refl refl
      fresh-Loaded.2 text_len (client-IsReset sent_bytes) set_words-Sendable get_words-Sendable refl

abbrev plain_command : List ℕ → Proc → Command
plain_command name proc = record {
  name = name;
  proc = proc;
  arity = negsuc 1;
  sflags = [];
  flags = 0;
  id = 0;
}

abbrev ping : Command
ping = plain_command (codes "ping") ping_command

abbrev info : Command
info = plain_command (codes "info") info_command

abbrev plain_host : TestHost
plain_host = record fresh {
  command_manager = record empty { commands = (codes "ping", ping) ∷ (codes "info", info) ∷ [] };
}

abbrev plain_server :
    Server Tree Table (Names' Module) (Names' ApiFunction) (Entries Object) (Entries ℤ)
plain_server = record server { host = plain_host }

-- The command in capitals, then with a word, and another command.
abbrev requests : List (List ℕ × List (List ℕ))
requests = (codes "PING", []) ∷ (codes "ping", codes "x" ∷ []) ∷ (codes "INFO", []) ∷ []

finds :
    (command_manager_lookup api plain_host.command_manager (codes "PING") ≡ some ping)
    × (command_manager_lookup api plain_host.command_manager (codes "ping") ≡ some ping)
    × (command_manager_lookup api plain_host.command_manager (codes "INFO") ≡ some info)
unfolding command_manager_lookup find_in_list bytes_eq
finds = (refl, refl, refl)

at_host :
    (s : Server Tree Table (Names' Module) (Names' ApiFunction) (Entries Object) (Entries ℤ))
    (name : List ℕ) (k : Command)
    → s.host ≡ plain_host
    → command_manager_lookup api plain_host.command_manager name ≡ some k
    → command_manager_lookup api s.host.command_manager name ≡ some k
at_host s name k same e = ap (λ h. command_manager_lookup api h.command_manager name) same ∙ e

requests-Runnable :
    Runnable
      (server_env server_libs)
      printer
      Answering
      (Running server_libs plain_host)
      0
      0
      requests
requests-Runnable = (
  λ s good. (ping, at_host s (codes "PING") ping good.1 finds.0, inl refl),
  (omega arith, inr (omega arith), tt),
  omega arith,
  (
    λ s good. (ping, at_host s (codes "ping") ping good.1 finds.1, inl refl),
    (omega arith, inr (omega arith), (omega arith, inr (omega arith), tt)),
    omega arith,
    (
      λ s good. (info, at_host s (codes "INFO") info good.1 finds.2, inr refl),
      (omega arith, inr (omega arith), tt),
      omega arith,
      tt,
    ),
  ),
)

process_input_buffer-encode_all_example :
    let env' = server_env server_libs in
    let c = client (encode_all env' printer requests) in
    (s' : Server Tree Table (Names' Module) (Names' ApiFunction) (Entries Object) (Entries ℤ))
    × (c' : Client) × (redis_process_input_buffer env' 4 plain_server c ≡ finish env' s' c')
    × Served env' printer s' c' plain_server c requests
    × IsReset c'
    × (unread c' ≡ [])
process_input_buffer-encode_all_example =
    process_input_buffer-encode_all (server_env server_libs) printer Answering
      (Running server_libs plain_host) requests plain_server
      (client (encode_all (server_env server_libs) printer requests)) 0 0
      (Answering-AllPolite server_libs plain_host) (client-IsReset _) refl refl (refl, refl) refl
      requests-Runnable

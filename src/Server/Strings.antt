-- ===== src/Server/Strings.antt =====
-- `SET` and `GET` on the wire: bytes in, bytes out.
use latte_redis_server.Prelude.{
  ℕ, suc, ◌≡◌, refl, sym, ap, ◌∙◌, List, [], ◌∷◌, ◌++◌, Bool, false, some, length, get_elem?, set,
  append_assoc, append-nil, arith,
}
use mathlib.Core.Path.{subst}
use latte_redis_server.Prelude.Int.{pos}
use latte_redis_server.Object.{codes, Object, text, string_object}
use latte_redis_server.Command.{Command, module_dispatcher, get_function}
use latte_redis_server.Client.{Client, unread}
use latte_redis_server.Client.Multibulk.RoundTrip.{Decimal, encode, Sendable}
use latte_redis_server.Client.Process.{finish, redis_process_input_buffer}
use latte_redis_server.Client.Process.Unknown.{IsReset, loop-again}
use latte_redis_server.Client.Process.Pipeline.{loop-empty}
use latte_redis_server.Reply.{crlf, payload_bytes}
use latte_redis_server.Dict.{DictLaws}
use latte_redis_server.Db.{Db}
use latte_redis_server.Db.Expire.{IsDb, is_due}
use latte_redis_server.Commands.{get_command}
use latte_redis_server.Commands.Lookup.{Names, current, kept_expire}
use latte_redis_server.Commands.Strings.{IsStringOr, get_command_lem}
use latte_redis_server.CommandManager.{command_manager_lookup}
use latte_redis_server.Module.{ApiFunction, NameDict}
use latte_redis_server.Module.Link.{NameLaws}
use latte_redis_server.Module.Reload.{Loaded}
use latte_redis_server.Server.{
  Server, ServerEnv, tick, server_env, redis_module_command_dispatcher, session_of,
}
use latte_redis_server.Server.Wire.{bulk, add_reply_bulk_lem, Answers, round-Answers}
use latte_redis_server.Server.Dispatch.{Holds, run-going, run_proc-module_dispatcher, set-Answers}

module _ {R C M A T E : Type 0} (p : ServerEnv R C M A T E) (eq : List ℕ → List ℕ → Bool)
    (key_laws : DictLaws p.keys eq) (expire_laws : DictLaws p.expires eq)
    (d : Decimal p.proto) where
  -- The server after a `GET`: the same host.
  abbrev Kept : Server R C M A T E → Server R C M A T E → Type 0
  Kept before server = server.host ≡ before.host

  get-Answers :
      (first server : Server R C M A T E) (c : Client) (dbid : ℕ) (name key value : List ℕ)
      (k : Command)
      → c.dbid ≡ dbid
      → Names p.commands (string_object key) key
      → (h : Holds p eq key_laws expire_laws d first dbid key value server)
      → k.proc ≡ module_dispatcher get_function
      → Answers
          (server_env p)
          d
          server
          c
          k
          (name ∷ key ∷ [])
          (bulk p.commands.reply h.stored)
          (Kept first)
  unfolding redis_module_command_dispatcher tick
  get-Answers first server c dbid name key value k same names h proc read argv selected =
      let (last, is, got) =
        get_command_lem p.keys p.expires eq key_laws expire_laws p.commands server.now
          (record { client = read; db = h.db }) (string_object name) (string_object key) h.stored
          key h.is_db names (rw h.now h.finds) h.is_string in
      (
        tick (record server { dbs = set server.dbs dbid last }),
        run-going p eq key_laws expire_laws d server read k h.going
            ∙ ap (λ r. (tick r.0, r.1, r.2))
                (run_proc-module_dispatcher p eq key_laws expire_laws d server read k.name
                  get_function k.proc dbid h.db
                  (record {
                    client = record read { reply = read.reply ++ bulk p.commands.reply h.stored };
                    db = last;
                  })
                  proc (selected ∙ same) h.here
                  (ap
                      (λ a. session_of p (
                        get_command p.commands p.keys p.expires server.now
                          (record { client = read; db = h.db }) a))
                      argv
                    ∙ ap (λ o. session_of p o) got
                    ∙ ap (λ c'. some (record { client = c'; db = last }))
                        (add_reply_bulk_lem p.commands.reply read h.stored))),
        h.host,
      )

  bulk_text :
      (o : Object) (s : List ℕ)
      → o.payload ≡ text s
      → p.commands.reply.object_len o ≡ length s
      → bulk p.commands.reply o
        ≡ (b'$' ∷ (p.commands.reply.ll2string (pos (length s)) ++ crlf)) ++ (s ++ crlf)
  unfolding bulk payload_bytes
  bulk_text o s e len = rw (len, e) refl

  module _ (apis : NameDict ApiFunction A) (laws : NameLaws apis) where
    -- The bytes of a `SET` and of a `GET` behind it, from a client that is between two requests and
    -- to a server that has loaded the string module, are served in two rounds of the input loop, and the
    -- loop ends by its own test: the client has been sent exactly `+OK` and the value, as a bulk, and no
    -- byte is left. This is so where the server has not stopped, the database selected is in order, the key
    -- has no zero byte, its current value is a string or missing, a time of expiry that it keeps has not come
    -- when the `GET` runs, and the arguments of both requests are within the parser's limit on a length,
    -- which is 2^63 and, but for a master, `proto_max_bulk_len`.
    pub set_then_get :
        (server : Server R C M A T E) (c : Client) (db : Db T E) (key value : List ℕ) (fuel : ℕ)
        → server.stopped ≡ false
        → get_elem? server.dbs c.dbid ≡ some db
        → IsDb p.keys p.expires eq key_laws expire_laws db
        → Names p.commands (string_object key) key
        → IsStringOr (current p.keys p.expires server.now db key)
        → is_due (pos (server.later 0)) (kept_expire p.keys p.expires server.now db key) ≡ false
        → Loaded p.manager p.modules apis laws server.host
        → ((o : Object) (s : List ℕ)
            → o.payload ≡ text s
            → p.commands.reply.object_len o ≡ length s)
        → IsReset c
        → Sendable p.proto d c.flag (codes "set" ∷ key ∷ value ∷ [])
        → Sendable p.proto d c.flag (codes "get" ∷ key ∷ [])
        → unread c
          ≡ encode p.proto d (codes "set" ∷ key ∷ value ∷ [])
            ++ encode p.proto d (codes "get" ∷ key ∷ [])
        → (server' : Server R C M A T E) × (c' : Client) × (redis_process_input_buffer
              (server_env p)
              (suc (suc (suc fuel)))
              server
              c
            ≡ finish (server_env p) server' c')
          × (c'.reply
              ≡ c.reply
                ++ (codes "+OK\r\n"
                    ++ ((b'$' ∷ (p.commands.reply.ll2string (pos (length value)) ++ crlf))
                        ++ (value ++ crlf))))
          × (unread c' ≡ [])
          × (server'.host ≡ server.host)
    set_then_get server c db key value fuel going here is names writable lasting loaded len reset
          fits1 fits2 bytes =
        let get_bytes = encode p.proto d (codes "get" ∷ key ∷ []) in
        let a =
          round-Answers (server_env p) d server c (codes "set") (key ∷ value ∷ []) get_bytes
            (codes "+OK\r\n") loaded.set_cmd
            (Holds p eq key_laws expire_laws d server c.dbid key value) reset bytes fits1
            (omega arith) loaded.set_found
            (set-Answers p eq key_laws expire_laws d server c db (codes "set") key value
              loaded.set_cmd going here is names writable lasting loaded.set_proc) in
        let get_found =
          ap (λ h. command_manager_lookup p.manager h.command_manager (codes "get")) a.holds.host
          ∙ loaded.get_found in
        let b =
          round-Answers (server_env p) d a.server a.client (codes "get") (key ∷ []) []
            (bulk p.commands.reply a.holds.stored) loaded.get_cmd (Kept server) a.is_reset
            (a.unread_rest ∙ sym (append-nil get_bytes))
            (subst (λ f. Sendable p.proto d f (codes "get" ∷ key ∷ [])) (sym a.flag) fits2)
            (omega arith) get_found
            (get-Answers server a.server a.client c.dbid (codes "get") key value loaded.get_cmd
              a.dbid names a.holds loaded.get_proc) in
        (
          b.server,
          b.client,
          loop-again (server_env p) d (suc (suc fuel)) server a.server c a.client
                (rw bytes (omega arith)) a.turned
              ∙ loop-again (server_env p) d (suc fuel) a.server b.server a.client b.client
                  (rw a.unread_rest (omega arith)) b.turned
              ∙ loop-empty (server_env p) d fuel b.server b.client b.is_reset.in_buffer
                  b.unread_rest,
          b.reply
              ∙ ap (λ r. r ++ bulk p.commands.reply a.holds.stored) a.reply
              ∙ append_assoc c.reply (codes "+OK\r\n") (bulk p.commands.reply a.holds.stored)
              ∙ ap (λ r. c.reply ++ (codes "+OK\r\n" ++ r))
                  (bulk_text a.holds.stored value a.holds.payload
                    (len a.holds.stored value a.holds.payload)),
          b.unread_rest,
          b.holds,
        )

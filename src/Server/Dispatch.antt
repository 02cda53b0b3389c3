-- ===== src/Server/Dispatch.antt =====
-- A function of a module run on the database that a client has selected, and what `SET` leaves.
use latte_redis_server.Prelude.{
  ℕ, ◌≡◌, refl, ap, ◌∙◌, List, [], ◌∷◌, ◌++◌, Bool, true, false, some, get_elem?, set, append_assoc,
}
use latte_redis_server.Prelude.Int.{pos}
use latte_redis_server.Object.{codes, Object, text, string_object}
use latte_redis_server.Command.{Command, ModuleFunc, Proc, module_dispatcher, set_function}
use latte_redis_server.Client.{Client}
use latte_redis_server.Client.Multibulk.RoundTrip.{Decimal}
use latte_redis_server.Reply.{crlf, add_reply_proto}
use latte_redis_server.Dict.{DictLaws}
use latte_redis_server.Db.{Db}
use latte_redis_server.Db.Expire.{IsDb, is_due}
use latte_redis_server.Commands.{Session, reply_with_simple_string, set_command}
use latte_redis_server.Commands.Lookup.{Names, current, kept_expire}
use latte_redis_server.Commands.Strings.{IsStringOr, set_command_lem}
use latte_redis_server.Server.{
  Server, ServerEnv, tick, server_env, run, run_proc, on_db, after_session,
  redis_module_command_dispatcher, session_of,
}
use latte_redis_server.Server.Wire.{Answers, get_elem?-set_same}

module _ {R C M A T E : Type 0} (p : ServerEnv R C M A T E) (eq : List ℕ → List ℕ → Bool)
    (key_laws : DictLaws p.keys eq) (expire_laws : DictLaws p.expires eq)
    (d : Decimal p.proto) where
  -- The server after a `SET`: the database selected has the value's text for the key, at the next command.
  pub record Holds (before : Server R C M A T E) (dbid : ℕ) (key value : List ℕ)
      (server : Server R C M A T E) : Type 0 where
    pub host : server.host ≡ before.host
    pub now : server.now ≡ before.later 0
    pub going : server.stopped ≡ false
    pub db : Db T E
    pub here : get_elem? server.dbs dbid ≡ some db
    pub is_db : IsDb p.keys p.expires eq key_laws expire_laws db
    pub stored : Object
    pub finds : current p.keys p.expires (before.later 0) db key ≡ some stored
    pub payload : stored.payload ≡ text value
    pub is_string : stored.is_string ≡ true

  pub run-going :
      (server : Server R C M A T E) (c : Client) (k : Command)
      → server.stopped ≡ false
      → let ran = run_proc p k.proc k.name server c in run p k server c ≡ (tick ran.0, ran.1, ran.2)
  unfolding run
  run-going server c k going = rw going refl

  -- A function of a module, run on the database that the client has selected.
  pub run_proc-module_dispatcher :
      (server : Server R C M A T E) (c : Client) (name : List ℕ) (func : ModuleFunc) (proc : Proc)
      (dbid : ℕ) (db : Db T E) (s : Session T E)
      → proc ≡ module_dispatcher func
      → c.dbid ≡ dbid
      → get_elem? server.dbs dbid ≡ some db
      → redis_module_command_dispatcher p func server.clocks server.now
          (record { client = c; db = db })
          c.argv
        ≡ some s
      → run_proc p proc name server c
        ≡ (record server { dbs = set server.dbs dbid s.db }, s.client, true)
  unfolding run_proc on_db after_session
  run_proc-module_dispatcher server c name func proc dbid db s e same here done =
      ap (λ f. run_proc p f name server c) e
      ∙ ap
          (λ o.
            on_db p (λ t. redis_module_command_dispatcher p func server.clocks server.now t c.argv)
              server c o)
          (ap (λ i. get_elem? server.dbs i) same ∙ here)
      ∙ ap (λ o. after_session p server c o) done
      ∙ ap (λ i. (record server { dbs = set server.dbs i s.db }, s.client, true)) same

  answer_ok :
      (c : Client)
      → reply_with_simple_string p.commands c (codes "OK")
        ≡ record c { reply = c.reply ++ codes "+OK\r\n" }
  unfolding reply_with_simple_string add_reply_proto
  answer_ok c =
      ap (λ r. record c { reply = r })
        (append_assoc (c.reply ++ codes "+") (codes "OK") crlf
          ∙ append_assoc c.reply (codes "+") (codes "OK" ++ crlf))

  pub set-Answers :
      (server : Server R C M A T E) (c : Client) (db : Db T E) (name key value : List ℕ)
      (k : Command)
      → server.stopped ≡ false
      → get_elem? server.dbs c.dbid ≡ some db
      → IsDb p.keys p.expires eq key_laws expire_laws db
      → Names p.commands (string_object key) key
      → IsStringOr (current p.keys p.expires server.now db key)
      → is_due (pos (server.later 0)) (kept_expire p.keys p.expires server.now db key) ≡ false
      → k.proc ≡ module_dispatcher set_function
      → Answers
          (server_env p)
          d
          server
          c
          k
          (name ∷ key ∷ value ∷ [])
          (codes "+OK\r\n")
          (Holds server c.dbid key value)
  unfolding redis_module_command_dispatcher tick
  set-Answers server c db name key value k going here is names writable lasting proc read argv
        dbid =
      let w =
        set_command_lem p.keys p.expires eq key_laws expire_laws p.commands server.clocks server.now
          (record { client = read; db = db }) (string_object name) (string_object key)
          (string_object value) key is names writable in
      (
        tick (record server { dbs = set server.dbs c.dbid w.after }),
        run-going server read k going
            ∙ ap (λ r. (tick r.0, r.1, r.2))
                (run_proc-module_dispatcher server read k.name set_function k.proc c.dbid db
                  (record {
                    client = record read { reply = read.reply ++ codes "+OK\r\n" };
                    db = w.after;
                  })
                  proc dbid here
                  (ap
                      (λ a. session_of p (
                        set_command p.commands p.keys p.expires server.clocks server.now
                          (record { client = read; db = db }) a))
                      argv
                    ∙ ap (λ o. session_of p o) w.done
                    ∙ ap (λ c'. some (record { client = c'; db = w.after })) (answer_ok read))),
        record {
          host = refl;
          now = refl;
          going = going;
          db = w.after;
          here = get_elem?-set_same server.dbs c.dbid db w.after here;
          is_db = w.is_db;
          stored = w.stored;
          finds = rw (w.kept, lasting) w.found;
          payload = w.payload_lem;
          is_string = w.is_string_lem;
        },
      )

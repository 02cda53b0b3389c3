-- ===== src/Server/Plain.antt =====
-- `PING` and `INFO` on this server: commands that only write a reply.
use latte_redis_server.Prelude.{
  ℕ, ◌≡◌, refl, sym, ap, ◌∙◌, List, [], ◌∷◌, true, false, ◌⊎◌, inl, inr, drop, Bool-cases,
}
use mathlib.Core.Path.{subst}
use latte_redis_server.Object.{Object}
use latte_redis_server.Command.{Command, ping_command, info_command}
use latte_redis_server.Client.{Client}
use latte_redis_server.Reply.{
  lacks_code, add_reply, add_reply_proto, add_reply_error_length, add_reply_error_format,
}
use latte_redis_server.Commands
use latte_redis_server.Module.{Host}
use latte_redis_server.Client.Process.Pipeline.{AllPolite}
use latte_redis_server.Server.{Server, ServerEnv, server_env, run, run_proc, run_info, tick}
use latte_redis_server.Server.Wire.{add_reply_bulk_lem}

-- Only the reply is another one.
abbrev Replies : Client → Client → Type 0
Replies c c' = (r : List ℕ) × (c' ≡ record c { reply = r })

-- A command that only answers.
abbrev pub Answering : Command → List Object → Type 0
Answering k args = (k.proc ≡ ping_command) ⊎ (k.proc ≡ info_command)

module _ {R C M A T E : Type 0} (p : ServerEnv R C M A T E) (host : Host R C M A) where
  -- The server runs, with the command table and the modules of `host`.
  abbrev pub Running : Server R C M A T E → ℕ → Type 0
  Running server dbid = (server.stopped ≡ false) × (server.host ≡ host)

  error-Replies :
      (c : Client) (s : List ℕ) → Replies c (add_reply_error_format p.commands.reply c s)
  unfolding add_reply_error_format add_reply_error_length add_reply_proto
  error-Replies c s =
      elim (Bool-cases
        (lacks_code (p.commands.reply.sds_blank_crlf (p.commands.reply.sds_trim_crlf s)))) [
          | inl e ↦ rw e (_, refl)
          | inr e ↦ rw e (_, refl)
        ]

  ping-Replies :
      (name : List ℕ) (c : Client) (args : List Object)
      → Replies c (Commands.ping_command p.commands name c args)
  unfolding Commands.ping_command add_reply add_reply_proto
  ping-Replies name c [] = (_, refl)
  ping-Replies name c (arg ∷ []) = (_, add_reply_bulk_lem p.commands.reply c arg)
  ping-Replies name c (arg ∷ x ∷ args) = error-Replies c (Commands.wrong_arguments name)

  info-Replies : (c : Client) → Replies c (run_info c)
  unfolding run_info add_reply_proto
  info-Replies c = (_, refl)

  run-ran :
      (k : Command) (server : Server R C M A T E) (c c' : Client)
      → server.stopped ≡ false
      → run_proc p k.proc k.name server c ≡ (server, c', true)
      → run p k server c ≡ (tick server, c', true)
  unfolding run
  run-ran k server c c' going e =
      let going' : run p k server c
          ≡ (let ran = run_proc p k.proc k.name server c in (tick ran.0, ran.1, ran.2)) =
        rw going refl in
      going' ∙ ap (λ ran. (tick ran.0, ran.1, ran.2)) e

  runs :
      (k : Command) (server : Server R C M A T E) (c : Client)
      → Answering k c.argv
      → server.stopped ≡ false
      → (r : List ℕ) × (run p k server c ≡ (tick server, record c { reply = r }, true))
  unfolding run_proc
  runs k server c (inl e) going =
      let (r, h) = ping-Replies k.name c (drop 1 c.argv) in
      (
        r,
        run-ran k server c (record c { reply = r }) going
            (ap (λ f. run_proc p f k.name server c) e ∙ ap (λ c'. (server, c', true)) h),
      )
  runs k server c (inr e) going =
      let (r, h) = info-Replies c in
      (
        r,
        run-ran k server c (record c { reply = r }) going
            (ap (λ f. run_proc p f k.name server c) e ∙ ap (λ c'. (server, c', true)) h),
      )

  pub Answering-AllPolite : AllPolite (server_env p) Answering Running
  unfolding tick
  Answering-AllPolite k server c answering (going, same) =
      let (r, h) = runs k server c answering going in
      record {
        alive = ap (λ ran. ran.2) h;
        good = subst (λ ran. Running ran.0 c.dbid) (sym h) (going, same);
        dbid = ap (λ ran. ran.1.dbid) h;
        querybuf = ap (λ ran. ran.1.querybuf) h;
        qb_pos = ap (λ ran. ran.1.qb_pos) h;
        flag = ap (λ ran. ran.1.flag) h;
        close_after_reply = ap (λ ran. ran.1.close_after_reply) h;
        close_asap = ap (λ ran. ran.1.close_asap) h;
      }

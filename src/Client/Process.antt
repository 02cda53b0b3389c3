-- ===== src/Client/Process.antt =====
-- `process_command`, `process_command_and_reset_client`, `redis_process_input_buffer` and
-- `redis_client_handle` of src/redis/client.c.
pub mod Unknown
pub mod Pipeline
use latte_redis_server.Prelude.{
  ℕ, zero, suc, ◌+◌, List, [], ◌∷◌, Bool, true, false, not, ◌&&◌, ◌||◌, Option, none, some, length,
  ltb, ◌==◌, if◌then◌else◌,
}
use latte_redis_server.Object.{Payload, text, integer, Object}
use latte_redis_server.Command.{Command}
use latte_redis_server.Client.{
  Client, ReqType, unset, inline, multibulk, unread, has_flag, client_master, reset_redis_client,
}
use latte_redis_server.Client.Multibulk.{
  ProtoApi, first_byte, Status, done, stop, aborted, process_multibulk_buffer,
}
use latte_redis_server.Client.Inline.{InlineApi, process_inline_buffer}

-- The server behind the connection, in a state `S`: the command table, and `call`, which runs a
-- command's `proc` and says whether `server->current_client` is still set after it.
pub record Env (S : Type 0) : Type 0 where
  pub lookup : S → List ℕ → Option Command
  pub run : Command → S → Client → S × Client × Bool
  pub proto : ProtoApi
  pub inline_api : InlineApi

-- The bytes at `argv[0]->ptr`. The parsers make text objects only.
abbrev pub text_of : Payload → List ℕ
text_of (text s) = s
text_of (integer z) = []

-- What a round of the input loop does next: another round, `break`, `return 0` because the client
-- is gone, or nothing more because an assertion failed.
pub data Turn (S : Type 0) : Type 0 where
  again leave gone crash : S → Client → Turn S

-- How the loop ends; `starved` is fuel used up, which the source does not have.
pub data Handled (S : Type 0) : Type 0 where
  returned : ℕ → S → Client → Handled S
  crashed starved : S → Client → Handled S

module _ {S : Type 0} (env : Env S) where
  -- a command that was found, called with `cmd` and `lastcmd` set
  unfoldable pub call : Command → S → Client → S × Client × Bool
  call cmd s c = env.run cmd s (record c { cmd = some cmd; lastcmd = some cmd })

  -- `process_command` returns -1 for a name that is not in the table (`none`), and calls else.
  unfoldable pub process_found : Option Command → S → Client → Option (S × Client × Bool)
  process_found none s c = none
  process_found (some cmd) s c = some (call cmd s c)

  unfoldable pub process_command : Object → S → Client → Option (S × Client × Bool)
  process_command name s c = process_found (env.lookup s (text_of name.payload)) s c

  -- `process_command_and_reset_client`: -1 is `gone`. A client whose command was not found is not
  -- reset: `cmd` and `lastcmd` are NULL, and `argv` stays.
  unfoldable pub after_command : S → Client → Option (S × Client × Bool) → Turn S
  after_command s c none = again s (record c { cmd = none; lastcmd = none })
  after_command s c (some (s', c', alive)) =
      if alive then again s' (reset_redis_client c') else gone s' (reset_redis_client c')

  -- "Multibulk processing could see a <= 0 length."
  unfoldable pub execute : List Object → S → Client → Turn S
  execute [] s c = again s (reset_redis_client c)
  execute (name ∷ args) s c = after_command s c (process_command name s c)

  unfoldable pub parsed : S → Status × Client → Turn S
  parsed s (done, c) = execute c.argv s c
  parsed s (stop, c) = leave s c
  parsed s (aborted, c) = crash s c

  unfoldable pub request_type : ReqType → List ℕ → ReqType
  request_type unset r = if first_byte r == b'*' then multibulk else inline
  request_type inline r = inline
  request_type multibulk r = multibulk

  -- The type has been set: `unset` is the panic of the last branch, which cannot be reached.
  unfoldable pub parse : ReqType → S → Client → Turn S
  parse unset s c = crash s c
  parse inline s c = parsed s (process_inline_buffer env.inline_api c)
  parse multibulk s c = parsed s (process_multibulk_buffer env.proto c)

  -- one round
  unfoldable pub turn : S → Client → Turn S
  turn s c =
      let t = request_type c.req_type (unread c) in
      if c.close_after_reply || c.close_asap
      then leave s c
      else parse t s (record c { req_type = t })

  -- `if (rc->client.qb_pos) return 1; return 0;`
  abbrev pub finish : S → Client → Handled S
  finish s c = returned (if c.qb_pos == 0 then 0 else 1) s c

  unfoldable pub continue : (S → Client → Handled S) → Turn S → Handled S
  continue next (again s c) = next s c
  continue next (leave s c) = finish s c
  continue next (gone s c) = returned 0 s c
  continue next (crash s c) = crashed s c

  -- `while (qb_pos < sds_len(querybuf))`, on fuel
  unfoldable pub redis_process_input_buffer : ℕ → S → Client → Handled S
  redis_process_input_buffer zero s c = starved s c
  redis_process_input_buffer (suc fuel) s c =
      let round = continue (redis_process_input_buffer fuel) (turn s c) in
      if ltb c.qb_pos (length c.querybuf) then round else finish s c

  unfoldable pub redis_client_handle : ℕ → ℕ → S → Client → Handled S
  redis_client_handle fuel nread s c = redis_process_input_buffer fuel s (
      if has_flag c.flag client_master
      then record c { read_reploff = c.read_reploff + nread }
      else c)

-- ===== src/Client/Inline.antt =====
-- `process_inline_buffer` of src/redis/client.c: one line of a plain-text request.
pub mod Line
use latte_redis_server.Prelude.{
  ℕ, zero, suc, ◌+◌, ◌-◌, ◌%◌, ◌^◌, List, [], ◌∷◌, Bool, true, false, not, ◌&&◌, Option, none, some,
  length, take, ltb, ◌==◌, if◌then◌else◌, map, get_or,
}
use latte_redis_server.Object.{codes, string_object}
use latte_redis_server.Client.{
  Client, ClientType, slave, unread, avail, has_flag, client_master, get_client_type,
  proto_inline_max_size,
}
use latte_redis_server.Reply.{add_reply_error}
use latte_redis_server.Client.Multibulk.{strchr, Status, done, stop}

-- `get_client_type(rc) == CLIENT_TYPE_SLAVE`
abbrev is_slave : ClientType → Bool
is_slave slave = true
is_slave _ = false

-- What the call takes from elsewhere: `sds_split_args` of the strings, `none` where it returns
-- NULL; the server's clock; and the value that the int `linefeed_chars` happens to have, since the
-- code never sets it before it adds to it: it is given as the `size_t` that it is converted to, so that a
-- negative one is close to 2^64.
pub record InlineApi : Type 0 where
  pub split_args : List ℕ → Option (List (List ℕ))
  pub unixtime : ℕ
  pub linefeed_chars : ℕ

-- The sum of the lengths of the arguments.
abbrev pub total_length : List (List ℕ) → ℕ
total_length [] = 0
total_length (a ∷ args) = length a + total_length args

module _ (p : InlineApi) where
  -- the arguments into `argv`; `argv_len_sum` starts again only if there are some
  unfoldable pub set_args : Client → List (List ℕ) → Client
  set_args c [] = record c { argv = [] }
  set_args c (a ∷ args) = record c {
    argv = map string_object (a ∷ args);
    argv_len_sum = total_length (a ∷ args);
  }

  unfoldable pub accept_line : Client → ℕ → ℕ → Option (List (List ℕ)) → Status × Client
  unfolding set_args
  accept_line c query_len linefeed none =
      (stop, add_reply_error c (codes "Protocol error: unbalanced quotes in request"))
  accept_line c query_len linefeed (some args) =
      let c' =
        if (query_len == 0) && is_slave (get_client_type c)
        then record c { repl_ack_time = p.unixtime }
        else c in
      if not (query_len == 0) && has_flag c.flag client_master then (stop, c') else (
        done,
        set_args (record c' { qb_pos = (c'.qb_pos + (query_len + linefeed)) % 2 ^ 64 }) args,
      )

  -- The line ends at offset `i`, before which a `\r` may stand.
  unfoldable pub inline_line : Client → Option ℕ → Status × Client
  inline_line c none =
      if ltb proto_inline_max_size (avail c)
      then (stop, add_reply_error c (codes "Protocol error: too big inline request"))
      else (stop, c)
  inline_line c (some i) =
      if not (i == 0) && (get_or (unread c) (i - 1) 0 == b'\r')
      then accept_line c (i - 1) (p.linefeed_chars + 1) (p.split_args (take (i - 1) (unread c)))
      else accept_line c i p.linefeed_chars (p.split_args (take i (unread c)))

  unfoldable pub process_inline_buffer : Client → Status × Client
  unfolding inline_line
  process_inline_buffer c = inline_line c (strchr b'\n' (unread c))

-- ===== src/Client.antt =====
-- src/redis/client.h and the small functions of src/redis/client.c: a connection's state.
-- The buffer fields belong to `latte_client_t` of the server library, which the code embeds.
pub mod Multibulk
pub mod Inline
pub mod Process
pub mod Close
pub mod Tests
use Prim.Native.Nat.{bit_and}
use latte_redis_server.Prelude.{
  ℕ, ◌^◌, ◌*◌, List, [], Bool, false, not, ◌&&◌, Option, none, drop, length, ◌==◌, if◌then◌else◌,
}
use latte_redis_server.Object.{Object}
use latte_redis_server.Command.{Command}

-- `req_type`: 0, `PROTO_REQ_INLINE` or `PROTO_REQ_MULTIBULK`.
pub data ReqType : Type 0 where
  unset inline multibulk : ReqType

-- `argc` is the length of `argv`; `bulk_len` is `none` for the source's -1; `reply` is every byte
-- written to the output buffer; `close_after_reply` and `close_asap` are two bits of
-- `client.flags`, and `flag` is the field of that name.
pub record Client : Type 0 where
  pub querybuf : List ℕ
  pub qb_pos : ℕ
  pub flag : ℕ
  pub close_after_reply : Bool
  pub close_asap : Bool
  pub req_type : ReqType
  pub read_reploff : ℕ
  pub argv : List Object
  pub cmd : Option Command
  pub lastcmd : Option Command
  pub argv_len_sum : ℕ
  pub bulk_len : Option ℕ
  pub multi_bulk_len : ℕ
  pub repl_ack_time : ℕ
  pub dbid : ℕ
  pub reply : List ℕ

abbrev pub client_slave : ℕ
client_slave = 2 ^ 0

abbrev pub client_master : ℕ
client_master = 2 ^ 1

abbrev pub client_monitor : ℕ
client_monitor = 2 ^ 2

abbrev pub client_lua : ℕ
client_lua = 2 ^ 8

abbrev pub client_pubsub : ℕ
client_pubsub = 2 ^ 18

abbrev pub proto_inline_max_size : ℕ
proto_inline_max_size = 1024 * 64

-- `flags & bit`, as a test
unfoldable pub has_flag : ℕ → ℕ → Bool
has_flag flags bit = not (bit_and flags bit == 0)

pub data ClientType : Type 0 where
  normal slave pubsub master : ClientType

unfoldable pub get_client_type : Client → ClientType
get_client_type c =
    if has_flag c.flag client_master
    then master
    else if has_flag c.flag client_slave && not (has_flag c.flag client_monitor)
    then slave
    else if has_flag c.flag client_pubsub
    then pubsub
    else normal

-- The bytes of the query buffer from `qb_pos` on; `sds_len(querybuf) - qb_pos` is their number.
abbrev pub unread : Client → List ℕ
unread c = drop c.qb_pos c.querybuf

abbrev pub avail : Client → ℕ
avail c = length (unread c)

-- `create_redis_client`. `zmalloc` leaves the other fields unset: they are the argument's.
unfoldable pub create_redis_client : Client → Client
create_redis_client raw = record raw {
  dbid = 0;
  multi_bulk_len = 0;
  bulk_len = none;
  close_after_reply = false;
  close_asap = false;
}

unfoldable pub free_client_argv : Client → Client
free_client_argv c = record c { argv = []; cmd = none; argv_len_sum = 0 }

unfoldable pub reset_redis_client : Client → Client
unfolding free_client_argv
reset_redis_client c = record (free_client_argv c) {
  req_type = unset;
  multi_bulk_len = 0;
  bulk_len = none;
}

-- ===== src/Client/Multibulk.antt =====
-- `process_multibulk_buffer` of src/redis/client.c: one call reads as much of a request
-- `*<n>\r\n($<len>\r\n<bytes>\r\n)*` from the query buffer as is there.
pub mod Scan
pub mod Loop
pub mod Bounds
pub mod Frame
pub mod Resume
pub mod Pieces
pub mod RoundTrip
use Prim.Native.String.{String}
use mathlib.Core.Option
use latte_redis_server.Prelude.{
  ℕ, zero, suc, ◌+◌, ◌-◌, ◌*◌, List, [], ◌∷◌, ◌++◌, Bool, true, false, not, ◌&&◌, ◌||◌, Option,
  none, some, length, take, drop, ltb, leb, ◌==◌, if◌then◌else◌,
}
use latte_redis_server.Prelude.Int.{ℤ, pos, negsuc}
use latte_redis_server.Object.{codes, Object, string_object}
use latte_redis_server.Client.{
  Client, unread, avail, has_flag, client_master, proto_inline_max_size,
}
use latte_redis_server.Reply.{ReplyApi, add_reply_error, add_reply_error_format}

-- Of the utilities: `string2ll`, `none` where it returns 0. `PROTO_MBULK_BIG_ARG` of the server
-- library. `proto_max_bulk_len` is the server's field.
pub record ProtoApi : Type 0 where
  pub reply : ReplyApi
  pub string2ll : List ℕ → Option ℤ
  pub big_arg : ℕ
  pub proto_max_bulk_len : ℕ

-- `strchr`: the offset of the first `c` before the NUL that ends the text.
unfoldable pub strchr : ℕ → List ℕ → Option ℕ
strchr c [] = none
strchr c (b ∷ s) =
    let later = Option.map suc (strchr c s) in
    if b == c then some 0 else if b == 0 then none else later

-- `querybuf[qb_pos]`, with the NUL behind the last byte
unfoldable pub first_byte : List ℕ → ℕ
first_byte [] = 0
first_byte (b ∷ s) = b

-- What a call returns: 0, or -1; `aborted` is a failed `latte_assert_with_info`.
pub data Status : Type 0 where
  done stop aborted : Status

-- Where one header line stands: not complete, refused (with the reply written), or read.
pub data Header : Type 0 where
  wait : Header
  bad : Client → Header
  size : ℕ → Client → Header

abbrev pub max_multibulk : ℕ
max_multibulk = 1024 * 1024

unfoldable pub auth_required : Client → Bool
auth_required c = false

module _ (p : ProtoApi) where
  abbrev protocol_error : Client → String → Client
  protocol_error c msg = add_reply_error c (codes msg)

  -- `ll < 0 || (!(rc->flag & CLIENT_MASTER) && ll > proto_max_bulk_len)`, and the value if not
  unfoldable pub bulk_size : ℕ → Option ℤ → Option ℕ
  bulk_size flags none = none
  bulk_size flags (some (negsuc n)) = none
  bulk_size flags (some (pos n)) =
      if not (has_flag flags client_master) && ltb p.proto_max_bulk_len n then none else some n

  -- the trim of the query buffer in front of a large argument
  unfoldable pub trim_big : ℕ → Client → Client
  trim_big ll c =
      if leb p.big_arg ll
      then (if leb (avail c) (ll + 2) then record c { querybuf = unread c; qb_pos = 0 } else c)
      else c

  unfoldable pub accept_bulk : Client → ℕ → Option ℕ → Header
  unfolding trim_big
  accept_bulk c i none = bad (protocol_error c "Protocol error: invalid bulk length")
  accept_bulk c i (some ll) =
      if ltb 16384 ll && auth_required c
      then bad (protocol_error c "Protocol error: unauthenticated bulk length")
      else size ll (trim_big ll (record c { qb_pos = c.qb_pos + i + 2 }))

  unfoldable pub bulk_line : Client → Option ℕ → Header
  unfolding accept_bulk bulk_size
  bulk_line c none =
      if ltb proto_inline_max_size (avail c)
      then bad (protocol_error c "Protocol error: too big bulk count string")
      else wait
  bulk_line c (some i) =
      if ltb (avail c) (i + 2)
      then wait
      else if not (first_byte (unread c) == b'$')
      then bad (
          add_reply_error_format p.reply c
            (codes "Protocol error: expected '$', got '" ++ (first_byte (unread c) ∷ codes "'")))
      else accept_bulk c i (bulk_size c.flag (p.string2ll (take (i - 1) (drop 1 (unread c)))))

  -- "Read bulk length if unknown"
  unfoldable pub bulk_header : Client → Option ℕ → Header
  unfolding bulk_line strchr
  bulk_header c (some ll) = size ll c
  bulk_header c none = bulk_line c (strchr b'\r' (unread c))

  -- the argument itself, once it has all arrived
  unfoldable pub take_bulk : ℕ → ℕ → Client → Client
  take_bulk ll n c =
      if (c.qb_pos == 0) && leb p.big_arg ll && (length c.querybuf == ll + 2)
      then record c {
        argv = c.argv ++ (string_object (take ll c.querybuf) ∷ []);
        argv_len_sum = c.argv_len_sum + ll;
        querybuf = [];
        bulk_len = none;
        multi_bulk_len = n;
      }
      else record c {
        argv = c.argv ++ (string_object (take ll (unread c)) ∷ []);
        argv_len_sum = c.argv_len_sum + ll;
        qb_pos = c.qb_pos + (ll + 2);
        bulk_len = none;
        multi_bulk_len = n;
      }

  -- One round of the loop, `next` being the rounds that follow.
  unfoldable pub bulk_round : (Client → Status × Client) → ℕ → Client → Header → Status × Client
  bulk_round next n c wait = (stop, c)
  bulk_round next n c (bad c') = (stop, c')
  bulk_round next n c (size ll c') =
      let c'' = record c' { bulk_len = some ll } in
      if ltb (avail c'') (ll + 2) then (stop, c'') else next (take_bulk ll n c'')

  -- `while (rc->multi_bulk_len)`: each round lowers it by one, or leaves the loop.
  unfoldable pub bulk_loop : ℕ → Client → Status × Client
  unfolding bulk_round
  bulk_loop zero c = (done, c)
  bulk_loop (suc n) c = bulk_round (bulk_loop n) n c (bulk_header c c.bulk_len)

  -- The multibulk count, once its line is there; `i` is the offset of the `\r`.
  unfoldable pub accept_count : Client → ℕ → Option ℤ → Status × Client
  accept_count c i none = (stop, protocol_error c "Protocol error: invalid multibulk length")
  accept_count c i (some (negsuc n)) = (done, record c { qb_pos = c.qb_pos + i + 2 })
  accept_count c i (some (pos zero)) = (done, record c { qb_pos = c.qb_pos + i + 2 })
  accept_count c i (some (pos (suc n))) =
      if ltb max_multibulk (suc n)
      then (stop, protocol_error c "Protocol error: invalid multibulk length")
      else if ltb 10 (suc n) && auth_required c
      then (stop, protocol_error c "Protocol error: unauthenticated multibulk length")
      else bulk_loop (suc n)
          (record c { qb_pos = c.qb_pos + i + 2; multi_bulk_len = suc n; argv_len_sum = 0 })

  unfoldable pub count_line : Client → Option ℕ → Status × Client
  unfolding accept_count
  count_line c none =
      if ltb proto_inline_max_size (avail c)
      then (stop, protocol_error c "Protocol error: too big mbulk count string")
      else (stop, c)
  count_line c (some i) =
      if ltb (avail c) (i + 2)
      then (stop, c)
      else if not (first_byte (unread c) == b'*')
      then (aborted, c)
      else accept_count c i (p.string2ll (take (i - 1) (drop 1 (unread c))))

  -- `multi_bulk_len == 0` starts a request; the client should have been reset.
  unfoldable pub start_multibulk : Client → List Object → Status × Client
  unfolding count_line
  start_multibulk c [] = count_line c (strchr b'\r' (unread c))
  start_multibulk c (a ∷ args) = (aborted, c)

  unfoldable pub multibulk_from : ℕ → Client → Status × Client
  unfolding start_multibulk
  multibulk_from zero c = start_multibulk c c.argv
  multibulk_from (suc n) c = bulk_loop (suc n) c

  unfoldable pub process_multibulk_buffer : Client → Status × Client
  unfolding multibulk_from
  process_multibulk_buffer c = multibulk_from c.multi_bulk_len c

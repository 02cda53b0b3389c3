-- ===== src/Reply.antt =====
-- src/redis/client_reply.c and src/shared/shared.c: what is written to a client. The output buffer
-- is seen as the bytes written to it so far.
pub mod Kept
pub mod Deferred
use latte_redis_server.Prelude.{
  ℕ, List, [], ◌∷◌, ◌++◌, Bool, true, false, ◌&&◌, not, ltb, ◌==◌, if◌then◌else◌,
}
use latte_redis_server.Prelude.Int.{ℤ, pos, negsuc}
use latte_redis_server.Object.{codes, Payload, text, integer, Object, string_object}
use latte_redis_server.Client.{Client}

abbrev pub crlf : List ℕ
crlf = 13 ∷ 10 ∷ []

unfoldable pub add_reply_proto : Client → List ℕ → Client
add_reply_proto c s = record c { reply = c.reply ++ s }

-- `!len || s[0] != '-'`
unfoldable pub lacks_code : List ℕ → Bool
lacks_code [] = true
lacks_code (b ∷ s) = not (b == b'-')

unfoldable pub add_reply_error_length : Client → List ℕ → Client
unfolding add_reply_proto lacks_code
add_reply_error_length c s =
    let c' = if lacks_code s then add_reply_proto c (codes "-ERR ") else c in
    add_reply_proto (add_reply_proto c' s) crlf

unfoldable pub add_reply_error : Client → List ℕ → Client
unfolding add_reply_error_length
add_reply_error c err = add_reply_error_length c err

unfoldable pub add_reply_status_length : Client → List ℕ → Client
unfolding add_reply_proto
add_reply_status_length c s =
    add_reply_proto (add_reply_proto (add_reply_proto c (codes "+")) s) crlf

-- `shared.ok` and the other shared replies
abbrev pub shared_ok : List ℕ
shared_ok = codes "+OK" ++ crlf

abbrev pub shared_pong : List ℕ
shared_pong = codes "+PONG" ++ crlf

abbrev pub shared_wrongtypeerr : List ℕ
shared_wrongtypeerr =
    codes "-WRONGTYPE Operation against a key holding the wrong kind of value" ++ crlf

abbrev pub shared_bulkhdr_len : ℕ
shared_bulkhdr_len = 32

-- `ll2string` of the utilities, which also stands for `%d` of `sds_cat_printf`, and
-- `string_object_len` of the objects, which are not part of the repository.
pub record ReplyApi : Type 0 where
  pub ll2string : ℤ → List ℕ
  pub object_len : Object → ℕ
  -- `sds_trim(s, "\r\n")` and `sds_map_chars(s, "\r\n", "  ", 2)` of the strings
  pub sds_trim_crlf : List ℕ → List ℕ
  pub sds_blank_crlf : List ℕ → List ℕ

module _ (p : ReplyApi) where
  -- `s` is the formatted text.
  unfoldable pub add_reply_error_format : Client → List ℕ → Client
  unfolding add_reply_error_length
  add_reply_error_format c s = add_reply_error_length c (p.sds_blank_crlf (p.sds_trim_crlf s))

  -- `add_reply`: the text of an encoded string, an integer in decimal
  unfoldable pub payload_bytes : Payload → List ℕ
  payload_bytes (text s) = s
  payload_bytes (integer z) = p.ll2string z

  unfoldable pub add_reply : Client → Object → Client
  unfolding add_reply_proto payload_bytes
  add_reply c o = add_reply_proto c (payload_bytes o.payload)

  -- `shared.mbulkhdr[j]` and `shared.bulkhdr[j]`
  unfoldable pub shared_hdr : ℕ → ℕ → Object
  shared_hdr prefix j = string_object (prefix ∷ (p.ll2string (pos j) ++ crlf))

  abbrev is_small : ℤ → Bool
  is_small (pos n) = ltb n shared_bulkhdr_len
  is_small (negsuc n) = false

  abbrev magnitude : ℤ → ℕ
  magnitude (pos n) = n
  magnitude (negsuc n) = 0

  unfoldable pub add_reply_long_long_with_prefix : Client → ℤ → ℕ → Client
  unfolding add_reply shared_hdr
  add_reply_long_long_with_prefix c ll prefix =
      if (prefix == b'*') && is_small ll
      then add_reply c (shared_hdr prefix (magnitude ll))
      else if (prefix == b'$') && is_small ll
      then add_reply c (shared_hdr prefix (magnitude ll))
      else add_reply_proto c (prefix ∷ (p.ll2string ll ++ crlf))

  unfoldable pub add_reply_bulk_len : Client → Object → Client
  unfolding add_reply_long_long_with_prefix
  add_reply_bulk_len c o = add_reply_long_long_with_prefix c (pos (p.object_len o)) b'$'

  unfoldable pub add_reply_bulk : Client → Object → Client
  unfolding add_reply_bulk_len
  add_reply_bulk c o = add_reply (add_reply (add_reply_bulk_len c o) o) (string_object crlf)

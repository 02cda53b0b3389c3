-- ===== src/Client/Inline/Line.antt =====
-- What one accepted line leaves.
use latte_redis_server.Prelude.{
  ℕ, ◌+◌, ◌-◌, ◌%◌, ◌^◌, ◌≡◌, List, [], ◌∷◌, false, not, ◌&&◌, some, take, ◌==◌, if◌then◌else◌, map,
  arith, get_or, inl, inr, Bool-cases,
}
use latte_redis_server.Object.{string_object}
use latte_redis_server.Client.{Client, unread, has_flag, client_master}
use latte_redis_server.Client.Multibulk.{strchr, done}
use latte_redis_server.Client.Inline.{
  InlineApi, set_args, accept_line, inline_line, process_inline_buffer,
}

-- The text of the line whose `\\n` stands at offset `i`: without a `\\r` at its end.
abbrev pub line_text : List ℕ → ℕ → List ℕ
line_text r i = if not (i == 0) && (get_or r (i - 1) 0 == b'\r') then take (i - 1) r else take i r

module _ (p : InlineApi) where
  accept_line_lem :
      (c : Client) (query_len linefeed : ℕ) (args : List (List ℕ))
      → has_flag c.flag client_master ≡ false
      → let (s, c') = accept_line p c query_len linefeed (some args) in
        (s ≡ done)
        × (c'.argv ≡ map string_object args)
        × (c'.qb_pos ≡ (c.qb_pos + (query_len + linefeed)) % 2 ^ 64)
        × (c'.querybuf ≡ c.querybuf)
        × (c'.reply ≡ c.reply)
  unfolding accept_line set_args
  accept_line_lem c query_len linefeed [] h = ground arith
  accept_line_lem c query_len linefeed (a ∷ args) h = ground arith

  -- A line of a client that is no master, once `sds_split_args` takes it apart, gives its
  -- arguments; the read position moves past the text and any `\\r` by whatever `linefeed_chars` was
  -- at the start, modulo 2^64.
  pub process_inline_buffer_lem :
      (c : Client) (i : ℕ) (args : List (List ℕ))
      → has_flag c.flag client_master ≡ false
      → strchr b'\n' (unread c) ≡ some i
      → p.split_args (line_text (unread c) i) ≡ some args
      → let (s, c') = process_inline_buffer p c in
        (s ≡ done)
        × (c'.argv ≡ map string_object args)
        × (c'.qb_pos ≡ (c.qb_pos + (i + p.linefeed_chars)) % 2 ^ 64)
        × (c'.querybuf ≡ c.querybuf)
        × (c'.reply ≡ c.reply)
  unfolding process_inline_buffer inline_line
  process_inline_buffer_lem c i args hm hi hs =
      elim (Bool-cases (not (i == 0) && (get_or (unread c) (i - 1) 0 == b'\r'))) [
        | inl cr ↦ ground (arith, accept_line_lem c (i - 1) (p.linefeed_chars + 1) args)
        | inr lf ↦ ground (arith, accept_line_lem c i p.linefeed_chars args)
      ]

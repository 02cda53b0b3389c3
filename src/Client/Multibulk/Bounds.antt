-- ===== src/Client/Multibulk/Bounds.antt =====
-- The read position never passes the end of the query buffer.
use latte_redis_server.Prelude.{
  ℕ, zero, suc, ◌+◌, ◌-◌, ◌≤◌, ◌≡◌, List, [], ◌∷◌, Option, none, some, length, take, drop, ltb,
  ◌==◌, arith, inl, inr, Bool-cases, length-drop, false,
}
use latte_redis_server.Prelude.Int.{ℤ, pos, negsuc}
use latte_redis_server.Object.{Object, codes}
use latte_redis_server.Client.{Client, unread, avail, proto_inline_max_size}
use latte_redis_server.Reply.{ReplyApi, add_reply_error, add_reply_error_format}
use latte_redis_server.Client.Multibulk.{
  ProtoApi, first_byte, Status, Header, wait, bad, size, bulk_size, trim_big, accept_bulk,
  bulk_line, bulk_header, take_bulk, bulk_round, bulk_loop, auth_required, accept_count, count_line,
  start_multibulk, multibulk_from, process_multibulk_buffer, max_multibulk,
}

abbrev pub InBuffer : Client → Type 0
InBuffer c = c.qb_pos ≤ length c.querybuf

abbrev HeaderInBuffer : Header → Type 0
HeaderInBuffer wait = Unit {0}
HeaderInBuffer (bad c) = InBuffer c
HeaderInBuffer (size ll c) = InBuffer c

error-InBuffer : (c : Client) (s : List ℕ) → InBuffer c → InBuffer (add_reply_error c s)
unfolding add_reply_error
error-InBuffer c s h = ground arith

error_format-InBuffer :
    (p : ReplyApi) (c : Client) (s : List ℕ) → InBuffer c → InBuffer (add_reply_error_format p c s)
unfolding add_reply_error_format
error_format-InBuffer p c s h = ground arith

module _ (p : ProtoApi) where
  trim_big-InBuffer : (ll : ℕ) (c : Client) → InBuffer c → InBuffer (trim_big p ll c)
  unfolding trim_big
  trim_big-InBuffer ll c h = ground arith

  accept_bulk-InBuffer :
      (c : Client) (i : ℕ) (o : Option ℕ)
      → InBuffer c
      → i + 2 ≤ avail c
      → HeaderInBuffer (accept_bulk p c i o)
  unfolding accept_bulk auth_required
  accept_bulk-InBuffer c i none h a = error-InBuffer c _ h
  accept_bulk-InBuffer c i (some ll) h a = ground (
    arith,
    trim_big-InBuffer ll (record c { qb_pos = c.qb_pos + i + 2 }),
    length-drop c.qb_pos c.querybuf,
  )

  bulk_line-InBuffer : (c : Client) (o : Option ℕ) → InBuffer c → HeaderInBuffer (bulk_line p c o)
  unfolding bulk_line
  bulk_line-InBuffer c none h = elim (Bool-cases (ltb proto_inline_max_size (avail c))) [
    | inl long ↦ rw long (error-InBuffer c _ h)
    | inr short ↦ rw short tt
  ]
  bulk_line-InBuffer c (some i) h = elim (Bool-cases (ltb (avail c) (i + 2))) [
    | inl cut ↦ rw cut tt
    | inr whole ↦ elim (Bool-cases (first_byte (unread c) == b'$')) [
      | inl dollar ↦
          rw (whole, dollar)
            (accept_bulk-InBuffer c i
              (bulk_size p c.flag (p.string2ll (take (i - 1) (drop 1 (unread c))))) h
              (ground arith))
      | inr other ↦ rw (whole, other) (error_format-InBuffer p.reply c _ h)
    ]
  ]

  bulk_header-InBuffer :
      (c : Client) (b : Option ℕ) → InBuffer c → HeaderInBuffer (bulk_header p c b)
  unfolding bulk_header
  bulk_header-InBuffer c none h = bulk_line-InBuffer c _ h
  bulk_header-InBuffer c (some ll) h = h

  take_bulk-InBuffer :
      (ll n : ℕ) (c : Client)
      → InBuffer c
      → ltb (avail c) (ll + 2) ≡ false
      → InBuffer (take_bulk p ll n c)
  unfolding take_bulk
  take_bulk-InBuffer ll n c h a = ground (arith, length-drop c.qb_pos c.querybuf)

  bulk_round-InBuffer :
      (next : Client → Status × Client) (n : ℕ) (c : Client) (h : Header)
      → InBuffer c
      → ((d : Client) → InBuffer d → InBuffer (next d).1)
      → HeaderInBuffer h
      → InBuffer (bulk_round p next n c h).1
  unfolding bulk_round
  bulk_round-InBuffer next n c wait hc ih hh = hc
  bulk_round-InBuffer next n c (bad c') hc ih hh = hh
  bulk_round-InBuffer next n c (size ll c') hc ih hh =
      let c'' = record c' { bulk_len = some ll } in
      elim (Bool-cases (ltb (avail c'') (ll + 2))) [
        | inl cut ↦ rw cut hh
        | inr whole ↦ rw whole (ih (take_bulk p ll n c'') (take_bulk-InBuffer ll n c'' hh whole))
      ]

  pub bulk_loop-InBuffer : (n : ℕ) (c : Client) → InBuffer c → InBuffer (bulk_loop p n c).1
  unfolding bulk_loop
  bulk_loop-InBuffer zero c h = h
  bulk_loop-InBuffer (suc n) c h =
      bulk_round-InBuffer (bulk_loop p n) n c (bulk_header p c c.bulk_len) h
        (λ d hd. bulk_loop-InBuffer n d hd) (bulk_header-InBuffer c c.bulk_len h)

  accept_count-InBuffer :
      (c : Client) (i : ℕ) (o : Option ℤ)
      → InBuffer c
      → i + 2 ≤ avail c
      → InBuffer (accept_count p c i o).1
  unfolding accept_count auth_required
  accept_count-InBuffer c i none h a = error-InBuffer c _ h
  accept_count-InBuffer c i (some (negsuc n)) h a = omega (arith, length-drop c.qb_pos c.querybuf)
  accept_count-InBuffer c i (some (pos zero)) h a = omega (arith, length-drop c.qb_pos c.querybuf)
  accept_count-InBuffer c i (some (pos (suc n))) h a =
      let d = record c { qb_pos = c.qb_pos + i + 2; multi_bulk_len = suc n; argv_len_sum = 0 } in
      elim (Bool-cases (ltb max_multibulk (suc n))) [
        | inl big ↦ rw big (error-InBuffer c _ h)
        | inr fits ↦
            ground (arith, fits, bulk_loop-InBuffer (suc n) d, length-drop c.qb_pos c.querybuf)
      ]

  count_line-InBuffer : (c : Client) (o : Option ℕ) → InBuffer c → InBuffer (count_line p c o).1
  unfolding count_line
  count_line-InBuffer c none h =
      ground (arith, error-InBuffer c (codes "Protocol error: too big mbulk count string"))
  count_line-InBuffer c (some i) h = elim (Bool-cases (ltb (avail c) (i + 2))) [
    | inl cut ↦ rw cut h
    | inr whole ↦ elim (Bool-cases (first_byte (unread c) == b'*')) [
      | inl star ↦
          rw (whole, star)
            (accept_count-InBuffer c i (p.string2ll (take (i - 1) (drop 1 (unread c)))) h
              (ground arith))
      | inr other ↦ rw (whole, other) h
    ]
  ]

  start_multibulk-InBuffer :
      (c : Client) (a : List Object) → InBuffer c → InBuffer (start_multibulk p c a).1
  unfolding start_multibulk
  start_multibulk-InBuffer c [] h = count_line-InBuffer c _ h
  start_multibulk-InBuffer c (a ∷ args) h = h

  multibulk_from-InBuffer : (n : ℕ) (c : Client) → InBuffer c → InBuffer (multibulk_from p n c).1
  unfolding multibulk_from
  multibulk_from-InBuffer zero c h = start_multibulk-InBuffer c _ h
  multibulk_from-InBuffer (suc n) c h = bulk_loop-InBuffer (suc n) c h

  -- Whatever the bytes, a call that starts with the read position inside the query buffer ends
  -- with it there, on every path.
  pub process_multibulk_buffer-InBuffer :
      (c : Client) → InBuffer c → InBuffer (process_multibulk_buffer p c).1
  unfolding process_multibulk_buffer
  process_multibulk_buffer-InBuffer c h = multibulk_from-InBuffer c.multi_bulk_len c h

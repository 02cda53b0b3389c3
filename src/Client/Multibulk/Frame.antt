-- ===== src/Client/Multibulk/Frame.antt =====
-- The fields that `process_multibulk_buffer` leaves alone.
use latte_redis_server.Prelude.{
  ℕ, zero, suc, ◌+◌, ◌-◌, ◌≡◌, List, [], ◌∷◌, Option, none, some, take, drop, ltb, ◌==◌, arith, inl,
  inr, Bool-cases,
}
use latte_redis_server.Prelude.Int.{ℤ, pos, negsuc}
use latte_redis_server.Object.{Object}
use latte_redis_server.Client.{Client, unread, avail, proto_inline_max_size}
use latte_redis_server.Reply.{ReplyApi, add_reply_error, add_reply_error_format}
use latte_redis_server.Client.Multibulk.{
  ProtoApi, first_byte, Status, Header, wait, bad, size, bulk_size, accept_bulk, bulk_line,
  bulk_header, take_bulk, bulk_round, bulk_loop, auth_required, accept_count, count_line,
  start_multibulk, multibulk_from, process_multibulk_buffer, max_multibulk,
}

pub record Frame (c c' : Client) : Type 0 where
  pub flag : c'.flag ≡ c.flag
  pub close_after_reply : c'.close_after_reply ≡ c.close_after_reply
  pub close_asap : c'.close_asap ≡ c.close_asap
  pub req_type : c'.req_type ≡ c.req_type
  pub cmd : c'.cmd ≡ c.cmd
  pub lastcmd : c'.lastcmd ≡ c.lastcmd
  pub read_reploff : c'.read_reploff ≡ c.read_reploff
  pub repl_ack_time : c'.repl_ack_time ≡ c.repl_ack_time
  pub dbid : c'.dbid ≡ c.dbid

Frame-refl : (c : Client) → Frame c c
Frame-refl c = ground arith

Frame-trans : {a b c : Client} → Frame a b → Frame b c → Frame a c
Frame-trans f g = ground arith

-- The header's client, where there is one.
abbrev HeaderFrame : Client → Header → Type 0
HeaderFrame c wait = Unit {0}
HeaderFrame c (bad c') = Frame c c'
HeaderFrame c (size ll c') = Frame c c'

error-Frame : (c : Client) (s : List ℕ) → Frame c (add_reply_error c s)
unfolding add_reply_error
error-Frame c s = ground arith

error_format-Frame :
    (p : ReplyApi) (c : Client) (s : List ℕ) → Frame c (add_reply_error_format p c s)
unfolding add_reply_error_format
error_format-Frame p c s = ground arith

module _ (p : ProtoApi) where
  accept_bulk-Frame : (c : Client) (i : ℕ) (o : Option ℕ) → HeaderFrame c (accept_bulk p c i o)
  unfolding accept_bulk auth_required
  accept_bulk-Frame c i none = error-Frame c _
  accept_bulk-Frame c i (some ll) = ground arith

  bulk_line-Frame : (c : Client) (o : Option ℕ) → HeaderFrame c (bulk_line p c o)
  unfolding bulk_line
  bulk_line-Frame c none = elim (Bool-cases (ltb proto_inline_max_size (avail c))) [
    | inl long ↦ rw long (error-Frame c _)
    | inr short ↦ rw short tt
  ]
  bulk_line-Frame c (some i) = elim (Bool-cases (ltb (avail c) (i + 2))) [
    | inl cut ↦ rw cut tt
    | inr whole ↦ elim (Bool-cases (first_byte (unread c) == b'$')) [
      | inl dollar ↦
          rw (whole, dollar)
            (accept_bulk-Frame c i
              (bulk_size p c.flag (p.string2ll (take (i - 1) (drop 1 (unread c))))))
      | inr other ↦ rw (whole, other) (error_format-Frame p.reply c _)
    ]
  ]

  bulk_header-Frame : (c : Client) (b : Option ℕ) → HeaderFrame c (bulk_header p c b)
  unfolding bulk_header
  bulk_header-Frame c none = bulk_line-Frame c _
  bulk_header-Frame c (some ll) = Frame-refl c

  take_bulk-Frame :
      (ll n : ℕ) (c c' : Client)
      → Frame c c'
      → Frame c (take_bulk p ll n (record c' { bulk_len = some ll }))
  unfolding take_bulk
  take_bulk-Frame ll n c c' f = ground arith

  bulk_round-Frame :
      (next : Client → Status × Client) (n : ℕ) (c : Client) (h : Header)
      → ((d : Client) → Frame d (next d).1)
      → HeaderFrame c h
      → Frame c (bulk_round p next n c h).1
  unfolding bulk_round
  bulk_round-Frame next n c wait ih hh = Frame-refl c
  bulk_round-Frame next n c (bad c') ih hh = hh
  bulk_round-Frame next n c (size ll c') ih hh =
      let c'' = record c' { bulk_len = some ll } in
      elim (Bool-cases (ltb (avail c'') (ll + 2))) [
        | inl cut ↦ rw cut (ground arith)
        | inr whole ↦
            rw whole (Frame-trans (take_bulk-Frame ll n c c' hh) (ih (take_bulk p ll n c'')))
      ]

  pub bulk_loop-Frame : (n : ℕ) (c : Client) → Frame c (bulk_loop p n c).1
  unfolding bulk_loop
  bulk_loop-Frame zero c = Frame-refl c
  bulk_loop-Frame (suc n) c =
      bulk_round-Frame (bulk_loop p n) n c (bulk_header p c c.bulk_len) (bulk_loop-Frame n)
        (bulk_header-Frame c c.bulk_len)

  accept_count-Frame : (c : Client) (i : ℕ) (o : Option ℤ) → Frame c (accept_count p c i o).1
  unfolding accept_count auth_required
  accept_count-Frame c i none = error-Frame c _
  accept_count-Frame c i (some (negsuc n)) = ground arith
  accept_count-Frame c i (some (pos zero)) = ground arith
  accept_count-Frame c i (some (pos (suc n))) =
      let d = record c { qb_pos = c.qb_pos + i + 2; multi_bulk_len = suc n; argv_len_sum = 0 } in
      elim (Bool-cases (ltb max_multibulk (suc n))) [
        | inl big ↦ rw big (error-Frame c _)
        | inr fits ↦ ground (arith, fits, bulk_loop-Frame (suc n) d)
      ]

  count_line-Frame : (c : Client) (o : Option ℕ) → Frame c (count_line p c o).1
  unfolding count_line
  count_line-Frame c none = elim (Bool-cases (ltb proto_inline_max_size (avail c))) [
    | inl long ↦ rw long (error-Frame c _)
    | inr short ↦ rw short (Frame-refl c)
  ]
  count_line-Frame c (some i) = elim (Bool-cases (ltb (avail c) (i + 2))) [
    | inl cut ↦ rw cut (Frame-refl c)
    | inr whole ↦ elim (Bool-cases (first_byte (unread c) == b'*')) [
      | inl star ↦
          rw (whole, star) (accept_count-Frame c i (p.string2ll (take (i - 1) (drop 1 (unread c)))))
      | inr other ↦ rw (whole, other) (Frame-refl c)
    ]
  ]

  start_multibulk-Frame : (c : Client) (a : List Object) → Frame c (start_multibulk p c a).1
  unfolding start_multibulk
  start_multibulk-Frame c [] = count_line-Frame c _
  start_multibulk-Frame c (a ∷ args) = Frame-refl c

  multibulk_from-Frame : (n : ℕ) (c : Client) → Frame c (multibulk_from p n c).1
  unfolding multibulk_from
  multibulk_from-Frame zero c = start_multibulk-Frame c _
  multibulk_from-Frame (suc n) c = bulk_loop-Frame (suc n) c

  -- A call changes only the query buffer and its position, the arguments, the counts of what is
  -- missing, and the reply.
  pub process_multibulk_buffer-Frame : (c : Client) → Frame c (process_multibulk_buffer p c).1
  unfolding process_multibulk_buffer
  process_multibulk_buffer-Frame c = multibulk_from-Frame c.multi_bulk_len c

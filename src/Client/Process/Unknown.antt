-- ===== src/Client/Process/Unknown.antt =====
-- One round of the input loop over a whole request, and what follows a command that is not in the
-- table.
use latte_redis_server.Prelude.{
  ℕ, suc, ◌<◌, ◌≤◌, ◌≡◌, ap, ◌∙◌, List, [], ◌∷◌, ◌++◌, true, false, none, length, ltb, map, arith,
  length-drop,
}
use latte_redis_server.Object.{Object, string_object}
use latte_redis_server.Client.{Client, unset, multibulk, unread}
use latte_redis_server.Client.Multibulk.{
  Status, done, stop, aborted, first_byte, process_multibulk_buffer, multibulk_from,
  start_multibulk, max_multibulk,
}
use latte_redis_server.Client.Multibulk.Frame.{Frame, process_multibulk_buffer-Frame}
use latte_redis_server.Client.Multibulk.Bounds.{InBuffer, process_multibulk_buffer-InBuffer}
use latte_redis_server.Client.Multibulk.RoundTrip.{
  Decimal, encode, Sendable, process_multibulk_buffer-encode,
}
use latte_redis_server.Client.Process.{
  Env, again, crash, crashed, process_command, process_found, after_command, execute, parsed,
  request_type, parse, turn, continue, redis_process_input_buffer,
}

-- A connection between two requests, with its read position inside the query buffer.
pub record IsReset (c : Client) : Type 0 where
  pub multi_bulk_len : c.multi_bulk_len ≡ 0
  pub argv : c.argv ≡ []
  pub bulk_len : c.bulk_len ≡ none
  pub req_type : c.req_type ≡ unset
  pub close_after_reply : c.close_after_reply ≡ false
  pub close_asap : c.close_asap ≡ false
  pub in_buffer : InBuffer c

abbrev as_multibulk : Client → Client
as_multibulk c = record c { req_type = multibulk }

-- `c'` is what reading the request `args` from `c` leaves, with `rest` unread.
pub record HasRead (args : List (List ℕ)) (rest : List ℕ) (c c' : Client) : Type 0 where
  pub argv : c'.argv ≡ map string_object args
  pub unread_rest : unread c' ≡ rest
  pub multi_bulk_len : c'.multi_bulk_len ≡ 0
  pub bulk_len : c'.bulk_len ≡ none
  pub reply : c'.reply ≡ c.reply
  pub frame : Frame (as_multibulk c) c'
  pub in_buffer : InBuffer c'

pub more_to_read : (c : Client) → 0 < length (unread c) → ltb c.qb_pos (length c.querybuf) ≡ true
more_to_read c h = ground (arith, length-drop c.qb_pos c.querybuf)

module _ {S : Type 0} (env : Env S) (d : Decimal env.proto) where
  turn-multibulk :
      (s : S) (c : Client)
      → IsReset c
      → first_byte (unread c) ≡ b'*'
      → turn env s c ≡ parsed env s (process_multibulk_buffer env.proto (as_multibulk c))
  unfolding turn parse request_type
  turn-multibulk s c r h = ground arith

  parsed-done :
      (s : S) (o : Status × Client) (name : Object) (args : List Object)
      → o.0 ≡ done
      → o.1.argv ≡ name ∷ args
      → parsed env s o ≡ after_command env s o.1 (process_command env name s o.1)
  unfolding parsed execute
  parsed-done s (done, c) name args h e = ground (arith, e)
  parsed-done s (stop, c) name args h e = cc
  parsed-done s (aborted, c) name args h e = cc

  -- A round over an encoded request hands it to the command of its name.
  pub turn-encode :
      (s : S) (c : Client) (name : List ℕ) (args : List (List ℕ)) (rest : List ℕ)
      → IsReset c
      → unread c ≡ encode env.proto d (name ∷ args) ++ rest
      → Sendable env.proto d c.flag (name ∷ args)
      → length (name ∷ args) ≤ max_multibulk
      → (c' : Client) × HasRead (name ∷ args) rest c c'
        × (turn env s c ≡ after_command env s c' (process_command env (string_object name) s c'))
  unfolding first_byte
  turn-encode s c name args rest r hu hs hl =
      let m = as_multibulk c in
      let out = process_multibulk_buffer env.proto m in
      let a =
        process_multibulk_buffer-encode env.proto d m (name ∷ args) rest r.multi_bulk_len r.argv
          r.bulk_len hu hs (omega arith) hl in
      let argv : out.1.argv ≡ map string_object (name ∷ args) =
        a.1 ∙ ap (λ t. t ++ map string_object (name ∷ args)) r.argv in
      (
        out.1,
        record {
          argv = argv;
          unread_rest = a.2;
          multi_bulk_len = a.3;
          bulk_len = a.4;
          reply = a.5;
          frame = process_multibulk_buffer-Frame env.proto m;
          in_buffer = process_multibulk_buffer-InBuffer env.proto m r.in_buffer;
        },
        turn-multibulk s c r (ap first_byte hu)
            ∙ parsed-done s out (string_object name) (map string_object args) a.0 argv,
      )

  -- A request for a command that is not in the table gets no reply, and the client is not reset.
  turn-unknown :
      (s : S) (c : Client) (name : List ℕ) (args : List (List ℕ)) (rest : List ℕ)
      → IsReset c
      → unread c ≡ encode env.proto d (name ∷ args) ++ rest
      → Sendable env.proto d c.flag (name ∷ args)
      → length (name ∷ args) ≤ max_multibulk
      → env.lookup s name ≡ none
      → (c' : Client) × (turn env s c ≡ again s c')
        × (c'.argv ≡ map string_object (name ∷ args))
        × (unread c' ≡ rest)
        × (c'.reply ≡ c.reply)
        × (c'.req_type ≡ multibulk)
        × (c'.multi_bulk_len ≡ 0)
        × (c'.close_after_reply ≡ false)
        × (c'.close_asap ≡ false)
  unfolding process_command process_found after_command
  turn-unknown s c name args rest r hu hs hl hn =
      let (c', read, e) = turn-encode s c name args rest r hu hs hl in
      (
        record c' { cmd = none; lastcmd = none },
        ground (arith, e),
        read.argv,
        read.unread_rest,
        read.reply,
        read.frame.req_type,
        read.multi_bulk_len,
        read.frame.close_after_reply ∙ r.close_after_reply,
        read.frame.close_asap ∙ r.close_asap,
      )

  -- A client that is left so, in multibulk mode, fails the assertion on `argc` at its next byte.
  turn-stale :
      (s : S) (c : Client) (a : Object) (args : List Object)
      → c.req_type ≡ multibulk
      → c.close_after_reply ≡ false
      → c.close_asap ≡ false
      → c.multi_bulk_len ≡ 0
      → c.argv ≡ a ∷ args
      → turn env s c ≡ crash s (as_multibulk c)
  unfolding turn parse parsed request_type process_multibulk_buffer multibulk_from start_multibulk
  turn-stale s c a args ht h1 h2 hm ha = ground arith

  -- A round that goes on, with a byte to read.
  pub loop-again :
      (fuel : ℕ) (s s' : S) (c c' : Client)
      → 0 < length (unread c)
      → turn env s c ≡ again s' c'
      → redis_process_input_buffer env (suc fuel) s c ≡ redis_process_input_buffer env fuel s' c'
  unfolding redis_process_input_buffer continue
  loop-again fuel s s' c c' h e = rw (more_to_read c h, e)

  loop-crash :
      (fuel : ℕ) (s s' : S) (c c' : Client)
      → 0 < length (unread c)
      → turn env s c ≡ crash s' c'
      → redis_process_input_buffer env (suc fuel) s c ≡ crashed s' c'
  unfolding redis_process_input_buffer continue
  loop-crash fuel s s' c c' h e = rw (more_to_read c h, e)

  -- A multibulk request for a command that is not in the table, from a client that is between two requests,
  -- with at least one more byte behind it, ends in the assertion that `argc` is 0: the loop writes no reply
  -- and fails on the next round. The request has at most 1048576 arguments, each shorter than 2^63 and,
  -- unless the client is a master, no longer than `proto_max_bulk_len`.
  pub unknown_command_crashes :
      (fuel : ℕ) (s : S) (c : Client) (name : List ℕ) (args : List (List ℕ)) (b : ℕ) (rest : List ℕ)
      → IsReset c
      → unread c ≡ encode env.proto d (name ∷ args) ++ (b ∷ rest)
      → Sendable env.proto d c.flag (name ∷ args)
      → length (name ∷ args) ≤ max_multibulk
      → env.lookup s name ≡ none
      → (c' : Client) × (redis_process_input_buffer env (suc (suc fuel)) s c ≡ crashed s c')
        × (c'.reply ≡ c.reply)
        × (c'.argv ≡ map string_object (name ∷ args))
  unknown_command_crashes fuel s c name args b rest r hu hs hl hn =
      let (c', e, argv, bytes, reply, type, zero_left, h1, h2) =
        turn-unknown s c name args (b ∷ rest) r hu hs hl hn in
      let first : 0 < length (unread c) = rw hu (omega arith) in
      let second : 0 < length (unread c') = rw bytes (omega arith) in
      (
        as_multibulk c',
        loop-again (suc fuel) s s c c' first e
            ∙ loop-crash fuel s s c' (as_multibulk c') second (
                turn-stale s c' (string_object name) (map string_object args) type h1 h2 zero_left
                  argv),
        reply,
        argv,
      )

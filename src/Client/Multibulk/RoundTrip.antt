-- ===== src/Client/Multibulk/RoundTrip.antt =====
-- A request as clients write it is read back: encode, then `process_multibulk_buffer`.
use native.Mathlib.Nat.{add_assoc}
use latte_redis_server.Prelude.{
  ℕ, suc, ◌+◌, ◌-◌, ◌<◌, ◌≤◌, ◌≡◌, refl, ap, ◌∙◌, List, [], ◌∷◌, ◌++◌, true, false, none, some,
  length, take, drop, ◌==◌, arith, append_assoc, length-append, ◌^◌, ◌⊎◌,
}
use latte_redis_server.Prelude.Int.{pos}
use latte_redis_server.Prelude.Slices.{drop-append_self, take-append_self, drop-drop}
use latte_redis_server.Client.{Client, unread, has_flag, client_master}
use latte_redis_server.Reply.{crlf}
use latte_redis_server.Client.Multibulk.{
  ProtoApi, strchr, first_byte, bulk_size, auth_required, max_multibulk, accept_count, count_line,
  start_multibulk, multibulk_from, process_multibulk_buffer, bulk_loop,
}
use latte_redis_server.Client.Multibulk.Scan.{
  sized, Scan, complete, line_at, line, scan_round, scan, Agrees,
}
use latte_redis_server.Client.Multibulk.Loop.{bound, bulk_loop-Agrees}

-- Bytes that `strchr(…, '\\r')` passes over.
abbrev pub Plain : List ℕ → Type 0
Plain [] = Unit {0}
Plain (b ∷ s) = ((b == 13) ≡ false) × ((b == 0) ≡ false) × Plain s

-- How a client writes a length, and that the server's `string2ll` reads it.
pub record Decimal (p : ProtoApi) : Type 0 where
  pub digits : ℕ → List ℕ
  pub string2ll-digits : (n : ℕ) → n < 2 ^ 63 → p.string2ll (digits n) ≡ some (pos n)
  pub digits-Plain : (n : ℕ) → Plain (digits n)

pred-suc : (k : ℕ) → suc k - 1 ≡ k
pred-suc k = omega arith

suc-add : (a b : ℕ) → suc a + b ≡ suc (a + b)
suc-add a b = omega arith

strchr-Plain : (s t : List ℕ) → Plain s → strchr b'\r' (s ++ (13 ∷ t)) ≡ some (length s)
unfolding strchr
strchr-Plain [] t h = refl
strchr-Plain (b ∷ s) t h = rw (h.0, h.1, strchr-Plain s t h.2)

module _ (p : ProtoApi) (d : Decimal p) where
  abbrev pub encode_bulk : List ℕ → List ℕ
  encode_bulk a = b'$' ∷ (d.digits (length a) ++ (crlf ++ (a ++ crlf)))

  abbrev pub encode_bulks : List (List ℕ) → List ℕ
  encode_bulks [] = []
  encode_bulks (a ∷ args) = encode_bulk a ++ encode_bulks args

  -- `*<n>\r\n` and the arguments
  abbrev pub encode : List (List ℕ) → List ℕ
  encode args = b'*' ∷ (d.digits (length args) ++ (crlf ++ encode_bulks args))

  -- What the server lets this client send: its limit holds unless the client is a master.
  abbrev pub Sendable : ℕ → List (List ℕ) → Type 0
  Sendable flags [] = Unit {0}
  Sendable flags (a ∷ args) =
      (length a < 2 ^ 63)
      × ((has_flag flags client_master ≡ true) ⊎ (length a ≤ p.proto_max_bulk_len))
      × Sendable flags args

  -- Both kinds of header: the marker, digits, CRLF, and what follows.
  abbrev header_bytes : ℕ → ℕ → List ℕ → List ℕ
  header_bytes mark n rest = mark ∷ (d.digits n ++ (13 ∷ 10 ∷ rest))

  strchr-header :
      (mark n : ℕ) (rest : List ℕ)
      → (mark == 13) ≡ false
      → (mark == 0) ≡ false
      → strchr b'\r' (header_bytes mark n rest) ≡ some (suc (length (d.digits n)))
  unfolding strchr
  strchr-header mark n rest h0 h1 =
      rw (h0, h1, strchr-Plain (d.digits n) (10 ∷ rest) (d.digits-Plain n))

  take-header :
      (mark n : ℕ) (rest : List ℕ)
      → take (suc (length (d.digits n)) - 1) (drop 1 (header_bytes mark n rest)) ≡ d.digits n
  take-header mark n rest =
      rw (pred-suc (length (d.digits n))) (take-append_self (d.digits n) (13 ∷ 10 ∷ rest))

  drop-header :
      (mark n : ℕ) (rest : List ℕ)
      → drop (suc (length (d.digits n)) + 2) (header_bytes mark n rest) ≡ rest
  drop-header mark n rest =
      let k = length (d.digits n) in
      rw (suc-add k 2) (
        drop-drop k 2 (d.digits n ++ (13 ∷ 10 ∷ rest))
        ∙ ap (drop 2) (drop-append_self (d.digits n) (13 ∷ 10 ∷ rest)))

  bound-digits :
      (flags n : ℕ)
      → n < 2 ^ 63
      → (has_flag flags client_master ≡ true) ⊎ (n ≤ p.proto_max_bulk_len)
      → bound p flags (d.digits n) ≡ some n
  unfolding bound bulk_size
  bound-digits flags n h l = rw (d.string2ll-digits n h) (ground arith)

  encode_bulk-append :
      (a rest : List ℕ) → encode_bulk a ++ rest ≡ header_bytes b'$' (length a) (a ++ (crlf ++ rest))
  encode_bulk-append a rest = simp append_assoc

  line-header :
      (flags n : ℕ) (rest : List ℕ)
      → bound p flags (d.digits n) ≡ some n
      → line (bound p flags) none (header_bytes b'$' n rest) ≡ sized n rest
  unfolding line line_at first_byte
  line-header flags n rest h = rw (strchr-header b'$' n rest refl refl) (
      ground (
        arith,
        length-append (d.digits n) (13 ∷ 10 ∷ rest),
        take-header b'$' n rest,
        drop-header b'$' n rest,
      ))

  drop-crlf : (a rest : List ℕ) → drop (length a + 2) (a ++ (crlf ++ rest)) ≡ rest
  drop-crlf a rest =
      drop-drop (length a) 2 (a ++ (crlf ++ rest)) ∙ ap (drop 2) (drop-append_self a (crlf ++ rest))

  round-encode_bulk :
      (flags n : ℕ) (next : List ℕ → Scan) (q a rest : List ℕ) (args : List (List ℕ)) (r : List ℕ)
      → next rest ≡ complete args r
      → scan_round (bound p flags) next n q (sized (length a) (a ++ (crlf ++ rest)))
        ≡ complete (a ∷ args) r
  unfolding scan_round
  round-encode_bulk flags n next q a rest args r h =
      ground
        (arith, length-append a (crlf ++ rest), take-append_self a (crlf ++ rest), drop-crlf a rest)

  -- The scan of encoded arguments gives them back, with the bytes behind them.
  scan-encode_bulks :
      (flags : ℕ) (args : List (List ℕ)) (rest : List ℕ)
      → Sendable flags args
      → scan (bound p flags) (length args) none (encode_bulks args ++ rest) ≡ complete args rest
  unfolding scan
  scan-encode_bulks flags [] rest h = refl
  scan-encode_bulks flags (a ∷ args) rest h =
      rw
        (
          append_assoc (encode_bulk a) (encode_bulks args) rest,
          encode_bulk-append a (encode_bulks args ++ rest),
          line-header flags (length a) (a ++ (crlf ++ (encode_bulks args ++ rest)))
              (bound-digits flags (length a) h.0 h.1),
        )
        (round-encode_bulk flags (length args) (scan (bound p flags) (length args) none)
          (header_bytes b'$' (length a) (a ++ (crlf ++ (encode_bulks args ++ rest)))) a
          (encode_bulks args ++ rest) args rest (scan-encode_bulks flags args rest h.2))

  encode-append :
      (args : List (List ℕ)) (rest : List ℕ)
      → encode args ++ rest ≡ header_bytes b'*' (length args) (encode_bulks args ++ rest)
  encode-append args rest = simp append_assoc

  accept_count-fits :
      (c : Client) (i n : ℕ)
      → suc n ≤ max_multibulk
      → accept_count p c i (some (pos (suc n)))
        ≡ bulk_loop p
            (suc n)
            (record c { qb_pos = c.qb_pos + i + 2; multi_bulk_len = suc n; argv_len_sum = 0 })
  unfolding accept_count auth_required
  accept_count-fits c i n h = ground arith

  count_line-header :
      (c : Client) (n : ℕ) (tail : List ℕ)
      → n < 2 ^ 63
      → unread c ≡ header_bytes b'*' n tail
      → count_line p c (strchr b'\r' (unread c))
        ≡ accept_count p c (suc (length (d.digits n))) (some (pos n))
  unfolding count_line first_byte
  count_line-header c n tail hn hu =
      rw (ap (strchr b'\r') hu ∙ strchr-header b'*' n tail refl refl) (
        ground (
          arith,
          length-append (d.digits n) (13 ∷ 10 ∷ tail),
          take-header b'*' n tail,
          d.string2ll-digits n hn,
          ap length hu,
        ))

  -- A client that has been reset starts a request.
  process-reset :
      (c : Client)
      → c.multi_bulk_len ≡ 0
      → c.argv ≡ []
      → process_multibulk_buffer p c ≡ count_line p c (strchr b'\r' (unread c))
  unfolding process_multibulk_buffer multibulk_from start_multibulk
  process-reset c hm ha = ground arith

  accept_count-encode :
      (c : Client) (i : ℕ) (a : List ℕ) (args : List (List ℕ)) (rest : List ℕ)
      → c.bulk_len ≡ none
      → drop (i + 2) (unread c) ≡ encode_bulks (a ∷ args) ++ rest
      → Sendable c.flag (a ∷ args)
      → length (a ∷ args) ≤ max_multibulk
      → Agrees c (complete (a ∷ args) rest) (accept_count p c i (some (pos (length (a ∷ args)))))
  accept_count-encode c i a args rest hb hu hs hl =
      let n = length (a ∷ args) in
      let e = record c { qb_pos = c.qb_pos + i + 2; multi_bulk_len = n; argv_len_sum = 0 } in
      let bytes : unread e ≡ encode_bulks (a ∷ args) ++ rest =
        ap (λ k. drop k c.querybuf) (add_assoc c.qb_pos i 2)
        ∙ drop-drop c.qb_pos (i + 2) c.querybuf
        ∙ hu in
      let read : scan (bound p c.flag) n none (unread e) ≡ complete (a ∷ args) rest =
        ap (scan (bound p c.flag) n none) bytes ∙ scan-encode_bulks c.flag (a ∷ args) rest hs in
      rw (accept_count-fits c i (length args) hl)
        (rw read at (bulk_loop-Agrees p n c.flag none e refl refl hb (λ z. absurd (omega arith))))

  -- A request of at least one and at most 1048576 arguments, encoded at the read position of a
  -- client that has been reset, is read in one call: the call returns 0 with those arguments in
  -- `argv`, what follows the request unread, the parser's state reset, and no reply written. Every
  -- argument is shorter than 2^63 and, unless the client is a master, no longer than `proto_max_bulk_len`.
  pub process_multibulk_buffer-encode :
      (c : Client) (args : List (List ℕ)) (rest : List ℕ)
      → c.multi_bulk_len ≡ 0
      → c.argv ≡ []
      → c.bulk_len ≡ none
      → unread c ≡ encode args ++ rest
      → Sendable c.flag args
      → 0 < length args
      → length args ≤ max_multibulk
      → Agrees c (complete args rest) (process_multibulk_buffer p c)
  process_multibulk_buffer-encode c [] rest hm ha hb hu hs h0 hl = absurd (omega arith)
  process_multibulk_buffer-encode c (a ∷ args) rest hm ha hb hu hs h0 hl =
      let n = length (a ∷ args) in
      let tail = encode_bulks (a ∷ args) ++ rest in
      let bytes : unread c ≡ header_bytes b'*' n tail = hu ∙ encode-append (a ∷ args) rest in
      rw (process-reset c hm ha, count_line-header c n tail (omega arith) bytes)
        (accept_count-encode c (suc (length (d.digits n))) a args rest hb
          (ap (drop (suc (length (d.digits n)) + 2)) bytes ∙ drop-header b'*' n tail) hs hl)

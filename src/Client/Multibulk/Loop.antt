-- ===== src/Client/Multibulk/Loop.antt =====
-- The loop of `process_multibulk_buffer` computes the scan of the unread bytes, whichever way it
-- moves or reuses the query buffer.
use latte_redis_server.Prelude.{
  ℕ, zero, suc, ◌+◌, ◌-◌, ◌≡◌, refl, ap, sym, ◌∙◌, List, [], ◌∷◌, ◌++◌, false, Option, none, some,
  take, drop, ltb, ◌==◌, map, arith, append_assoc, append-nil, map-append, inl, inr, Bool-cases,
}
use latte_redis_server.Prelude.Slices.{drop-drop, drop_all}
use latte_redis_server.Object.{string_object}
use latte_redis_server.Client.{Client, unread, avail, proto_inline_max_size}
use latte_redis_server.Client.Multibulk.{
  ProtoApi, first_byte, Status, Header, wait, bad, size, bulk_size, trim_big, accept_bulk,
  bulk_line, bulk_header, take_bulk, bulk_round, bulk_loop, auth_required,
}
use latte_redis_server.Reply.Kept.{
  SentLine, add_reply_error-SentLine, add_reply_error_format-SentLine,
}
use native.Mathlib.Nat.{add_assoc}
use latte_redis_server.Client.Multibulk.Scan.{
  Line, more, refused, sized, Scan, complete, partial, failed, prepend, sized_by, line_at, line,
  scan_round, scan, Agrees,
}

-- The fields that reading a header leaves alone.
abbrev KeptArgs : Client → Client → Type 0
KeptArgs c c' =
    (c'.argv ≡ c.argv)
    × (c'.reply ≡ c.reply)
    × (c'.flag ≡ c.flag)
    × (c'.multi_bulk_len ≡ c.multi_bulk_len)

-- A header read by the source against one read from the bytes; `b` is the length known before.
abbrev HeaderAgrees : Client → Option ℕ → Line → Header → Type 0
HeaderAgrees c b more wait = b ≡ none
HeaderAgrees c b refused (bad c') = SentLine c c'
HeaderAgrees c b (sized ll r) (size ll' c') = (ll' ≡ ll) × (unread c' ≡ r) × KeptArgs c c'
HeaderAgrees c b _ _ = ⊥

-- A scan that goes on from `d`, after the arguments `xs`, seen from `c`.
pub Agrees-prepend :
    (c d : Client) (xs : List (List ℕ)) (s : Scan) (out : Status × Client)
    → d.argv ≡ c.argv ++ map string_object xs
    → d.reply ≡ c.reply
    → d.flag ≡ c.flag
    → Agrees d s out
    → Agrees c (prepend xs s) out
Agrees-prepend c d xs (complete ys r) (s, c') ha hr hf h = ground (
  arith,
  map-append string_object xs ys,
  append_assoc c.argv (map string_object xs) (map string_object ys),
)
Agrees-prepend c d xs (partial ys n b r) (s, c') ha hr hf h = ground (
  arith,
  map-append string_object xs ys,
  append_assoc c.argv (map string_object xs) (map string_object ys),
)
Agrees-prepend c d xs failed (s, c') ha hr hf h = (h.0, rw hr at h.1)

module _ (p : ProtoApi) where
  -- The lengths that a client with these flags may announce.
  unfoldable pub bound : ℕ → List ℕ → Option ℕ
  bound flags digits = bulk_size p flags (p.string2ll digits)

  trim_big-Kept :
      (ll : ℕ) (c : Client) → (unread (trim_big p ll c) ≡ unread c) × KeptArgs c (trim_big p ll c)
  unfolding trim_big
  trim_big-Kept ll c = ground arith

  accept_bulk-Agrees :
      (c : Client) (i : ℕ) (o : Option ℕ)
      → HeaderAgrees c none
          (sized_by (bound c.flag) o (drop (i + 2) (unread c)))
          (accept_bulk p c i o)
  unfolding accept_bulk auth_required
  accept_bulk-Agrees c i none = add_reply_error-SentLine c _
  accept_bulk-Agrees c i (some ll) = ground (
    arith,
    trim_big-Kept ll (record c { qb_pos = c.qb_pos + i + 2 }),
    drop-drop c.qb_pos (i + 2) c.querybuf,
    add_assoc c.qb_pos i 2,
  )

  bulk_line-Agrees :
      (c : Client) (o : Option ℕ)
      → HeaderAgrees c none (line_at (bound c.flag) (unread c) o) (bulk_line p c o)
  unfolding bulk_line line_at bound
  bulk_line-Agrees c none = elim (Bool-cases (ltb proto_inline_max_size (avail c))) [
    | inl long ↦ rw long (add_reply_error-SentLine c _)
    | inr short ↦ rw short refl
  ]
  bulk_line-Agrees c (some i) = elim (Bool-cases (ltb (avail c) (i + 2))) [
    | inl cut ↦ rw cut refl
    | inr whole ↦ elim (Bool-cases (first_byte (unread c) == b'$')) [
      | inl dollar ↦
          rw (whole, dollar)
            (accept_bulk-Agrees c i (bound c.flag (take (i - 1) (drop 1 (unread c)))))
      | inr other ↦ rw (whole, other) (add_reply_error_format-SentLine p.reply c _)
    ]
  ]

  bulk_header-Agrees :
      (c : Client) (b : Option ℕ)
      → HeaderAgrees c b (line (bound c.flag) b (unread c)) (bulk_header p c b)
  unfolding bulk_header line
  bulk_header-Agrees c none = bulk_line-Agrees c _
  bulk_header-Agrees c (some ll) = (refl, refl, (refl, refl, refl, refl))

  take_bulk-Kept :
      (ll n : ℕ) (c : Client)
      → ltb (avail c) (ll + 2) ≡ false
      → let d = take_bulk p ll n c in
        (d.argv ≡ c.argv ++ (string_object (take ll (unread c)) ∷ []))
        × (unread d ≡ drop (ll + 2) (unread c))
        × (d.reply ≡ c.reply)
        × (d.flag ≡ c.flag)
        × (d.multi_bulk_len ≡ n)
        × (d.bulk_len ≡ none)
  unfolding take_bulk
  take_bulk-Kept ll n c h =
      ground (arith, drop-drop c.qb_pos (ll + 2) c.querybuf, drop_all (ll + 2) c.querybuf)

  -- What the loop body is to the rounds that follow it.
  abbrev NextAgrees : ℕ → ℕ → (Client → Status × Client) → (List ℕ → Scan) → Type 0
  NextAgrees flags n next scan_next =
      (c : Client)
      → c.flag ≡ flags
      → c.multi_bulk_len ≡ n
      → c.bulk_len ≡ none
      → Agrees c (scan_next (unread c)) (next c)

  sized-Agrees :
      (next : Client → Status × Client) (scan_next : List ℕ → Scan) (n ll : ℕ) (c c' : Client)
      → c.multi_bulk_len ≡ suc n
      → NextAgrees c.flag n next scan_next
      → KeptArgs c c'
      → Agrees c
          (scan_round (bound c.flag) scan_next n (unread c) (sized ll (unread c')))
          (bulk_round p next n c (size ll c'))
  unfolding bulk_round scan_round
  sized-Agrees next scan_next n ll c c' hm ih k = elim (Bool-cases (ltb (avail c') (ll + 2))) [
    | inl cut ↦ rw cut (refl, k.0 ∙ sym (append-nil c.argv), refl, k.3 ∙ hm, refl, k.1, k.2)
    | inr whole ↦
        let c'' = record c' { bulk_len = some ll } in
        let d = take_bulk p ll n c'' in
        let t = take_bulk-Kept ll n c'' whole in
        rw whole (
          Agrees-prepend c d (take ll (unread c') ∷ []) (scan_next (drop (ll + 2) (unread c')))
            (next d) (t.0 ∙ ap (λ a. a ++ (string_object (take ll (unread c')) ∷ [])) k.0)
            (t.2 ∙ k.1) (t.3 ∙ k.2) (rw t.1 at (ih d (t.3 ∙ k.2) t.4 t.5)))
  ]

  -- A round agrees if the rounds that follow do.
  bulk_round-Agrees :
      (next : Client → Status × Client) (scan_next : List ℕ → Scan) (n : ℕ) (c : Client) (l : Line)
      (h : Header)
      → c.multi_bulk_len ≡ suc n
      → NextAgrees c.flag n next scan_next
      → HeaderAgrees c c.bulk_len l h
      → Agrees c (scan_round (bound c.flag) scan_next n (unread c) l) (bulk_round p next n c h)
  unfolding bulk_round scan_round
  bulk_round-Agrees next scan_next n c more wait hm ih a =
      (refl, sym (append-nil c.argv), refl, hm, a, refl, refl)
  bulk_round-Agrees next scan_next n c more (bad c') hm ih a = elim a [ ]
  bulk_round-Agrees next scan_next n c more (size ll' c') hm ih a = elim a [ ]
  bulk_round-Agrees next scan_next n c refused wait hm ih a = elim a [ ]
  bulk_round-Agrees next scan_next n c refused (bad c') hm ih a = (refl, a)
  bulk_round-Agrees next scan_next n c refused (size ll' c') hm ih a = elim a [ ]
  bulk_round-Agrees next scan_next n c (sized ll r) wait hm ih a = elim a [ ]
  bulk_round-Agrees next scan_next n c (sized ll r) (bad c') hm ih a = elim a [ ]
  bulk_round-Agrees next scan_next n c (sized ll r) (size ll' c') hm ih a =
      rw (← a.1, ← a.0) (sized-Agrees next scan_next n ll' c c' hm ih a.2)

  -- The loop of the source, with `n` arguments missing and the next one's length `b`, reads what
  -- the scan of its unread bytes reads.
  pub bulk_loop-Agrees :
      (n flags : ℕ) (b : Option ℕ) (c : Client)
      → c.multi_bulk_len ≡ n
      → c.flag ≡ flags
      → c.bulk_len ≡ b
      → (n ≡ 0 → b ≡ none)
      → Agrees c (scan (bound flags) n b (unread c)) (bulk_loop p n c)
  unfolding bulk_loop scan
  bulk_loop-Agrees zero flags b c hm hf hb h0 =
      (refl, sym (append-nil c.argv), refl, hm, hb ∙ h0 refl, refl, refl)
  bulk_loop-Agrees (suc n) flags b c hm hf hb h0 =
      rw (← hf, ← hb)
        (bulk_round-Agrees (bulk_loop p n) (scan (bound flags) n none) n c
          (line (bound c.flag) c.bulk_len (unread c)) (bulk_header p c c.bulk_len) hm
          (λ d df dn db. bulk_loop-Agrees n flags none d dn (df ∙ hf) db (λ _. refl))
          (bulk_header-Agrees c c.bulk_len))

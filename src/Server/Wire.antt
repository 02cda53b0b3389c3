-- ===== src/Server/Wire.antt =====
-- Requests on the wire that run commands of the string module, from the bytes read to the bytes written.
use latte_redis_server.Prelude.{
  ℕ, zero, suc, ◌≤◌, ◌≡◌, refl, ap, ◌∙◌, List, [], ◌∷◌, ◌++◌, true, some, length, map, get_elem?,
  set, append_assoc, ltb, Bool-cases, inl, inr,
}
use latte_redis_server.Prelude.Int.{pos}
use latte_redis_server.Object.{Object, string_object}
use latte_redis_server.Command.{Command}
use latte_redis_server.Client.{Client, unread, reset_redis_client}
use latte_redis_server.Client.Multibulk.{max_multibulk}
use latte_redis_server.Client.Multibulk.RoundTrip.{Decimal, encode, Sendable}
use latte_redis_server.Client.Process.{
  Env, again, call, turn, process_command, process_found, after_command,
}
use latte_redis_server.Client.Process.Unknown.{IsReset, turn-encode}
use latte_redis_server.Reply.{
  ReplyApi, crlf, add_reply, add_reply_bulk, add_reply_bulk_len, payload_bytes, shared_bulkhdr_len,
  shared_hdr,
}

-- What a client has been sent since.
abbrev sent : Client → List ℕ → Client
sent c s = record c { reply = c.reply ++ s }

pub get_elem?-set_same :
    {X : Type 0} (xs : List X) (i : ℕ) (x v : X)
    → get_elem? xs i ≡ some x
    → get_elem? (set xs i v) i ≡ some v
get_elem?-set_same [] i x v h = cc (h)
get_elem?-set_same (y ∷ xs) zero x v h = refl
get_elem?-set_same (y ∷ xs) (suc i) x v h = get_elem?-set_same xs i x v h

module _ (p : ReplyApi) where
  -- A value on the wire: `$<n>\r\n`, its bytes and CRLF.
  unfoldable pub bulk : Object → List ℕ
  bulk o =
      (b'$' ∷ (p.ll2string (pos (p.object_len o)) ++ crlf)) ++ (payload_bytes p o.payload ++ crlf)

  add_reply_bulk_len_lem :
      (c : Client) (o : Object)
      → add_reply_bulk_len p c o ≡ sent c (b'$' ∷ (p.ll2string (pos (p.object_len o)) ++ crlf))
  unfolding add_reply_bulk_len add_reply shared_hdr
  add_reply_bulk_len_lem c o = elim (Bool-cases (ltb (p.object_len o) shared_bulkhdr_len)) [
    | inl e ↦ rw e refl
    | inr e ↦ rw e refl
  ]

  pub add_reply_bulk_lem : (c : Client) (o : Object) → add_reply_bulk p c o ≡ sent c (bulk o)
  unfolding add_reply_bulk add_reply bulk payload_bytes
  add_reply_bulk_lem c o =
      let head = b'$' ∷ (p.ll2string (pos (p.object_len o)) ++ crlf) in
      let body = payload_bytes p o.payload in
      rw (add_reply_bulk_len_lem c o) (
        ap (λ r. record c { reply = r })
          (append_assoc (c.reply ++ head) body crlf ∙ append_assoc c.reply head (body ++ crlf)))

module _ {S : Type 0} (env : Env S) where
  after_command-alive :
      (s s' : S) (c c' : Client) (name : List ℕ) (k : Command)
      → env.lookup s name ≡ some k
      → env.run k s (record c { cmd = some k; lastcmd = some k }) ≡ (s', c', true)
      → after_command env s c (process_command env (string_object name) s c)
        ≡ again s' (reset_redis_client c')
  unfolding process_command process_found after_command call
  after_command-alive s s' c c' name k h e = rw (h, e) refl

module _ {S : Type 0} (env : Env S) (d : Decimal env.proto) where
  -- One round of the input loop over a request whose command goes through: it has been sent `r`, the
  -- server has `P`, and the client is ready for the bytes `rest`.
  pub record Round (c : Client) (s : S) (rest r : List ℕ) (P : S → Type 0) : Type 0 where
    pub client : Client
    pub server : S
    pub turned : turn env s c ≡ again server client
    pub holds : P server
    pub is_reset : IsReset client
    pub unread_rest : unread client ≡ rest
    pub reply : client.reply ≡ c.reply ++ r
    pub flag : client.flag ≡ c.flag
    pub dbid : client.dbid ≡ c.dbid

  -- What a command does on the client that its request has been read into.
  abbrev pub Answers : S → Client → Command → List (List ℕ) → List ℕ → (S → Type 0) → Type 0
  Answers s c k args r P =
      (read : Client)
      → read.argv ≡ map string_object args
      → read.dbid ≡ c.dbid
      → (s' : S) × (env.run k s read ≡ (s', sent read r, true)) × P s'

  pub round-Answers :
      (s : S) (c : Client) (name : List ℕ) (args : List (List ℕ)) (rest r : List ℕ) (k : Command)
      (P : S → Type 0)
      → IsReset c
      → unread c ≡ encode env.proto d (name ∷ args) ++ rest
      → Sendable env.proto d c.flag (name ∷ args)
      → length (name ∷ args) ≤ max_multibulk
      → env.lookup s name ≡ some k
      → Answers s c k (name ∷ args) r P
      → Round c s rest r P
  unfolding reset_redis_client
  round-Answers s c name args rest r k P reset bytes fits few found runs =
      let (c', read, e) = turn-encode env d s c name args rest reset bytes fits few in
      let m = record c' { cmd = some k; lastcmd = some k } in
      let (s', ran, holds) = runs m read.argv read.frame.dbid in
      record {
        client = reset_redis_client (sent m r);
        server = s';
        turned = e ∙ after_command-alive env s s' c' (sent m r) name k found ran;
        holds = holds;
        is_reset = record {
          multi_bulk_len = refl;
          argv = refl;
          bulk_len = refl;
          req_type = refl;
          close_after_reply = read.frame.close_after_reply ∙ reset.close_after_reply;
          close_asap = read.frame.close_asap ∙ reset.close_asap;
          in_buffer = read.in_buffer;
        };
        unread_rest = read.unread_rest;
        reply = ap (λ t. t ++ r) read.reply;
        flag = read.frame.flag;
        dbid = read.frame.dbid;
      }

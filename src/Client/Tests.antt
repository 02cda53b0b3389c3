-- ===== src/Client/Tests.antt =====
-- The request parsers and the input loop at concrete inputs.
use latte_redis_server.Prelude.{
  ℕ, zero, suc, ◌==◌, Bool-cases, inl, ◌+◌, ◌*◌, ◌≡◌, refl, ap, List, [], ◌∷◌, ◌++◌, true, false,
  Option, none, some, if◌then◌else◌, arith, length, map, inr,
}
use mathlib.Core.Option
use latte_redis_server.Prelude.Int.{ℤ, pos, negsuc}
use latte_redis_server.Prelude.Decimal.{
  decimal, decimal_value, decimal_value-decimal, Digits, decimal-Digits,
}
use latte_redis_server.Prelude.Bytes.{bytes_eq}
use latte_redis_server.Object.{codes, text, string_object}
use latte_redis_server.Command.{Command, ping_command}
use latte_redis_server.Client.{Client, unset, multibulk, unread, has_flag, client_master}
use latte_redis_server.Reply.{ReplyApi, add_reply_proto}
use latte_redis_server.Client.Multibulk.{
  ProtoApi, done, strchr, first_byte, bulk_size, bulk_loop, process_multibulk_buffer,
}
use latte_redis_server.Client.Multibulk.Scan.{
  complete, partial, scan, Agrees, line, line_at, scan_round,
}
use latte_redis_server.Client.Multibulk.Loop.{bound}
use latte_redis_server.Client.Multibulk.Bounds.{InBuffer, process_multibulk_buffer-InBuffer}
use latte_redis_server.Client.Multibulk.Frame.{Frame, process_multibulk_buffer-Frame}
use latte_redis_server.Client.Multibulk.Pieces.{receive, bulk_loop-receive}
use latte_redis_server.Client.Multibulk.RoundTrip.{
  Plain, Decimal, encode, Sendable, process_multibulk_buffer-encode,
}
use latte_redis_server.Client.Close.{
  is_listed, ClientLists, ClientListLaws, free_redis_client_async, free_redis_client,
  free_redis_client-async,
}
use latte_redis_server.Client.Inline.{InlineApi, process_inline_buffer}
use latte_redis_server.Client.Inline.Line.{process_inline_buffer_lem}
use latte_redis_server.Client.Process.{Env, crashed, redis_process_input_buffer}
use latte_redis_server.Client.Process.Unknown.{IsReset, unknown_command_crashes}

abbrev number : List ℕ → Option ℤ
number s = Option.map pos (decimal_value s)

abbrev reply_api : ReplyApi
reply_api = record {
  ll2string = λ z. elim z [ pos n ↦ decimal n | negsuc n ↦ b'-' ∷ decimal (suc n) ];
  object_len = λ o. elim o.payload [ text s ↦ length s | _ ↦ 0 ];
  sds_trim_crlf = λ s. s;
  sds_blank_crlf = λ s. s;
}

abbrev pub proto : ProtoApi
proto = record {
  reply = reply_api;
  string2ll = number;
  big_arg = 32 * 1024;
  proto_max_bulk_len = 1024 * 1024;
}

pub Digits-Plain : (s : List ℕ) → Digits s → Plain s
Digits-Plain [] h = tt
Digits-Plain (b ∷ s) h = (ground arith, ground arith, Digits-Plain s h.1)

abbrev pub printer : Decimal proto
printer = record {
  digits = decimal;
  string2ll-digits = λ n h. ap (Option.map pos) (decimal_value-decimal n);
  digits-Plain = λ n. Digits-Plain (decimal n) (decimal-Digits n);
}

-- A client that has just been made and has received `s`.
abbrev pub client : List ℕ → Client
client s = record {
  querybuf = s;
  qb_pos = 0;
  flag = 0;
  close_after_reply = false;
  close_asap = false;
  req_type = unset;
  read_reploff = 0;
  argv = [];
  cmd = none;
  lastcmd = none;
  argv_len_sum = 0;
  bulk_len = none;
  multi_bulk_len = 0;
  repl_ack_time = 0;
  dbid = 0;
  reply = [];
}

abbrev get_key : List (List ℕ)
get_key = codes "get" ∷ codes "key" ∷ []

abbrev crlf_text : List ℕ
crlf_text = 13 ∷ 10 ∷ []

-- The bytes are those of the protocol.
encode-get_key :
    encode proto printer get_key
    ≡ codes "*2"
      ++ (crlf_text
          ++ (codes "$3"
              ++ (crlf_text
                  ++ (codes "get"
                      ++ (crlf_text
                          ++ (codes "$3" ++ (crlf_text ++ (codes "key" ++ crlf_text))))))))
unfolding decimal
encode-get_key = refl

pub client-IsReset : (s : List ℕ) → IsReset (client s)
client-IsReset s = record {
  multi_bulk_len = refl;
  argv = refl;
  bulk_len = refl;
  req_type = refl;
  close_after_reply = refl;
  close_asap = refl;
  in_buffer = omega arith;
}

get_key-Sendable : Sendable proto printer 0 get_key
get_key-Sendable = (omega arith, inr (omega arith), (omega arith, inr (omega arith), tt))

process_multibulk_buffer-encode_example :
    Agrees
      (client (encode proto printer get_key ++ codes "rest"))
      (complete get_key (codes "rest"))
      (process_multibulk_buffer proto (client (encode proto printer get_key ++ codes "rest")))
process_multibulk_buffer-encode_example =
    process_multibulk_buffer-encode proto printer
      (client (encode proto printer get_key ++ codes "rest")) get_key (codes "rest") refl refl refl
      refl get_key-Sendable (omega arith) (omega arith)

-- The first half of a request, which stops in the middle of the second length line.
abbrev half_request : Client
half_request =
    record (client (codes "$3" ++ (crlf_text ++ (codes "get" ++ (crlf_text ++ codes "$"))))) {
      req_type = multibulk;
      multi_bulk_len = 2;
    }

half_scan :
    scan (bound proto 0) 2 none (unread half_request)
    ≡ partial (codes "get" ∷ []) 1 none (codes "$")
unfolding scan scan_round line line_at strchr first_byte bound bulk_size has_flag decimal_value
half_scan = refl

abbrev other_half : List ℕ
other_half = codes "3" ++ (crlf_text ++ (codes "key" ++ crlf_text))

bulk_loop-receive_example :
    let whole = scan (bound proto 0) 2 none (unread half_request ++ other_half) in
    Agrees half_request whole (bulk_loop proto 2 (receive half_request other_half))
    × Agrees half_request whole
        (bulk_loop proto 1 (receive (bulk_loop proto 2 half_request).1 other_half))
bulk_loop-receive_example =
    bulk_loop-receive proto 1 0 none half_request (codes "$") other_half (codes "get" ∷ []) refl
      (omega arith) half_scan

process_multibulk_buffer-InBuffer_example : InBuffer (process_multibulk_buffer proto half_request).1
process_multibulk_buffer-InBuffer_example =
    process_multibulk_buffer-InBuffer proto half_request (omega arith)

process_multibulk_buffer-Frame_example :
    Frame half_request (process_multibulk_buffer proto half_request).1
process_multibulk_buffer-Frame_example = process_multibulk_buffer-Frame proto half_request

-- Words at spaces are enough here.
abbrev one_word : List ℕ → Option (List (List ℕ))
one_word s = some (s ∷ [])

abbrev pub inline_api : ℕ → InlineApi
inline_api k = record { split_args = one_word; unixtime = 0; linefeed_chars = k }

abbrev ping_line : Client
ping_line = client (codes "ping" ++ crlf_text)

ping_line-end : strchr b'\n' (unread ping_line) ≡ some 5
unfolding strchr
ping_line-end = refl

no_master : has_flag 0 client_master ≡ false
unfolding has_flag
no_master = refl

process_inline_buffer_lem_example :
    let (s, c') = process_inline_buffer (inline_api 1) ping_line in
    (s ≡ done)
    × (c'.argv ≡ string_object (codes "ping") ∷ [])
    × (c'.qb_pos ≡ 6)
    × (c'.querybuf ≡ ping_line.querybuf)
    × (c'.reply ≡ [])
process_inline_buffer_lem_example =
    process_inline_buffer_lem (inline_api 1) ping_line 5 (codes "ping" ∷ []) no_master ping_line-end
      refl

abbrev ping : Command
ping = record {
  name = codes "ping";
  proc = ping_command;
  arity = negsuc 1;
  sflags = codes "admin";
  flags = 0;
  id = 0;
}

-- A server that knows one command and counts its calls.
abbrev env : Env ℕ
env = record {
  lookup = λ s name. if bytes_eq name (codes "ping") then some ping else none;
  run = λ k s c. (s + 1, add_reply_proto c (codes "+PONG"), true);
  proto = proto;
  inline_api = inline_api 1;
}

abbrev get_then_byte : Client
get_then_byte = client (encode proto printer get_key ++ codes "*")

get_unknown : env.lookup 0 (codes "get") ≡ none
unfolding bytes_eq
get_unknown = refl

unknown_command_crashes_example :
    (c' : Client) × (redis_process_input_buffer env 2 0 get_then_byte ≡ crashed 0 c')
    × (c'.reply ≡ [])
    × (c'.argv ≡ map string_object get_key)
unknown_command_crashes_example =
    unknown_command_crashes env printer 0 0 get_then_byte (codes "get") (codes "key" ∷ []) b'*' []
      (client-IsReset _) refl get_key-Sendable (omega arith) get_unknown

-- Lists themselves: a node is the place in the list.
abbrev place_of : List ℕ → ℕ → Option ℕ
place_of [] id = none
place_of (x ∷ q) id = let rest = place_of q id in if x == id then some 0 else Option.map suc rest

abbrev without : List ℕ → ℕ → List ℕ
without [] n = []
without (x ∷ q) zero = q
without (x ∷ q) (suc n) = x ∷ without q n

abbrev lists : ClientLists (List ℕ) ℕ
lists = record {
  list_add_node_tail = λ q id. q ++ (id ∷ []);
  list_search_key = place_of;
  list_del_node = without;
}

search_first :
    (id : ℕ) (before after : List ℕ)
    → is_listed id before ≡ false
    → (node : ℕ) × (place_of (before ++ (id ∷ after)) id ≡ some node)
      × (without (before ++ (id ∷ after)) node ≡ before ++ after)
search_first id [] after h = let same : (id == id) ≡ true = ground arith in (0, rw same refl, refl)
search_first id (x ∷ before) after h = elim (Bool-cases (x == id)) [
  | inl b ↦ let no = rw b at h in absurd (ground arith)
  | inr b ↦
      let rest = rw b at h in
      let (node, found, left) = search_first id before after rest in
      (suc node, rw (b, found) refl, ap (λ l. x ∷ l) left)
]

abbrev lists_laws : ClientListLaws lists
lists_laws = record {
  items = λ q. q;
  items-add = λ q id. refl;
  search-del = λ q id before after e h. rw e (search_first id before after h);
}

-- Client 5, with client 3 in the list.
free_redis_client-async_example :
    (c' : Client) × (queue : List ℕ) × (last : List ℕ) × (free_redis_client_async lists 5
        (client [])
        (3 ∷ [])
      ≡ (c', queue))
    × (queue ≡ 3 ∷ 5 ∷ [])
    × (free_redis_client_async lists 5 c' queue ≡ (c', queue))
    × (free_redis_client lists 5 c' queue ≡ some last)
    × (last ≡ 3 ∷ [])
unfolding has_flag
free_redis_client-async_example =
    free_redis_client-async lists lists_laws 5 (client []) (3 ∷ []) refl refl refl

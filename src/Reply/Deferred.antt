-- ===== src/Reply/Deferred.antt =====
-- The list of output blocks in src/redis/client_reply.c: a place is kept for a length that is known
-- only later, and filled then. `add_reply_proto` and the blocks belong to the server library.
pub mod Place
pub mod Help
pub mod Tests
use latte_redis_server.Prelude.{
  ℕ, ◌+◌, ◌-◌, ◌*◌, ◌/◌, ◌%◌, ◌^◌, List, [], ◌∷◌, ◌++◌, Bool, true, false, ◌&&◌, Option, none, some,
  ltb, leb, ◌==◌, if◌then◌else◌, length, take, drop, min,
}
use latte_redis_server.Prelude.Int.{ℤ, pos}
use latte_redis_server.Object.{codes}
use latte_redis_server.Reply.{crlf}

-- `client_reply_block_t`: `used` is the length of `buf`, and `size` what there is room for.
pub record Block : Type 0 where
  pub size : ℕ
  pub buf : List ℕ

-- A list node; `none` is the NULL value of a place kept for a length.
abbrev pub Node : Type 0
Node = Option Block

pub record ReplyList : Type 0 where
  pub nodes : List Node
  pub reply_bytes : ℕ

-- `add_reply_proto` on the list, `zmalloc_usable_size` of an allocation of so many bytes,
-- `sizeof(client_reply_block_t)`, `PROTO_REPLY_CHUNK_BYTES`, and `%ld` and `sds_to_upper`.
pub record BlockApi : Type 0 where
  pub add_reply_proto : ReplyList → List ℕ → ReplyList
  pub usable_size : ℕ → ℕ
  pub header_size : ℕ
  pub reply_chunk_bytes : ℕ
  pub decimal : ℕ → List ℕ
  pub sds_to_upper : List ℕ → List ℕ

abbrev room : Block → ℕ
room b = b.size - length b.buf

-- What `fill_prev` gives: the nodes, the text that is left, and whether the last node had room.
pub record Filled : Type 0 where
  pub nodes : List Node
  pub left : List ℕ
  pub entered : Bool

-- The node in front of the place, when it has room: as much of the text as fits is put behind
-- what it holds.
unfoldable pub fill_block : Node → List ℕ → Filled
fill_block none s = record { nodes = none ∷ []; left = s; entered = false }
fill_block (some b) s =
    let n = min (room b) (length s) in
    if ltb 0 (room b)
    then record {
      nodes = some (record b { buf = b.buf ++ take n s }) ∷ [];
      left = drop n s;
      entered = true;
    }
    else record { nodes = some b ∷ []; left = s; entered = false }

unfoldable pub fill_prev : List Node → List ℕ → Filled
unfolding fill_block
fill_prev [] s = record { nodes = []; left = s; entered = false }
fill_prev (x ∷ []) s = fill_block x s
fill_prev (x ∷ y ∷ xs) s = let f = fill_prev (y ∷ xs) s in record f { nodes = x ∷ f.nodes }

module _ (p : BlockApi) where
  -- The last node gives back the room that it does not use. `size - used` does not wrap, since no
  -- block holds more than its size (Reply/Deferred/Place).
  unfoldable pub trim_block : ℕ → Node → List Node × ℕ
  trim_block reply_bytes none = (none ∷ [], reply_bytes)
  trim_block reply_bytes (some b) =
      let size = p.usable_size (length b.buf + p.header_size) - p.header_size in
      if ltb (b.size / 4) (room b) && ltb (length b.buf) p.reply_chunk_bytes
      then (some (record b { size = size }) ∷ [], (reply_bytes + size + (2 ^ 64 - b.size)) % 2 ^ 64)
      else (some b ∷ [], reply_bytes)

  unfoldable pub trim_last : List Node → ℕ → List Node × ℕ
  unfolding trim_block
  trim_last [] reply_bytes = ([], reply_bytes)
  trim_last (x ∷ []) reply_bytes = trim_block reply_bytes x
  trim_last (x ∷ y ∷ xs) reply_bytes = let t = trim_last (y ∷ xs) reply_bytes in (x ∷ t.0, t.1)

  unfoldable pub trim_reply_unused_tail_space : ReplyList → ReplyList
  unfolding trim_last
  trim_reply_unused_tail_space c =
      let t = trim_last c.nodes c.reply_bytes in record { nodes = t.0; reply_bytes = t.1 }

  -- The nodes in front of the place that is kept, which is behind them.
  unfoldable pub add_reply_deferred_len : ReplyList → ReplyList
  unfolding trim_reply_unused_tail_space
  add_reply_deferred_len c = trim_reply_unused_tail_space c

  unfoldable pub new_block : List ℕ → Block
  new_block s = record { size = p.usable_size (length s + p.header_size) - p.header_size; buf = s }

  -- What is left of the text goes in front of what the next node holds, or into a block of its own.
  unfoldable pub fill_next : List Node → List ℕ → List Node → ℕ → ReplyList
  unfolding new_block
  fill_next before s (some b ∷ after) reply_bytes =
      let block = new_block s in
      if leb (length s) (room b) && ltb (length b.buf) (p.reply_chunk_bytes * 4)
      then record {
        nodes = before ++ (some (record b { buf = s ++ b.buf }) ∷ after);
        reply_bytes = reply_bytes;
      }
      else record {
        nodes = before ++ (some block ∷ some b ∷ after);
        reply_bytes = (reply_bytes + block.size) % 2 ^ 64;
      }
  fill_next before s after reply_bytes =
      let block = new_block s in
      record {
        nodes = before ++ (some block ∷ after);
        reply_bytes = (reply_bytes + block.size) % 2 ^ 64;
      }

  unfoldable pub after_prev : Filled → List Node → ℕ → ReplyList
  unfolding fill_next
  after_prev f after reply_bytes =
      if f.entered && (length f.left == 0)
      then record { nodes = f.nodes ++ after; reply_bytes = reply_bytes }
      else fill_next f.nodes f.left after reply_bytes

  -- The place stands between the nodes `before` and `after`.
  unfoldable pub set_deferred_reply : List Node → List Node → ℕ → List ℕ → ReplyList
  unfolding after_prev
  set_deferred_reply before after reply_bytes s = after_prev (fill_prev before s) after reply_bytes

  unfoldable pub set_deferred_aggregate_len : List Node → List Node → ℕ → ℕ → ℕ → ReplyList
  unfolding set_deferred_reply
  set_deferred_aggregate_len before after reply_bytes len prefix =
      set_deferred_reply before after reply_bytes (prefix ∷ (p.decimal len ++ crlf))

  unfoldable pub set_deferred_array_len : List Node → List Node → ℕ → ℕ → ReplyList
  unfolding set_deferred_aggregate_len
  set_deferred_array_len before after reply_bytes len =
      set_deferred_aggregate_len before after reply_bytes len b'*'

  unfoldable pub add_reply_status : ReplyList → List ℕ → ReplyList
  add_reply_status c status =
      p.add_reply_proto (p.add_reply_proto (p.add_reply_proto c (codes "+")) status) crlf

  -- `while (help[blen]) add_reply_status(c, help[blen++])`
  unfoldable pub add_help_lines : ReplyList → List (List ℕ) → ReplyList
  add_help_lines c [] = c
  add_help_lines c (line ∷ help) = add_help_lines (add_reply_status c line) help

  unfoldable pub help_header : List ℕ → List ℕ
  help_header name =
      p.sds_to_upper name ++ codes " <subcommand> [<arg> [value] [opt] ...]. Subcommands are:"

  -- What is written behind the place: the list from the place on.
  unfoldable pub help_body : ReplyList → List ℕ → List (List ℕ) → ReplyList
  unfolding add_reply_status add_help_lines help_header
  help_body c name help =
      let lines = add_help_lines (add_reply_status c (help_header name)) help in
      add_reply_status (add_reply_status lines (codes "HELP")) (codes "   Prints this help.")

  -- `name` is the text at `argv[0]`; the place is behind the nodes that were there.
  unfoldable pub add_reply_help : ReplyList → List ℕ → List (List ℕ) → ReplyList
  unfolding help_body
  add_reply_help c name help =
      let kept = add_reply_deferred_len c in
      let n = length kept.nodes in
      let body = help_body (record kept { nodes = kept.nodes ++ (none ∷ []) }) name help in
      set_deferred_array_len (take n body.nodes) (drop (n + 1) body.nodes) body.reply_bytes
        (length help + 1 + 2)

-- ===== src/Reply/Deferred/Tests.antt =====
-- Texts put into concrete blocks.
use latte_redis_server.Prelude.{
  ◌+◌, ◌≡◌, refl, List, [], ◌∷◌, ◌++◌, none, some, arith, append_assoc, append-nil, length,
}
use latte_redis_server.Object.{codes}
use latte_redis_server.Reply.{crlf}
use latte_redis_server.Reply.Deferred.{
  Node, ReplyList, BlockApi, set_deferred_reply, fill_prev, add_reply_help,
}
use latte_redis_server.Reply.Deferred.Place.{
  written, AllFit, set_deferred_reply_lem, written-append, AllFit-append,
}
use latte_redis_server.Reply.Deferred.Help.{
  BufferLaws, add_reply_help_lem, help_lines, status_lines,
}

-- Every text in a block of its own, exactly as large as the text.
abbrev pub block_api : BlockApi
block_api = record {
  add_reply_proto = λ c s. record {
    nodes = c.nodes ++ (some (record { size = length s; buf = s }) ∷ []);
    reply_bytes = c.reply_bytes + length s;
  };
  usable_size = λ n. n;
  header_size = 8;
  reply_chunk_bytes = 16384;
  decimal = λ n. ((n + 48) ∷ []);
  sds_to_upper = λ s. s;
}

block_api-BufferLaws : BufferLaws block_api
block_api-BufferLaws = record {
  usable = λ n. omega arith;
  appended = λ c before after s e k. (
    after ++ (some (record { size = length s; buf = s }) ∷ []),
    (
      rw (e, append_assoc before (none ∷ after) (some (record { size = length s; buf = s }) ∷ []))
          refl,
      (
        rw (written-append after (some (record { size = length s; buf = s }) ∷ []), append-nil s)
            refl,
        AllFit-append after (some (record { size = length s; buf = s }) ∷ []) k
            (omega arith, omega arith),
      ),
    ),
  );
}

-- Two bytes of room in front of the place, and ten behind it.
abbrev front : List Node
front = some (record { size = 5; buf = codes "abc" }) ∷ []

abbrev rear : List Node
rear = some (record { size = 13; buf = codes "xyz" }) ∷ []

front-AllFit : AllFit front
front-AllFit = (omega arith, omega arith)

rear-AllFit : AllFit rear
rear-AllFit = (omega arith, omega arith)

-- The first two bytes go in front, the others behind the place.
parted :
    (set_deferred_reply block_api front rear 18 (codes "*12\r\n")).nodes
    ≡ some (record { size = 5; buf = codes "abc*1" })
      ∷ some (record { size = 13; buf = codes "2\r\nxyz" })
      ∷ []
unfolding set_deferred_reply fill_prev
parted = refl

set_deferred_reply_example :
    (written (set_deferred_reply block_api front rear 18 (codes "*12\r\n")).nodes
      ≡ codes "abc" ++ (codes "*12\r\n" ++ codes "xyz"))
    × AllFit (set_deferred_reply block_api front rear 18 (codes "*12\r\n")).nodes
set_deferred_reply_example =
    set_deferred_reply_lem block_api (block_api-BufferLaws.usable) front rear 18 (codes "*12\r\n")
      front-AllFit rear-AllFit

abbrev output : ReplyList
output = record { nodes = front; reply_bytes = 5 }

add_reply_help_example :
    (written (add_reply_help block_api output (codes "xinfo") (codes "GROUPS <key>" ∷ [])).nodes
      ≡ codes "abc"
        ++ ((b'*' ∷ b'4' ∷ crlf)
            ++ status_lines (help_lines block_api (codes "xinfo") (codes "GROUPS <key>" ∷ []))))
    × AllFit (add_reply_help block_api output (codes "xinfo") (codes "GROUPS <key>" ∷ [])).nodes
unfolding help_lines
add_reply_help_example =
    add_reply_help_lem block_api block_api-BufferLaws output (codes "xinfo")
      (codes "GROUPS <key>" ∷ []) front-AllFit

-- ===== src/Slowlog/Tests.antt =====
-- The slow log at concrete inputs.
use latte_redis_server.Prelude.{
  ℕ, ◌+◌, ◌≡◌, refl, List, [], ◌∷◌, none, some, replicate, get_elem?, arith,
}
use latte_redis_server.Prelude.Int.{pos}
use latte_redis_server.Object.{codes, Object, string_object}
use latte_redis_server.ListApi.{plain, plain-laws}
use latte_redis_server.Slowlog.{
  Finished, SlowlogEntry, SlowlogManager, ObjectApi, entry_new, manager_new, push_if_needed, trim,
  trim_to, set_max_len,
}
use latte_redis_server.Slowlog.Push.{log_all, push_full, log_all_lem, items-set_max_len}
use latte_redis_server.Slowlog.Args.{entry_new-argv-last}

-- A one-digit printer is enough for these inputs.
abbrev api : ObjectApi
api = record { decimal = λ n. (n + 48) ∷ []; dup = λ a. a }

abbrev ran : ℕ → List Object → Finished
ran d args = record {
  start_time = 100;
  end_time = 100 + d;
  decode_time = 1;
  encode_time = 2;
  call_time = 3;
  command = codes "set";
  argv = args;
  name = none;
  peer_id = codes "1";
}

abbrev x : Object
x = string_object (codes "x")

abbrev slow : Finished
slow = ran 20 (x ∷ [])

abbrev many : Finished
many = ran 20 (replicate 40 x)

abbrev full_log : SlowlogManager (List SlowlogEntry)
full_log = record {
  entries = entry_new api 7 0 slow ∷ [];
  max_len = pos 1;
  time_limit_us = pos 10;
  next_id = 1;
}

-- Two slow commands and a fast one, at most one entry: the second slow one is lost.
keeps_first :
    (log_all plain api
      (manager_new plain (pos 1) (pos 10))
      ((7, slow) ∷ (8, ran 5 []) ∷ (9, slow) ∷ [])).entries
    ≡ entry_new api 7 0 slow ∷ []
unfolding log_all manager_new push_if_needed trim_to trim
keeps_first = refl

-- At the limit itself a command is not slow.
limit_is_strict : (push_if_needed plain api 8 full_log (ran 10 [])) ≡ full_log
unfolding push_if_needed trim_to trim
limit_is_strict = refl

push_full_example :
    let s' = push_if_needed plain api 8 full_log slow in
    (s'.entries ≡ full_log.entries) × (s'.next_id ≡ 2)
push_full_example = push_full plain (λ l. l) plain-laws api 8 1 10 full_log slow refl refl refl refl

items-set_max_len_example :
    let s' = set_max_len plain full_log (pos 0) in
    (s'.entries ≡ []) × (s'.max_len ≡ pos 0) × (s'.next_id ≡ 1) × (s'.time_limit_us ≡ pos 10)
items-set_max_len_example = items-set_max_len plain (λ l. l) plain-laws api full_log (pos 0)

log_all_lem_example :
    (log_all plain api (manager_new plain (pos 1) (pos 10)) ((7, slow) ∷ (9, slow) ∷ [])).entries
    ≡ entry_new api 7 0 slow ∷ []
log_all_lem_example = log_all_lem plain (λ l. l) plain-laws api ((7, slow) ∷ (9, slow) ∷ []) 1 10

entry_new-argv-last_example :
    get_elem? (entry_new api 7 0 many).argv 31
    ≡ some (string_object (codes "... (1 more arguments)"))
entry_new-argv-last_example = entry_new-argv-last api 7 0 many (omega arith)

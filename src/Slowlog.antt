-- ===== src/Slowlog.antt =====
-- src/redis/slowlog.c and slowlog.h: the slow log's entries and its manager.
pub mod Trim
pub mod Push
pub mod Args
mod Tests
use latte_redis_server.Prelude.{
  ℕ, zero, suc, ◌+◌, ◌-◌, List, [], ◌∷◌, ◌++◌, Bool, not, Option, ◌&&◌, ◌||◌, length, take, ltb,
  ◌==◌, if◌then◌else◌,
}
use latte_redis_server.Prelude.Int.{ℤ, pos, negsuc, sub_ℕ, ltb_ℤ}
use latte_redis_server.Object.{codes, Payload, text, integer, Object, string_object}
use latte_redis_server.ListApi.{ListApi}

abbrev pub entry_max_argc : ℕ
entry_max_argc = 32

abbrev pub entry_max_string : ℕ
entry_max_string = 128

-- What the slow log reads of a client when its command has ended (times in microseconds).
pub record Finished : Type 0 where
  pub start_time : ℕ
  pub end_time : ℕ
  pub decode_time : ℕ
  pub encode_time : ℕ
  pub call_time : ℕ
  pub command : List ℕ
  pub argv : List Object
  pub name : Option (List ℕ)
  pub peer_id : List ℕ

pub record SlowlogEntry : Type 0 where
  pub id : ℕ
  pub time : ℕ
  pub all_duration : ℤ
  pub decode_duration : ℕ
  pub encode_duration : ℕ
  pub call_duration : ℕ
  pub command : List ℕ
  pub client_name : Option (List ℕ)
  pub client_ip : List ℕ
  pub argv : List Object

pub record SlowlogManager (L : Type 0) : Type 0 where
  pub entries : L
  pub max_len : ℤ
  pub time_limit_us : ℤ
  pub next_id : ℕ

-- Of the string library: `sds_cat_printf` of a number in decimal, and `dup_string_object`.
pub record ObjectApi : Type 0 where
  pub decimal : ℕ → List ℕ
  pub dup : Object → Object

module _ (o : ObjectApi) where
  -- "... (%d more arguments)" of `argc-argc+1`, `argc` being the clamped count both times
  unfoldable pub more_arguments : ℕ → Object
  more_arguments argc =
      string_object (codes "... (" ++ (o.decimal (argc - argc + 1) ++ codes " more arguments)"))

  unfoldable pub trimmed : List ℕ → Object
  trimmed s = string_object (
      take entry_max_string s
      ++ (codes "... (" ++ (o.decimal (length s - entry_max_string) ++ codes " more bytes)")))

  unfoldable pub keep_arg : Object → Object
  keep_arg a = if a.is_shared then a else o.dup a

  -- the `else` branch of the loop: long encoded strings are cut, others shared or copied
  unfoldable pub copy_arg : Object → Payload → Object
  unfolding trimmed keep_arg
  copy_arg a (text s) =
      if a.is_string && ltb entry_max_string (length s) then trimmed s else keep_arg a
  copy_arg a (integer z) = keep_arg a

  -- the loop over `j`, on the rounds left: `j == argc-1` is the last of them
  unfoldable pub copy_args : Bool → ℕ → ℕ → List Object → List Object
  unfolding copy_arg
  copy_args cut argc zero args = []
  copy_args cut argc (suc n) [] = []
  copy_args cut argc (suc n) (a ∷ args) =
      (if cut && n == 0 then more_arguments argc else copy_arg a a.payload)
      ∷ copy_args cut argc n args

  -- `slowlog_entry_new`, at the time `now`
  unfoldable pub entry_new : ℕ → ℕ → Finished → SlowlogEntry
  entry_new now id c =
      let total = length c.argv in
      let argc = if ltb entry_max_argc total then entry_max_argc else total in
      record {
        id = id;
        time = now;
        all_duration = sub_ℕ c.end_time c.start_time;
        decode_duration = c.decode_time;
        encode_duration = c.encode_time;
        call_duration = c.call_time;
        command = c.command;
        client_name = c.name;
        client_ip = c.peer_id;
        argv = copy_args (not (total == argc)) argc argc c.argv;
      }

module _ {L : Type 0} (lists : ListApi L SlowlogEntry) where
  unfoldable pub manager_new : ℤ → ℤ → SlowlogManager L
  manager_new max_len time_limit_us = record {
    entries = lists.new;
    max_len = max_len;
    time_limit_us = time_limit_us;
    next_id = 0;
  }

  -- `while (list_length(entries) > max_len) list_del_node(entries, list_last(entries))`. The fuel
  -- is the list's length, since each round removes an entry. The comparison is at `max_len >= 0`.
  unfoldable pub trim : ℕ → ℕ → L → L
  trim zero max_len l = l
  trim (suc f) max_len l =
      let rest = trim f max_len (lists.del_last l) in if ltb max_len (lists.size l) then rest else l

  -- `list_length` is unsigned: a negative limit compares as a number beyond every length.
  unfoldable pub trim_to : ℤ → L → L
  trim_to (pos m) l = trim (lists.size l) m l
  trim_to (negsuc m) l = l

  unfoldable pub set_max_len : SlowlogManager L → ℤ → SlowlogManager L
  set_max_len m max_len = record m { max_len = max_len; entries = trim_to max_len m.entries }

  unfoldable pub set_time_limit_us : SlowlogManager L → ℤ → SlowlogManager L
  set_time_limit_us m t = record m { time_limit_us = t }

  module _ (o : ObjectApi) where
    -- the body after the guard
    unfoldable pub push : ℕ → SlowlogManager L → Finished → SlowlogManager L
    push now m c =
        if ltb_ℤ m.time_limit_us (sub_ℕ c.end_time c.start_time)
        then record m {
          next_id = m.next_id + 1;
          entries = trim_to m.max_len (lists.add_node_tail m.entries (entry_new o now m.next_id c));
        }
        else record m { entries = trim_to m.max_len m.entries }

    unfoldable pub push_if_needed : ℕ → SlowlogManager L → Finished → SlowlogManager L
    unfolding push
    push_if_needed now m c =
        if ltb_ℤ m.max_len (pos 0) || ltb_ℤ m.time_limit_us (pos 0) then m else push now m c

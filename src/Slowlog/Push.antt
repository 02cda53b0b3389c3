-- ===== src/Slowlog/Push.antt =====
-- What `slowlog_manager_push_if_needed` and `slowlog_manager_set_max_len` leave in the log, and what
-- a run of commands leaves.
use latte_redis_server.Prelude.{
  ℕ, zero, suc, ◌⊎◌, ◌+◌, ◌≡◌, refl, ap, sym, ◌∙◌, List, [], ◌∷◌, ◌++◌, Bool, true, arith, length,
  take, if◌then◌else◌, append_assoc, append-nil,
}
use latte_redis_server.Prelude.Int.{ℤ, pos, negsuc, pos_part, sub_ℕ, ltb_ℤ}
use latte_redis_server.ListApi.{ListApi, ListLaws}
use latte_redis_server.Slowlog.{
  Finished, SlowlogEntry, SlowlogManager, ObjectApi, entry_new, manager_new, trim_to, set_max_len,
  push_if_needed,
}
use latte_redis_server.Slowlog.Trim.{items-trim_to, take-append_full, take_all}

-- The command ran for longer than `t` microseconds.
abbrev pub is_slow : ℕ → Finished → Bool
is_slow t c = ltb_ℤ (pos t) (sub_ℕ c.end_time c.start_time)

module _ {ℓ} {A : Type ℓ} where
  take-take-append : (m : ℕ) (xs ys : List A) → take m (take m xs ++ ys) ≡ take m (xs ++ ys)
  take-take-append zero xs ys = refl
  take-take-append (suc m) [] ys = refl
  take-take-append (suc m) (x ∷ xs) ys = ap (λ t. x ∷ t) (take-take-append m xs ys)

  take-take : (m : ℕ) (xs : List A) → take m (take m xs) ≡ take m xs
  take-take zero xs = refl
  take-take (suc m) [] = refl
  take-take (suc m) (x ∷ xs) = ap (λ t. x ∷ t) (take-take m xs)

module _ (o : ObjectApi) where
  -- The whole log after one push.
  abbrev pub logged : ℕ → ℕ → ℕ → Finished → List SlowlogEntry → List SlowlogEntry
  logged m now id c es = take m (es ++ (entry_new o now id c ∷ []))

  -- The entries of the slow commands, numbered from `id`.
  abbrev pub slow_entries : ℕ → ℕ → List (ℕ × Finished) → List SlowlogEntry
  slow_entries t id [] = []
  slow_entries t id ((now, c) ∷ cs) =
      let fast = slow_entries t id cs in
      let slow = entry_new o now id c ∷ slow_entries t (id + 1) cs in
      if is_slow t c then slow else fast

module _ {L : Type 0} (lists : ListApi L SlowlogEntry) (o : ObjectApi) where
  -- `redis_client_command_end` after each of several commands, each with its time.
  unfoldable pub log_all : SlowlogManager L → List (ℕ × Finished) → SlowlogManager L
  log_all s [] = s
  log_all s ((now, c) ∷ cs) = log_all (push_if_needed lists o now s c) cs

module _ {L : Type 0} (lists : ListApi L SlowlogEntry) (items : L → List SlowlogEntry)
    (laws : ListLaws lists items) (o : ObjectApi) where
  -- One call of `slowlog_manager_push_if_needed` with non-negative limits `m` and `t`: a command
  -- slower than `t` adds its entry at the tail and takes the next id, then the first `m` entries
  -- are kept; the limits stay.
  pub push_lem :
      (now m t : ℕ) (s : SlowlogManager L) (c : Finished)
      → s.max_len ≡ pos m
      → s.time_limit_us ≡ pos t
      → let s' = push_if_needed lists o now s c in
        (items s'.entries ≡ (
          if is_slow t c
          then logged o m now s.next_id c (items s.entries)
          else take m (items s.entries)))
        × (s'.next_id ≡ (if is_slow t c then s.next_id + 1 else s.next_id))
        × (s'.max_len ≡ pos m)
        × (s'.time_limit_us ≡ pos t)
  unfolding push_if_needed
  push_lem now m t s c hm ht =
      let e = entry_new o now s.next_id c in
      let l = lists.add_node_tail s.entries e in
      ground (
        arith,
        items-trim_to lists items laws m l,
        items-trim_to lists items laws m s.entries,
        laws.items-add_node_tail s.entries e,
      )

  -- A negative limit on the length or on the time turns the log off: a call changes nothing.
  pub push_off :
      (now n : ℕ) (s : SlowlogManager L) (c : Finished)
      → (s.max_len ≡ negsuc n) ⊎ (s.time_limit_us ≡ negsuc n)
      → push_if_needed lists o now s c ≡ s
  unfolding push_if_needed
  push_off now n s c h = ground arith

  -- A full log of `m` entries keeps them and loses the entry of every later slow command, which
  -- still takes an id.
  pub push_full :
      (now m t : ℕ) (s : SlowlogManager L) (c : Finished)
      → s.max_len ≡ pos m
      → s.time_limit_us ≡ pos t
      → length (items s.entries) ≡ m
      → is_slow t c ≡ true
      → let s' = push_if_needed lists o now s c in
        (items s'.entries ≡ items s.entries) × (s'.next_id ≡ s.next_id + 1)
  push_full now m t s c hm ht full slow =
      let e = entry_new o now s.next_id c in
      ground (arith, push_lem now m t s c hm ht, take-append_full m (items s.entries) (e ∷ []) full)

  -- `slowlog_manager_set_max_len` keeps the first `m` entries, and all of them for a negative
  -- limit, and sets the limit alone.
  pub items-set_max_len :
      (s : SlowlogManager L) (z : ℤ)
      → let s' = set_max_len lists s z in
        (items s'.entries
          ≡ (if ltb_ℤ z (pos 0) then items s.entries else take (pos_part z) (items s.entries)))
        × (s'.max_len ≡ z)
        × (s'.next_id ≡ s.next_id)
        × (s'.time_limit_us ≡ s.time_limit_us)
  unfolding set_max_len trim_to
  items-set_max_len s (pos m) = ground (arith, items-trim_to lists items laws m s.entries)
  items-set_max_len s (negsuc m) = ground arith

  log_all-entries :
      (cs : List (ℕ × Finished)) (m t : ℕ) (s : SlowlogManager L)
      → s.max_len ≡ pos m
      → s.time_limit_us ≡ pos t
      → items s.entries ≡ take m (items s.entries)
      → items (log_all lists o s cs).entries
        ≡ take m (items s.entries ++ slow_entries o t s.next_id cs)
  unfolding log_all
  log_all-entries [] m t s hm ht h = rw append-nil h
  log_all-entries ((now, c) ∷ cs) m t s hm ht h =
      let s' = push_if_needed lists o now s c in
      let e = entry_new o now s.next_id c in
      let es = items s.entries in
      let pushed = push_lem now m t s c hm ht in
      ground (
        arith,
        pushed,
        log_all-entries cs m t s' pushed.2 pushed.3
            (ground (arith, pushed, take-take m es, take-take m (es ++ (e ∷ [])))),
        take-take-append m (es ++ (e ∷ [])) (slow_entries o t (s.next_id + 1) cs),
        take-take-append m es (slow_entries o t s.next_id cs),
        append_assoc es (e ∷ []) (slow_entries o t (s.next_id + 1) cs),
      )

  -- From a new manager with non-negative limits, any run of commands leaves exactly the first
  -- `m` slow ones in the log, oldest first, numbered from 0.
  pub log_all_lem :
      (cs : List (ℕ × Finished)) (m t : ℕ)
      → items (log_all lists o (manager_new lists (pos m) (pos t)) cs).entries
        ≡ take m (slow_entries o t 0 cs)
  unfolding manager_new
  log_all_lem cs m t =
      let s = manager_new lists (pos m) (pos t) in
      log_all-entries cs m t s refl refl (rw laws.items-new (sym (take_all m [] (omega arith))))
      ∙ rw laws.items-new

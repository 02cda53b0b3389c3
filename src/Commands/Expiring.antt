-- ===== src/Commands/Expiring.antt =====
-- `EXPIRE` of src/commands/command_manager.c, and what it does to the key's value from then on.
use latte_redis_server.Prelude.{
  ℕ, ◌≡◌, ◌<◌, ◌+◌, ◌*◌, ◌^◌, refl, List, [], ◌∷◌, Bool, true, false, Option, none, some, ltb, not,
  if◌then◌else◌, ◌∙◌, arith,
}
use native.Mathlib.Numerals.{unary_clauses}
use latte_redis_server.Prelude.Int.{ℤ, pos}
use latte_redis_server.Object.{codes, Object}
use latte_redis_server.Reply.{add_reply_error, add_reply_long_long_with_prefix}
use latte_redis_server.Dict.{DictApi, DictLaws}
use latte_redis_server.Db.{Db, find_key, find_expire}
use latte_redis_server.Db.Expire.{IsDb, is_due, db_set_expire-fresh, db_set_expire-existing}
use latte_redis_server.Commands.{CommandEnv, Session, expire_command}
use latte_redis_server.Commands.Lookup.{current}

module _ {T E : Type 0} (keys : DictApi (List ℕ) Object T) (expires : DictApi (List ℕ) ℤ E)
    (eq : List ℕ → List ℕ → Bool) (key_laws : DictLaws keys eq) (expire_laws : DictLaws expires eq)
    (p : CommandEnv) where
  -- The outcome of `EXPIRE` at the time `now`: it answers 1, and at every time the key's value is
  -- the one it had before until `n` seconds have gone by, and none from then on.
  pub record Expires (now n : ℕ) (s : List ℕ) (value : Object) (before : Session T E)
      (c : Option (Session T E)) : Type 0 where
    pub after : Db T E
    pub done :
        c
        ≡ some (record {
          client = add_reply_long_long_with_prefix p.reply before.client (pos 1) b':';
          db = after;
        })
    pub is_db : IsDb keys expires eq key_laws expire_laws after
    pub current_lem :
        (later : ℕ)
        → current keys expires later after s
          ≡ (if ltb later (now + n * 1000) then some value else none)

  not-if : {A : Type 0} (x y : A) (b : Bool) → (if not b then x else y) ≡ (if b then y else x)
  not-if x y true = refl
  not-if x y false = refl

  is_due_pos : (later w : ℕ) → is_due (pos later) (some (pos w)) ≡ not (ltb later w)
  is_due_pos later w = simp unary_clauses refl

  current_expiring :
      (db : Db T E) (s : List ℕ) (value : Object) (w later : ℕ)
      → find_key keys expires db s ≡ some value
      → find_expire keys expires db s ≡ some (pos w)
      → current keys expires later db s ≡ (if ltb later w then some value else none)
  current_expiring db s value w later hk he =
      rw (he, is_due_pos later w, hk) (not-if none (some value) (ltb later w))

  -- `EXPIRE key n` on a key that is there and has no time of expiry yet, where the time does not
  -- overflow, answers 1; the key keeps its value for `n` seconds and has none from then on.
  pub expire_command-fresh :
      (name : List ℕ) (now n : ℕ) (before : Session T E) (cmd key seconds value : Object)
      (s : List ℕ)
      → IsDb keys expires eq key_laws expire_laws before.db
      → p.key_bytes key ≡ s
      → p.string2ll (p.key_bytes seconds) ≡ some (pos n)
      → now + n * 1000 < 2 ^ 63
      → find_key keys expires before.db s ≡ some value
      → find_expire keys expires before.db s ≡ none
      → Expires now n s value before
          (expire_command p keys expires name now before (cmd ∷ key ∷ seconds ∷ []))
  unfolding expire_command
  expire_command-fresh name now n before cmd key seconds value s is hk hn small found fresh =
      let e =
        db_set_expire-fresh keys expires eq key_laws expire_laws before.db s (pos (now + n * 1000))
          is fresh in
      let fits : ltb (now + n * 1000) (2 ^ 63) ≡ true = ground arith in
      record {
        after = e.after;
        done = rw (hk, hn, found, fits, e.done) refl;
        is_db = e.is_db;
        current_lem = λ later.
            current_expiring e.after s value (now + n * 1000) later (rw e.keys_kept found)
              (e.finds s ∙ rw ((key_laws.eq_iff s s).1 refl) refl);
      }

  -- `EXPIRE key n` on a key that has a time of expiry already, where the new one does not overflow,
  -- changes nothing and answers an error.
  pub expire_command-existing :
      (name : List ℕ) (now n : ℕ) (before : Session T E) (cmd key seconds value : Object)
      (s : List ℕ) (t : ℤ)
      → IsDb keys expires eq key_laws expire_laws before.db
      → p.key_bytes key ≡ s
      → p.string2ll (p.key_bytes seconds) ≡ some (pos n)
      → now + n * 1000 < 2 ^ 63
      → find_key keys expires before.db s ≡ some value
      → find_expire keys expires before.db s ≡ some t
      → expire_command p keys expires name now before (cmd ∷ key ∷ seconds ∷ [])
        ≡ some (record before {
          client = add_reply_error before.client (codes "ERR could not set expire");
        })
  unfolding expire_command
  expire_command-existing name now n before cmd key seconds value s t is hk hn small found there =
      let fits : ltb (now + n * 1000) (2 ^ 63) ≡ true = ground arith in
      rw
        (
          hk,
          hn,
          found,
          fits,
          db_set_expire-existing keys expires eq key_laws expire_laws before.db s
              (pos (now + n * 1000)) t is there,
        )
        refl

-- ===== src/Client/Process/Pipeline.antt =====
-- Several requests in one buffer: the input loop runs them all, in order.
use mathlib.Core.Path.{subst}
use latte_redis_server.Prelude.{
  ℕ, suc, ◌≤◌, ◌≡◌, refl, ap, sym, ◌∙◌, List, [], ◌∷◌, ◌++◌, true, false, some, length, map, arith,
  length-drop,
}
use latte_redis_server.Object.{Object, string_object}
use latte_redis_server.Command.{Command}
use latte_redis_server.Client.{Client, unread, reset_redis_client}
use latte_redis_server.Client.Multibulk.{max_multibulk}
use latte_redis_server.Client.Multibulk.Bounds.{InBuffer}
use latte_redis_server.Client.Multibulk.RoundTrip.{Decimal, encode, Sendable}
use latte_redis_server.Client.Process.{
  Env, again, call, process_command, process_found, after_command, finish,
  redis_process_input_buffer,
}
use latte_redis_server.Client.Process.Unknown.{IsReset, HasRead, turn-encode, loop-again}

-- A request: the command's name and its other arguments.
abbrev pub Request : Type 0
Request = List ℕ × List (List ℕ)

abbrev pub words : Request → List (List ℕ)
words r = r.0 ∷ r.1

-- What the input loop needs of the commands that are requested, those with `Fine`, in the states `Good`, which
-- they keep: that they keep the client, its query buffer, its database and the flags that the loop reads.
-- `Fine` is about a command and its arguments, `Good` about a server and the database selected.
pub record Polite {S : Type 0} (env : Env S) (Fine : Command → List Object → Type 0)
    (Good : S → ℕ → Type 0) (k : Command) (s : S) (c : Client) : Type 0 where
  pub alive : (env.run k s c).2 ≡ true
  pub good : Good (env.run k s c).0 c.dbid
  pub dbid : (env.run k s c).1.dbid ≡ c.dbid
  pub querybuf : (env.run k s c).1.querybuf ≡ c.querybuf
  pub qb_pos : (env.run k s c).1.qb_pos ≡ c.qb_pos
  pub flag : (env.run k s c).1.flag ≡ c.flag
  pub close_after_reply : (env.run k s c).1.close_after_reply ≡ c.close_after_reply
  pub close_asap : (env.run k s c).1.close_asap ≡ c.close_asap

-- All of them are so.
abbrev pub AllPolite :
    {S : Type 0} → Env S → (Command → List Object → Type 0) → (S → ℕ → Type 0) → Type 0
AllPolite {S} env Fine Good =
    (k : Command) (s : S) (c : Client) → Fine k c.argv → Good s c.dbid → Polite env Fine Good k s c

module _ {S : Type 0} (env : Env S) (d : Decimal env.proto) where
  abbrev pub encode_all : List Request → List ℕ
  encode_all [] = []
  encode_all (r ∷ rs) = encode env.proto d (words r) ++ encode_all rs

  -- In every good state, every request names a command of the table that is fine with its arguments; and it
  -- keeps the limits.
  abbrev pub Runnable :
      (Command → List Object → Type 0) → (S → ℕ → Type 0) → ℕ → ℕ → List Request → Type 0
  Runnable Fine Good dbid flags [] = Unit {0}
  Runnable Fine Good dbid flags (r ∷ rs) =
      ((s : S)
        → Good s dbid
        → (k : Command) × (env.lookup s r.0 ≡ some k) × Fine k (map string_object (words r)))
      × Sendable env.proto d flags (words r)
      × (length (words r) ≤ max_multibulk)
      × Runnable Fine Good dbid flags rs

  -- From a server and a client, requests are served one after the other up to `s'` and `c'`: each is
  -- read whole, its command runs on a client that holds exactly its arguments, and the client is
  -- reset behind it.
  pub data Served (s' : S) (c' : Client) : S → Client → List Request → Type 0 where
    all_served : Served s' c' s' c' []
    serve :
        {s : S} {c : Client} {r : Request} {rs : List Request} (rest : List ℕ) (read : Client)
        (k : Command)
        → HasRead (words r) rest c read
        → env.lookup s r.0 ≡ some k
        → Served s' c' (call env k s read).0 (reset_redis_client (call env k s read).1) rs
        → Served s' c' s c (r ∷ rs)

  pub loop-empty :
      (fuel : ℕ) (s : S) (c : Client)
      → InBuffer c
      → unread c ≡ []
      → redis_process_input_buffer env (suc fuel) s c ≡ finish env s c
  unfolding redis_process_input_buffer
  loop-empty fuel s c h e = ground (arith, ap length e, length-drop c.qb_pos c.querybuf)

  module _ (Fine : Command → List Object → Type 0) (Good : S → ℕ → Type 0) where
    -- The client that a command is called with.
    abbrev called : Client → Command → Client
    called c k = record c { cmd = some k; lastcmd = some k }

    turn-found :
        (s : S) (c : Client) (name : List ℕ) (k : Command)
        → Polite env Fine Good k s (called c k)
        → env.lookup s name ≡ some k
        → after_command env s c (process_command env (string_object name) s c)
          ≡ again (call env k s c).0 (reset_redis_client (call env k s c).1)
    unfolding process_command process_found after_command call
    turn-found s c name k p h = rw (h, p.alive)

    call-IsReset :
        (s : S) (c : Client) (k : Command)
        → Polite env Fine Good k s (called c k)
        → InBuffer c
        → c.close_after_reply ≡ false
        → c.close_asap ≡ false
        → let c' = reset_redis_client (call env k s c).1 in
          IsReset c'
          × (unread c' ≡ unread c)
          × (c'.flag ≡ c.flag)
          × (c'.dbid ≡ c.dbid)
          × Good (call env k s c).0 c.dbid
    unfolding call reset_redis_client
    call-IsReset s c k p h h1 h2 = (
      record {
        multi_bulk_len = refl;
        argv = refl;
        bulk_len = refl;
        req_type = refl;
        close_after_reply = p.close_after_reply ∙ h1;
        close_asap = p.close_asap ∙ h2;
        in_buffer = rw (p.querybuf, p.qb_pos) h;
      },
      rw (p.querybuf, p.qb_pos),
      p.flag,
      p.dbid,
      p.good,
    )

    -- The loop over any number of encoded requests ends by its own test, on fuel for one round more
    -- than there are requests; it has served them all in order, no byte is left, and the client is
    -- ready for the next request. This is so where the server is in one of a set of states, and in each of
    -- them every request's name is that of a command of the table which, with the request's arguments, goes
    -- on, leaves the server in one of those states, and keeps the client's query buffer, read position,
    -- database and the flags that the loop reads, so that it is no `QUIT`; and where every request has at
    -- most 1048576 arguments, each shorter than 2^63 and, unless the client is
    -- a master, no longer than `proto_max_bulk_len`.
    pub process_input_buffer-encode_all :
        (rs : List Request) (s : S) (c : Client) (flags dbid : ℕ)
        → AllPolite env Fine Good
        → IsReset c
        → c.flag ≡ flags
        → c.dbid ≡ dbid
        → Good s dbid
        → unread c ≡ encode_all rs
        → Runnable Fine Good dbid flags rs
        → (s' : S) × (c' : Client) × (redis_process_input_buffer env (suc (length rs)) s c
            ≡ finish env s' c')
          × Served s' c' s c rs
          × IsReset c'
          × (unread c' ≡ [])
    process_input_buffer-encode_all [] s c flags dbid p r hf hd good hu h =
        (s, c, loop-empty 0 s c r.in_buffer hu, all_served, r, hu)
    process_input_buffer-encode_all (q ∷ qs) s c flags dbid p r hf hd good hu h =
        let (k, hk, fine) = h.0 s good in
        let (read, has, e) =
          turn-encode env d s c q.0 q.1 (encode_all qs) r hu
            (subst (λ f. Sendable env.proto d f (words q)) (sym hf) h.1) h.2 in
        let selected = has.frame.dbid ∙ hd in
        let polite =
          p k s (called read k) (subst (Fine k) (sym has.argv) fine)
            (subst (Good s) (sym selected) good) in
        let (r', bytes, same, same_db, good') =
          call-IsReset s read k polite has.in_buffer
            (has.frame.close_after_reply ∙ r.close_after_reply)
            (has.frame.close_asap ∙ r.close_asap) in
        let t = (call env k s read).0 in
        let b = reset_redis_client (call env k s read).1 in
        let (s', c', run, served, done, nothing) =
          process_input_buffer-encode_all qs t b flags dbid p r' (same ∙ has.frame.flag ∙ hf)
            (same_db ∙ selected) (subst (Good t) selected good') (bytes ∙ has.unread_rest) h.3 in
        (
          s',
          c',
          loop-again env d (suc (length qs)) s t c b (rw hu (omega arith))
                (e ∙ turn-found s read q.0 k polite hk)
              ∙ run,
          serve (encode_all qs) read k has hk served,
          done,
          nothing,
        )

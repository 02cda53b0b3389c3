-- ===== src/Client/Multibulk/Pieces.antt =====
-- The loop over a request that arrives in two pieces.
use latte_redis_server.Prelude.{ℕ, suc, ◌≡◌, List, ◌++◌, Option, refl, ◌∙◌, arith, ap}
use latte_redis_server.Prelude.Slices.{drop-append}
use latte_redis_server.Client.{Client, unread}
use latte_redis_server.Client.Multibulk.{ProtoApi, Status, bulk_loop}
use latte_redis_server.Client.Multibulk.Scan.{Scan, complete, partial, failed, scan, Agrees}
use latte_redis_server.Client.Multibulk.Loop.{bound, bulk_loop-Agrees, Agrees-prepend}
use latte_redis_server.Client.Multibulk.Bounds.{InBuffer, bulk_loop-InBuffer}
use latte_redis_server.Client.Multibulk.Resume.{scan-append}

-- The server reads `s` from the connection.
abbrev pub receive : Client → List ℕ → Client
receive c s = record c { querybuf = c.querybuf ++ s }

module _ (p : ProtoApi) where
  receive-unread : (c : Client) (s : List ℕ) → InBuffer c → unread (receive c s) ≡ unread c ++ s
  receive-unread c s h = drop-append c.qb_pos c.querybuf s h

  Agrees-receive :
      (c : Client) (s : List ℕ) (sc : Scan) (out : Status × Client)
      → Agrees (receive c s) sc out
      → Agrees c sc out
  Agrees-receive c s (complete xs r) out h = h
  Agrees-receive c s (partial xs n b r) out h = h
  Agrees-receive c s failed out h = h

  -- If the loop stops for want of bytes with `m` arguments missing, then receiving `s` and running
  -- it on gives the outcome of the scan of all the bytes, which is also the outcome of one run
  -- with `s` received first: the same arguments, unread bytes and missing parts, or a protocol
  -- error in both.
  pub bulk_loop-receive :
      (n m : ℕ) (b' : Option ℕ) (c : Client) (r' s : List ℕ) (xs : List (List ℕ))
      → c.multi_bulk_len ≡ suc n
      → InBuffer c
      → scan (bound p c.flag) (suc n) c.bulk_len (unread c) ≡ partial xs (suc m) b' r'
      → let whole = scan (bound p c.flag) (suc n) c.bulk_len (unread c ++ s) in
        Agrees c whole (bulk_loop p (suc n) (receive c s))
        × Agrees c whole (bulk_loop p (suc m) (receive (bulk_loop p (suc n) c).1 s))
  bulk_loop-receive n m b' c r' s xs hn hb h =
      let c' = (bulk_loop p (suc n) c).1 in
      let first =
        rw h at (
          bulk_loop-Agrees p (suc n) c.flag c.bulk_len c hn refl refl
            (λ e. absurd (omega arith))) in
      let d = receive c' s in
      let bytes =
        receive-unread c' s (bulk_loop-InBuffer p (suc n) c hb) ∙ ap (λ r. r ++ s) first.2 in
      let later =
        bulk_loop-Agrees p (suc m) c.flag b' d first.3 first.6 first.4
          (λ e. absurd (omega arith)) in
      (
        Agrees-receive c s (scan (bound p c.flag) (suc n) c.bulk_len (unread c ++ s))
            (bulk_loop p (suc n) (receive c s))
            (rw (receive-unread c s hb) at (
              bulk_loop-Agrees p (suc n) c.flag c.bulk_len (receive c s) hn refl refl
                (λ e. absurd (omega arith)))),
        rw (scan-append (bound p c.flag) (suc n) (suc m) c.bulk_len b' (unread c) r' s xs h) (
            Agrees-prepend c d xs (scan (bound p c.flag) (suc m) b' (r' ++ s))
              (bulk_loop p (suc m) d) first.1 first.5 first.6 (rw bytes at later)),
      )

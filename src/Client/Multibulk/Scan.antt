-- ===== src/Client/Multibulk/Scan.antt =====
-- What `process_multibulk_buffer` reads, as a function of the unread bytes alone, and what it means
-- for a call of it to agree with that.
use latte_redis_server.Prelude.{
  ℕ, zero, suc, ◌+◌, ◌-◌, ◌≡◌, List, [], ◌∷◌, ◌++◌, not, Option, none, some, length, take, drop,
  ltb, ◌==◌, if◌then◌else◌, map,
}
use latte_redis_server.Object.{string_object}
use latte_redis_server.Client.{Client, unread, proto_inline_max_size}
use latte_redis_server.Client.Multibulk.{strchr, first_byte, Status, done, stop}
use latte_redis_server.Reply.Kept.{SentLine}

-- A length line: not there in full, refused, or a length with the bytes that follow the line.
pub data Line : Type 0 where
  more refused : Line
  sized : ℕ → List ℕ → Line

-- What is read: all the arguments and the bytes behind them; or some arguments, with how many are
-- missing, the length of the next if it is known, and the bytes not used; or a protocol error.
pub data Scan : Type 0 where
  complete : List (List ℕ) → List ℕ → Scan
  partial : List (List ℕ) → ℕ → Option ℕ → List ℕ → Scan
  failed : Scan

abbrev pub prepend : List (List ℕ) → Scan → Scan
prepend xs (complete ys r) = complete (xs ++ ys) r
prepend xs (partial ys n b r) = partial (xs ++ ys) n b r
prepend xs failed = failed

-- `bound` reads the decimal digits of a length line, and refuses what the client may not send.
module _ (bound : List ℕ → Option ℕ) where
  abbrev pub sized_by : Option ℕ → List ℕ → Line
  sized_by none r = refused
  sized_by (some ll) r = sized ll r

  unfoldable pub line_at : List ℕ → Option ℕ → Line
  line_at r none = if ltb proto_inline_max_size (length r) then refused else more
  line_at r (some i) =
      if ltb (length r) (i + 2)
      then more
      else if not (first_byte r == b'$')
      then refused
      else sized_by (bound (take (i - 1) (drop 1 r))) (drop (i + 2) r)

  unfoldable pub line : Option ℕ → List ℕ → Line
  unfolding line_at
  line (some ll) r = sized ll r
  line none r = line_at r (strchr b'\r' r)

  unfoldable pub scan_round : (List ℕ → Scan) → ℕ → List ℕ → Line → Scan
  scan_round next n r more = partial [] (suc n) none r
  scan_round next n r refused = failed
  scan_round next n r (sized ll r') =
      if ltb (length r') (ll + 2)
      then partial [] (suc n) (some ll) r'
      else prepend (take ll r' ∷ []) (next (drop (ll + 2) r'))

  unfoldable pub scan : ℕ → Option ℕ → List ℕ → Scan
  unfolding scan_round
  scan zero b r = complete [] r
  scan (suc n) b r = scan_round (scan n none) n r (line b r)

-- A call's result against a scan from client `c`.
abbrev pub Agrees : Client → Scan → Status × Client → Type 0
Agrees c (complete xs r) (s, c') =
    (s ≡ done)
    × (c'.argv ≡ c.argv ++ map string_object xs)
    × (unread c' ≡ r)
    × (c'.multi_bulk_len ≡ 0)
    × (c'.bulk_len ≡ none)
    × (c'.reply ≡ c.reply)
    × (c'.flag ≡ c.flag)
Agrees c (partial xs n b r) (s, c') =
    (s ≡ stop)
    × (c'.argv ≡ c.argv ++ map string_object xs)
    × (unread c' ≡ r)
    × (c'.multi_bulk_len ≡ n)
    × (c'.bulk_len ≡ b)
    × (c'.reply ≡ c.reply)
    × (c'.flag ≡ c.flag)
Agrees c failed (s, c') = (s ≡ stop) × SentLine c c'

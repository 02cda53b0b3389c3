-- ===== src/Reply/Kept.antt =====
-- An error reply appends one line that ends in CRLF to what was written before.
use latte_redis_server.Prelude.{ℕ, List, ◌≡◌, ◌++◌, append_assoc, refl, Bool, true, false}
use latte_redis_server.Object.{codes}
use latte_redis_server.Client.{Client}
use latte_redis_server.Reply.{
  ReplyApi, crlf, lacks_code, add_reply_error, add_reply_error_length, add_reply_error_format,
}

-- `c'` has been sent one more line than `c`.
abbrev pub SentLine : Client → Client → Type 0
SentLine c c' = (line : List ℕ) × (c'.reply ≡ c.reply ++ (line ++ crlf))

pub add_reply_error_length-SentLine :
    (c : Client) (s : List ℕ) (b : Bool)
    → lacks_code s ≡ b
    → SentLine c (add_reply_error_length c s)
unfolding add_reply_error_length
add_reply_error_length-SentLine c s true h = (codes "-ERR " ++ s, rw h (simp append_assoc))
add_reply_error_length-SentLine c s false h = (s, rw h (rw append_assoc))

pub add_reply_error-SentLine : (c : Client) (s : List ℕ) → SentLine c (add_reply_error c s)
unfolding add_reply_error
add_reply_error-SentLine c s = add_reply_error_length-SentLine c s _ refl

pub add_reply_error_format-SentLine :
    (p : ReplyApi) (c : Client) (s : List ℕ) → SentLine c (add_reply_error_format p c s)
unfolding add_reply_error_format
add_reply_error_format-SentLine p c s =
    add_reply_error_length-SentLine c (p.sds_blank_crlf (p.sds_trim_crlf s)) _ refl

-- ===== src/Reply/Deferred/Place.antt =====
-- Filling the place that was kept for a length: what is written, and that no block is overfilled.
use latte_redis_server.Prelude.{
  ℕ, ◌+◌, ◌-◌, ◌*◌, ◌%◌, ◌^◌, ◌≤◌, ◌≡◌, refl, List, [], ◌∷◌, ◌++◌, Bool, true, ◌&&◌, none, some,
  ltb, leb, ◌==◌, length, take, drop, min, arith, append_assoc, append-nil, take-append-drop,
  length-append, length-take, Bool-cases, inl, inr,
}
use latte_redis_server.Reply.Deferred.{
  Block, Node, ReplyList, BlockApi, Filled, fill_block, fill_prev, new_block, fill_next, after_prev,
  set_deferred_reply, room,
}

-- The text of the blocks, in order.
abbrev pub text_of : Node → List ℕ
text_of none = []
text_of (some b) = b.buf

abbrev pub written : List Node → List ℕ
written [] = []
written (x ∷ xs) = text_of x ++ written xs

-- No block holds more than its size.
abbrev pub Fits : Node → Type 0
Fits none = 0 ≤ 0
Fits (some b) = length b.buf ≤ b.size

abbrev pub AllFit : List Node → Type 0
AllFit [] = 0 ≤ 0
AllFit (x ∷ xs) = Fits x × AllFit xs

pub written-append : (xs ys : List Node) → written (xs ++ ys) ≡ written xs ++ written ys
written-append [] ys = refl
written-append (x ∷ xs) ys =
    rw (written-append xs ys, append_assoc (text_of x) (written xs) (written ys)) refl

pub AllFit-append : (xs ys : List Node) → AllFit xs → AllFit ys → AllFit (xs ++ ys)
AllFit-append [] ys h k = k
AllFit-append (x ∷ xs) ys h k = (h.0, AllFit-append xs ys h.1 k)

-- What filling a block keeps: the text so far and the text given are what is written and what is left.
record FilledRight (xs : List Node) (s : List ℕ) (f : Filled) : Type 0 where
  text : written f.nodes ++ f.left ≡ written xs ++ s
  fits : AllFit f.nodes

room-used :
    (b : Block) (s : List ℕ)
    → length b.buf ≤ b.size
    → length (b.buf ++ take (min (b.size - length b.buf) (length s)) s) ≤ b.size
room-used b s h =
    rw
      (
        length-append b.buf (take (min (b.size - length b.buf) (length s)) s),
        length-take (min (b.size - length b.buf) (length s)) s,
      )
      (omega arith)

room-text :
    (b : Block) (n : ℕ) (s : List ℕ)
    → (((b.buf ++ take n s) ++ []) ++ drop n s) ≡ (b.buf ++ []) ++ s
room-text b n s =
    rw
      (
        append-nil (b.buf ++ take n s),
        append-nil b.buf,
        append_assoc b.buf (take n s) (drop n s),
        take-append-drop n s,
      )
      refl

fill_block-FilledRight : (x : Node) (s : List ℕ) → Fits x → FilledRight (x ∷ []) s (fill_block x s)
unfolding fill_block
fill_block-FilledRight none s h = record { text = refl; fits = (h, omega arith) }
fill_block-FilledRight (some b) s h = elim (Bool-cases (ltb 0 (b.size - length b.buf))) [
  | inl e ↦ rw e (record {
    text = room-text b (min (b.size - length b.buf) (length s)) s;
    fits = (room-used b s h, omega arith);
  })
  | inr e ↦ rw e (record { text = refl; fits = (h, omega arith) })
]

fill_prev-FilledRight :
    (xs : List Node) (s : List ℕ) → AllFit xs → FilledRight xs s (fill_prev xs s)
unfolding fill_prev
fill_prev-FilledRight [] s h = record { text = refl; fits = h }
fill_prev-FilledRight (x ∷ []) s h = fill_block-FilledRight x s h.0
fill_prev-FilledRight (x ∷ y ∷ xs) s h =
    let r = fill_prev-FilledRight (y ∷ xs) s h.1 in
    record {
      text =
          rw
            (
              append_assoc (text_of x) (written (fill_prev (y ∷ xs) s).nodes)
                  (fill_prev (y ∷ xs) s).left,
              r.text,
              append_assoc (text_of x) (written (y ∷ xs)) s,
            )
            refl;
      fits = (h.0, r.fits);
    }

joined-Fits :
    (b : Block) (s : List ℕ) (t : Bool)
    → length b.buf ≤ b.size
    → leb (length s) (room b) && t ≡ true
    → length (s ++ b.buf) ≤ b.size
joined-Fits b s t h e = ground (arith, length-append s b.buf)

length-none : (s : List ℕ) (t : Bool) → t && (length s == 0) ≡ true → s ≡ []
length-none [] t e = refl
length-none (x ∷ s) t e = ground arith

-- An allocation has at least the room that was asked for, and at least that of the header.
module _ (p : BlockApi) (usable : (n : ℕ) → n ≤ p.usable_size n) where
  new_block-Fits : (s : List ℕ) → length s ≤ (new_block p s).size
  unfolding new_block
  new_block-Fits s = omega (arith, usable (length s + p.header_size))

  -- What the list is to hold when the place is filled with `s`.
  record PlacedRight (xs : List Node) (s : List ℕ) (after : List Node) (c : ReplyList)
      : Type 0 where
    text : written c.nodes ≡ written xs ++ (s ++ written after)
    fits : AllFit c.nodes

  PlacedRight-append :
      (xs : List Node) (s : List ℕ) (after ys : List Node) (m : ℕ)
      → AllFit xs
      → AllFit ys
      → written ys ≡ s ++ written after
      → PlacedRight xs s after (record { nodes = xs ++ ys; reply_bytes = m })
  PlacedRight-append xs s after ys m h k e = record {
    text = rw (written-append xs ys, e) refl;
    fits = AllFit-append xs ys h k;
  }

  fill_next-PlacedRight :
      (xs : List Node) (s : List ℕ) (after : List Node) (n : ℕ)
      → AllFit xs
      → AllFit after
      → PlacedRight xs s after (fill_next p xs s after n)
  unfolding fill_next
  fill_next-PlacedRight xs s [] n h k =
      PlacedRight-append xs s [] (some (new_block p s) ∷ []) (fill_next p xs s [] n).reply_bytes h
        (new_block-Fits s, k) refl
  fill_next-PlacedRight xs s (none ∷ after) n h k =
      PlacedRight-append xs s (none ∷ after) (some (new_block p s) ∷ none ∷ after)
        (fill_next p xs s (none ∷ after) n).reply_bytes h (new_block-Fits s, k) refl
  fill_next-PlacedRight xs s (some b ∷ after) n h k =
      elim (Bool-cases (leb (length s) (room b) && ltb (length b.buf) (p.reply_chunk_bytes * 4))) [
        | inl e ↦ rw e (
            PlacedRight-append xs s (some b ∷ after) (some (record b { buf = s ++ b.buf }) ∷ after)
              n h (joined-Fits b s _ k.0 e, k.1) (append_assoc s b.buf (written after)))
        | inr e ↦ rw e (
            PlacedRight-append xs s (some b ∷ after) (some (new_block p s) ∷ some b ∷ after)
              ((n + (new_block p s).size) % 2 ^ 64) h (new_block-Fits s, k) refl)
      ]

  fill_next-FilledRight :
      (xs : List Node) (s : List ℕ) (f : Filled) (after : List Node) (n : ℕ)
      → FilledRight xs s f
      → AllFit after
      → PlacedRight xs s after (fill_next p f.nodes f.left after n)
  fill_next-FilledRight xs s f after n r k =
      let t = fill_next-PlacedRight f.nodes f.left after n r.fits k in
      record {
        text =
            rw
              (
                t.text,
                ← append_assoc (written f.nodes) f.left (written after),
                r.text,
                append_assoc (written xs) s (written after),
              )
              refl;
        fits = t.fits;
      }

  after_prev-PlacedRight :
      (xs : List Node) (s : List ℕ) (f : Filled) (after : List Node) (n : ℕ)
      → FilledRight xs s f
      → AllFit after
      → PlacedRight xs s after (after_prev p f after n)
  unfolding after_prev
  after_prev-PlacedRight xs s f after n r k =
      elim (Bool-cases (f.entered && (length f.left == 0))) [
        | inl e ↦ rw e (record {
          text =
              rw
                (
                  written-append f.nodes after,
                  ← append_assoc (written xs) s (written after),
                  ← r.text,
                  length-none f.left _ e,
                  append-nil (written f.nodes),
                )
                refl;
          fits = AllFit-append f.nodes after r.fits k;
        })
        | inr e ↦ rw e (fill_next-FilledRight xs s f after n r k)
      ]

  -- Filling the place that was kept between two stretches of an output list with a text writes the
  -- text exactly there, whatever room the blocks around have: what the blocks hold, in order, is then
  -- what was in front, the text, and what was behind. No block is given more than it has room for,
  -- when none holds too much before and an allocation is at least as large as what was asked for.
  pub set_deferred_reply_lem :
      (before after : List Node) (n : ℕ) (s : List ℕ)
      → AllFit before
      → AllFit after
      → (written (set_deferred_reply p before after n s).nodes
          ≡ written before ++ (s ++ written after))
        × AllFit (set_deferred_reply p before after n s).nodes
  unfolding set_deferred_reply
  set_deferred_reply_lem before after n s h k =
      let r =
        after_prev-PlacedRight before s (fill_prev before s) after n
          (fill_prev-FilledRight before s h) k in
      (r.text, r.fits)

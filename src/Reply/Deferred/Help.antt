-- ===== src/Reply/Deferred/Help.antt =====
-- The help of a command: an array of status lines whose length is written after the lines.
use latte_redis_server.Prelude.{
  ℕ, ◌+◌, ◌≤◌, ◌≡◌, refl, ◌∙◌, append-nil, List, [], ◌∷◌, ◌++◌, none, some, length, take, drop,
  arith, append_assoc, Bool-cases, inl, inr, ltb, ◌/◌, ◌&&◌, ap, length-append,
}
use latte_redis_server.Prelude.Slices.{take-append_self, drop-append_self, drop-drop}
use latte_redis_server.Object.{codes}
use latte_redis_server.Reply.{crlf}
use latte_redis_server.Reply.Deferred.{
  Node, ReplyList, BlockApi, trim_reply_unused_tail_space, trim_last, trim_block, add_reply_status,
  add_help_lines, help_header, help_body, add_reply_help, add_reply_deferred_len,
  set_deferred_array_len, room,
}
use latte_redis_server.Reply.Deferred.Place.{written, AllFit, set_deferred_reply_lem, Fits, text_of}

-- A status line on the wire.
unfoldable pub status_line : List ℕ → List ℕ
status_line s = codes "+" ++ (s ++ crlf)

abbrev pub status_lines : List (List ℕ) → List ℕ
status_lines [] = []
status_lines (s ∷ ss) = status_line s ++ status_lines ss

-- The lines that the help of a command has: the header, those given, and two of its own.
unfoldable pub help_lines : BlockApi → List ℕ → List (List ℕ) → List (List ℕ)
help_lines p name help =
    help_header p name ∷ (help ++ (codes "HELP" ∷ codes "   Prints this help." ∷ []))

status_lines-append :
    (xs ys : List (List ℕ)) → status_lines (xs ++ ys) ≡ status_lines xs ++ status_lines ys
status_lines-append [] ys = refl
status_lines-append (x ∷ xs) ys =
    rw (status_lines-append xs ys, append_assoc (status_line x) (status_lines xs) (status_lines ys))
      refl

pub length-help_lines :
    (p : BlockApi) (name : List ℕ) (help : List (List ℕ))
    → length (help_lines p name help) ≡ length help + 1 + 2
unfolding help_lines
length-help_lines p name help =
    omega (arith, length-append help (codes "HELP" ∷ codes "   Prints this help." ∷ []))

status_lines-help_lines :
    (p : BlockApi) (name : List ℕ) (help : List (List ℕ)) (a b : List ℕ)
    → ((status_line (help_header p name) ++ status_lines help) ++ status_line a) ++ status_line b
      ≡ status_lines (help_header p name ∷ (help ++ (a ∷ b ∷ [])))
status_lines-help_lines p name help a b =
    rw
      (
        status_lines-append help (a ∷ b ∷ []),
        append-nil (status_line b),
        append_assoc (status_line (help_header p name) ++ status_lines help) (status_line a)
            (status_line b),
        append_assoc (status_line (help_header p name)) (status_lines help)
            (status_line a ++ status_line b),
      )
      refl

-- `after` stands behind a place that was kept behind `before`, with the text `s` in it.
record Behind (before : List Node) (s : List ℕ) (c : ReplyList) : Type 0 where
  after : List Node
  split : c.nodes ≡ before ++ (none ∷ after)
  text : written after ≡ s
  fits : AllFit after

Behind-text :
    (before : List Node) {s t : List ℕ} {c : ReplyList}
    → s ≡ t
    → Behind before s c
    → Behind before t c
Behind-text before e b = record {
  after = b.after;
  split = b.split;
  text = b.text ∙ e;
  fits = b.fits;
}

-- What is relied on of the output buffer: a text is put behind what is written, a place that is
-- kept stays, and no block is overfilled.
pub record BufferLaws (p : BlockApi) : Type 0 where
  pub usable : (n : ℕ) → n ≤ p.usable_size n
  pub appended :
      (c : ReplyList) (before after : List Node) (s : List ℕ)
      → c.nodes ≡ before ++ (none ∷ after)
      → AllFit after
      → (after' : List Node) × (((p.add_reply_proto c s).nodes ≡ before ++ (none ∷ after'))
          × ((written after' ≡ written after ++ s) × AllFit after'))

module _ (p : BlockApi) (laws : BufferLaws p) where
  Behind-add_reply_proto :
      (before : List Node) (s t : List ℕ) (c : ReplyList)
      → Behind before s c
      → Behind before (s ++ t) (p.add_reply_proto c t)
  Behind-add_reply_proto before s t c b =
      let r = laws.appended c before b.after t b.split b.fits in
      record { after = r.0; split = r.1.0; text = rw (r.1.1.0, b.text) refl; fits = r.1.1.1 }

  Behind-add_reply_status :
      (before : List Node) (s t : List ℕ) (c : ReplyList)
      → Behind before s c
      → Behind before (s ++ status_line t) (add_reply_status p c t)
  unfolding add_reply_status status_line
  Behind-add_reply_status before s t c b =
      let plus = Behind-add_reply_proto before s (codes "+") c b in
      let line =
        Behind-add_reply_proto before (s ++ codes "+") t (p.add_reply_proto c (codes "+")) plus in
      Behind-text before
        (rw (append_assoc (s ++ codes "+") t crlf, append_assoc s (codes "+") (t ++ crlf)) refl)
        (Behind-add_reply_proto before ((s ++ codes "+") ++ t) crlf
          (p.add_reply_proto (p.add_reply_proto c (codes "+")) t) line)

  Behind-add_help_lines :
      (before : List Node) (s : List ℕ) (help : List (List ℕ)) (c : ReplyList)
      → Behind before s c
      → Behind before (s ++ status_lines help) (add_help_lines p c help)
  unfolding add_help_lines
  Behind-add_help_lines before s [] c b = Behind-text before (rw (append-nil s) refl) b
  Behind-add_help_lines before s (t ∷ help) c b =
      Behind-text before (append_assoc s (status_line t) (status_lines help)) (
        Behind-add_help_lines before (s ++ status_line t) help (add_reply_status p c t)
          (Behind-add_reply_status before s t c b))

  Behind-help_body :
      (before : List Node) (n : ℕ) (name : List ℕ) (help : List (List ℕ))
      → Behind before
          (status_lines (help_lines p name help))
          (help_body p (record { nodes = before ++ (none ∷ []); reply_bytes = n }) name help)
  unfolding help_body help_lines
  Behind-help_body before n name help =
      let h = help_header p name in
      let c : ReplyList = record { nodes = before ++ (none ∷ []); reply_bytes = n } in
      let b0 : Behind before [] c = record {
        after = [];
        split = refl;
        text = refl;
        fits = omega arith;
      } in
      let b1 = Behind-add_reply_status before [] h c b0 in
      let c1 = add_reply_status p c h in
      let b2 = Behind-add_help_lines before (status_line h) help c1 b1 in
      let c2 = add_help_lines p c1 help in
      let b3 =
        Behind-add_reply_status before (status_line h ++ status_lines help) (codes "HELP") c2 b2 in
      let b4 =
        Behind-add_reply_status before
          ((status_line h ++ status_lines help) ++ status_line (codes "HELP"))
          (codes "   Prints this help.") (add_reply_status p c2 (codes "HELP")) b3 in
      Behind-text before
        (status_lines-help_lines p name help (codes "HELP") (codes "   Prints this help.")) b4

  trim_block-Fits :
      (n : ℕ) (x : Node)
      → Fits x
      → (written (trim_block p n x).0 ≡ written (x ∷ [])) × AllFit (trim_block p n x).0
  unfolding trim_block
  trim_block-Fits n none h = (refl, (h, omega arith))
  trim_block-Fits n (some b) h =
      elim (Bool-cases (ltb (b.size / 4) (room b) && ltb (length b.buf) p.reply_chunk_bytes)) [
        | inl e ↦
            rw e (refl, (omega (arith, laws.usable (length b.buf + p.header_size)), omega arith))
        | inr e ↦ rw e (refl, (h, omega arith))
      ]

  trim_last-AllFit :
      (n : ℕ) (xs : List Node)
      → AllFit xs
      → (written (trim_last p xs n).0 ≡ written xs) × AllFit (trim_last p xs n).0
  unfolding trim_last
  trim_last-AllFit n [] h = (refl, h)
  trim_last-AllFit n (x ∷ []) h = trim_block-Fits n x h.0
  trim_last-AllFit n (x ∷ y ∷ xs) h =
      let t = trim_last-AllFit n (y ∷ xs) h.1 in (ap (λ s. text_of x ++ s) t.0, (h.0, t.1))

  filled :
      (before : List Node) (s : List ℕ) (c : ReplyList) (len : ℕ)
      → Behind before s c
      → AllFit before
      → let r =
          set_deferred_array_len p
            (take (length before) c.nodes)
            (drop (length before + 1) c.nodes)
            c.reply_bytes
            len in
        (written r.nodes ≡ written before ++ ((b'*' ∷ (p.decimal len ++ crlf)) ++ s))
        × AllFit r.nodes
  unfolding set_deferred_array_len
  filled before s c len b h =
      rw
        (
          b.split,
          take-append_self before (none ∷ b.after),
          drop-drop (length before) 1 (before ++ (none ∷ b.after)),
          drop-append_self before (none ∷ b.after),
          ← b.text,
        )
        (set_deferred_reply_lem p laws.usable before b.after c.reply_bytes
          (b'*' ∷ (p.decimal len ++ crlf)) h b.fits)

  -- The help of a command is written as one array whose announced length is the number of its
  -- lines: behind what the blocks held before stands `*`, the number of the header, the lines given
  -- and the two lines that every help ends with, and then exactly these lines as status replies.
  -- No block is given more than it has room for. This is so when no block held too much before,
  -- under the laws of the output buffer.
  pub add_reply_help_lem :
      (c : ReplyList) (name : List ℕ) (help : List (List ℕ))
      → AllFit c.nodes
      → (written (add_reply_help p c name help).nodes
          ≡ written c.nodes
            ++ ((b'*' ∷ (p.decimal (length (help_lines p name help)) ++ crlf))
                ++ status_lines (help_lines p name help)))
        × AllFit (add_reply_help p c name help).nodes
  unfolding add_reply_help trim_reply_unused_tail_space add_reply_deferred_len
  add_reply_help_lem c name help h =
      let t = trim_last-AllFit c.reply_bytes c.nodes h in
      let kept = trim_reply_unused_tail_space p c in
      rw (length-help_lines p name help, ← t.0)
        (filled kept.nodes (status_lines (help_lines p name help))
          (help_body p (record kept { nodes = kept.nodes ++ (none ∷ []) }) name help)
          (length help + 1 + 2) (Behind-help_body kept.nodes kept.reply_bytes name help) t.1)

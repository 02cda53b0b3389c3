-- ===== src/Client/Multibulk/Resume.antt =====
-- A request that arrives in pieces: a scan that stopped for want of bytes goes on, when more have
-- come, as if they had been there from the start.
use latte_redis_server.Prelude.{
  ℕ, zero, suc, ◌+◌, ◌-◌, ◌<◌, ◌≡◌, refl, List, [], ◌∷◌, ◌++◌, Option, none, some, length, take,
  drop, ltb, arith, inl, inr, Bool-cases, length-append, length-drop, Option-cases, ◌≢◌,
}
use latte_redis_server.Prelude.Slices.{drop-append, take-append}
use latte_redis_server.Client.Multibulk.{strchr, first_byte}
use latte_redis_server.Client.Multibulk.Scan.{
  Line, more, refused, sized, Scan, complete, partial, failed, prepend, line_at, line, scan_round,
  scan,
}

strchr-append :
    (c i : ℕ) (r s : List ℕ) → strchr c r ≡ some i → (strchr c (r ++ s) ≡ some i) × (i < length r)
unfolding strchr
strchr-append c i [] s h = cc
strchr-append c i (b ∷ r) s h = elim (Option-cases (strchr c r)) [
  | inl e ↦ ground (arith, e)
  | inr (j, e) ↦ ground (arith, e, strchr-append c j r s e)
]

first_byte-append : (r s : List ℕ) → 0 < length r → first_byte (r ++ s) ≡ first_byte r
unfolding first_byte
first_byte-append [] s h = absurd (omega arith)
first_byte-append (b ∷ r) s h = refl

module _ (bound : List ℕ → Option ℕ) where
  line_at-append :
      (i ll : ℕ) (r r' s : List ℕ)
      → line_at bound r (some i) ≡ sized ll r'
      → line_at bound (r ++ s) (some i) ≡ sized ll (r' ++ s)
  unfolding line_at
  line_at-append i ll r r' s h = ground (
    arith,
    length-append r s,
    first_byte-append r s,
    drop-append 1 r s,
    length-drop 1 r,
    take-append (i - 1) (drop 1 r) s,
    drop-append (i + 2) r s,
  )

  line_at-none : (r r' : List ℕ) (ll : ℕ) → line_at bound r none ≢ sized ll r'
  unfolding line_at
  line_at-none r r' ll h = ground arith

  line-append :
      (b : Option ℕ) (ll : ℕ) (r r' s : List ℕ)
      → line bound b r ≡ sized ll r'
      → line bound b (r ++ s) ≡ sized ll (r' ++ s)
  unfolding line
  line-append (some k) ll r r' s h = ground arith
  line-append none ll r r' s h = elim (Option-cases (strchr b'\r' r)) [
    | inl e ↦ absurd (line_at-none r r' ll (rw e at h))
    | inr (i, e) ↦ rw ((strchr-append b'\r' i r s e).0) (line_at-append i ll r r' s (rw e at h))
  ]

  -- A line without an end was looked for, so no length was known.
  line-more : (b : Option ℕ) (r : List ℕ) → line bound b r ≡ more → b ≡ none
  unfolding line
  line-more none r h = refl
  line-more (some k) r h = cc

  prepend-nil : (s : Scan) → prepend [] s ≡ s
  prepend-nil (complete xs r) = refl
  prepend-nil (partial xs n b r) = refl
  prepend-nil failed = refl

  prepend-cons :
      (x : List ℕ) (xs : List (List ℕ)) (s : Scan)
      → prepend (x ∷ []) (prepend xs s) ≡ prepend (x ∷ xs) s
  prepend-cons x xs (complete ys r) = refl
  prepend-cons x xs (partial ys n b r) = refl
  prepend-cons x xs failed = refl

  scan-suc :
      (n : ℕ) (b : Option ℕ) (r : List ℕ)
      → scan bound (suc n) b r ≡ scan_round bound (scan bound n none) n r (line bound b r)
  unfolding scan
  scan-suc n b r = refl

  scan-some :
      (n ll : ℕ) (r q : List ℕ)
      → scan bound (suc n) (some ll) q ≡ scan_round bound (scan bound n none) n r (sized ll q)
  unfolding scan line
  scan-some n ll r q = refl

  -- Only the first argument's name is new in what `prepend` gives back.
  prepend-partial :
      (x : List ℕ) (sc : Scan) (xs : List (List ℕ)) (m : ℕ) (b : Option ℕ) (r : List ℕ)
      → prepend (x ∷ []) sc ≡ partial xs m b r
      → (ys : List (List ℕ)) × (sc ≡ partial ys m b r) × (xs ≡ x ∷ ys)
  prepend-partial x (complete ys r') xs m b r h = absurd (ground arith)
  prepend-partial x (partial ys n b' r') xs m b r h = (ys, ground arith, ground arith)
  prepend-partial x failed xs m b r h = absurd (ground arith)

  -- One round, if the later rounds resume.
  resume_round :
      (n m : ℕ) (b b' : Option ℕ) (r r' s : List ℕ) (xs : List (List ℕ)) (l : Line)
      → ((ys : List (List ℕ)) (q : List ℕ)
          → scan bound n none q ≡ partial ys m b' r'
          → scan bound n none (q ++ s) ≡ prepend ys (scan bound m b' (r' ++ s)))
      → line bound b r ≡ l
      → scan_round bound (scan bound n none) n r l ≡ partial xs m b' r'
      → scan_round bound (scan bound n none) n (r ++ s) (line bound b (r ++ s))
        ≡ prepend xs (scan bound m b' (r' ++ s))
  unfolding scan_round
  resume_round n m b b' r r' s xs more ih e h = ground (
    arith,
    line-more b r e,
    scan-suc n none (r ++ s),
    prepend-nil (scan bound (suc n) none (r ++ s)),
  )
  resume_round n m b b' r r' s xs refused ih e h = absurd (ground arith)
  resume_round n m b b' r r' s xs (sized ll q) ih e h =
      elim (Bool-cases (ltb (length q) (ll + 2))) [
        | inl cut ↦ ground (
          arith,
          line-append b ll r q s e,
          scan-some n ll (r ++ s) (q ++ s),
          prepend-nil (scan bound (suc n) (some ll) (q ++ s)),
        )
        | inr whole ↦
            let (ys, e1, e2) =
              prepend-partial (take ll q) (scan bound n none (drop (ll + 2) q)) xs m b' r'
                (rw whole at h) in
            ground (
              arith,
              line-append b ll r q s e,
              length-append q s,
              take-append ll q s,
              drop-append (ll + 2) q s,
              ih ys (drop (ll + 2) q) e1,
              e2,
              prepend-cons (take ll q) ys (scan bound m b' (r' ++ s)),
            )
      ]

  -- A scan that stopped with `m` arguments missing and `r'` unused, run on with `s` behind `r'`,
  -- completes the scan of all the bytes.
  pub scan-append :
      (n m : ℕ) (b b' : Option ℕ) (r r' s : List ℕ) (xs : List (List ℕ))
      → scan bound n b r ≡ partial xs m b' r'
      → scan bound n b (r ++ s) ≡ prepend xs (scan bound m b' (r' ++ s))
  unfolding scan
  scan-append zero m b b' r r' s xs h = absurd (ground arith)
  scan-append (suc n) m b b' r r' s xs h =
      resume_round n m b b' r r' s xs (line bound b r)
        (λ ys q e. scan-append n m none b' q r' s ys e) refl h

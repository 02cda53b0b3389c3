-- ===== src/Path/Up.antt =====
-- What a path with leading `../` becomes.
use latte_redis_server.Prelude.{
  ℕ, zero, suc, ◌+◌, ◌-◌, ◌≤◌, ◌<◌, ◌≡◌, refl, sym, ap, ◌∙◌, List, [], ◌∷◌, ◌++◌, true, false, some,
  ◌==◌, length, get_elem?, take, drop, arith, append_assoc, length-append, lt→ltb,
}
use mathlib.Core.Path.{subst}
use latte_redis_server.Prelude.Slices.{take-append_self, drop-nil}
use latte_redis_server.Prelude.Int.{pos, negsuc}
use latte_redis_server.Path.{
  PathApi, path, is_slash, walk, with_slash, goes_up, trimmed_path, remove_last, up_again, up_loop,
  from_cwd, get_absolute_path,
}

-- An element of a path.
abbrev pub NoSlash : List ℕ → Type 0
NoSlash [] = Unit {0}
NoSlash (b ∷ s) = ((b == b'/') ≡ false) × NoSlash s

abbrev pub AllNoSlash : List (List ℕ) → Type 0
AllNoSlash [] = Unit {0}
AllNoSlash (c ∷ cs) = NoSlash c × AllNoSlash cs

abbrev slash : List ℕ
slash = b'/' ∷ []

-- The directory of the elements, the last one first: `/` in front, and behind each.
abbrev pub directory : List (List ℕ) → List ℕ
directory [] = slash
directory (c ∷ cs) = directory cs ++ (c ++ slash)

-- `../`, so many times
abbrev pub ups : ℕ → List ℕ
ups zero = []
ups (suc n) = b'.' ∷ b'.' ∷ b'/' ∷ ups n

zero-add : (b : ℕ) → 0 + b ≡ b
zero-add b = omega arith

add-zero : (b : ℕ) → b + 0 ≡ b
add-zero b = omega arith

suc-add : (a b : ℕ) → suc a + b ≡ suc (a + b)
suc-add a b = omega arith

add-suc : (a b : ℕ) → a + suc b ≡ suc (a + b)
add-suc a b = omega arith

get_elem?-append :
    {X : Type 0} (xs ys : List X) (k : ℕ) → get_elem? (xs ++ ys) (length xs + k) ≡ get_elem? ys k
get_elem?-append [] ys k = ap (get_elem? ys) (zero-add k)
get_elem?-append (x ∷ xs) ys k =
    ap (get_elem? (x ∷ (xs ++ ys))) (suc-add (length xs) k) ∙ get_elem?-append xs ys k

within : (c t : List ℕ) (j : ℕ) → NoSlash c → j < length c → is_slash (get_elem? (c ++ t) j) ≡ false
within [] t j h k = absurd (omega arith)
within (b ∷ c) t zero h k = h.0
within (b ∷ c) t (suc j) h k = within c t j h.1 (omega arith)

walk-slash : (s : List ℕ) (i n : ℕ) → is_slash (get_elem? s i) ≡ true → walk s i n ≡ some n
unfolding walk
walk-slash s zero n h = rw h refl
walk-slash s (suc i) n h = rw h refl

walk-other :
    (s : List ℕ) (i n : ℕ)
    → is_slash (get_elem? s (suc i)) ≡ false
    → walk s (suc i) n ≡ walk s i (suc n)
unfolding walk
walk-other s i n h = rw h refl

-- From inside the last element, the walk ends at the `/` in front of it.
walk-element :
    (front c t : List ℕ) (j n : ℕ)
    → NoSlash c
    → j ≤ length c
    → walk (front ++ (b'/' ∷ (c ++ t))) (length front + j) n ≡ some (n + j)
walk-element front c t zero n h k =
    walk-slash (front ++ (b'/' ∷ (c ++ t))) (length front + 0) n
      (ap is_slash (get_elem?-append front (b'/' ∷ (c ++ t)) 0))
    ∙ ap some (sym (add-zero n))
walk-element front c t (suc j) n h k =
    let s = front ++ (b'/' ∷ (c ++ t)) in
    ap (λ i. walk s i n) (add-suc (length front) j)
    ∙ walk-other s (length front + j) n (
        ap (λ i. is_slash (get_elem? s i)) (sym (add-suc (length front) j))
        ∙ ap is_slash (get_elem?-append front (b'/' ∷ (c ++ t)) (suc j))
        ∙ within c t j h (omega arith))
    ∙ walk-element front c t j (suc n) h (omega arith)
    ∙ ap some (suc-add n j ∙ sym (add-suc n j))

directory-slash : (cs : List (List ℕ)) → (front : List ℕ) × (directory cs ≡ front ++ slash)
directory-slash [] = ([], refl)
directory-slash (c ∷ cs) = (directory cs ++ c, sym (append_assoc (directory cs) c slash))

-- `sds_range` with the ends that the code uses.
pub record PathLaws (p : PathApi) : Type 0 where
  pub range-from : (s : List ℕ) (a : ℕ) → p.sds_range s (pos a) (negsuc 0) ≡ drop a s
  pub range-to : (s : List ℕ) (k : ℕ) → p.sds_range s (pos 0) (negsuc k) ≡ take (length s - k) s

module _ (p : PathApi) (laws : PathLaws p) where
  remove_last-long :
      (s : List ℕ) → 1 < length s → remove_last p s ≡ trimmed_path p s (walk s (length s - 2) 1)
  unfolding remove_last
  remove_last-long s h = rw (lt→ltb 1 (length s) h) refl

  remove_last-front :
      (front c : List ℕ)
      → NoSlash c
      → remove_last p ((front ++ slash) ++ (c ++ slash)) ≡ some (front ++ slash)
  unfolding trimmed_path
  remove_last-front front c h =
      let s = (front ++ slash) ++ (c ++ slash) in
      let len : length s ≡ length front + 1 + (length c + 1) =
        length-append (front ++ slash) (c ++ slash)
        ∙ cc (length-append front slash, length-append c slash) in
      let at : length s - 2 ≡ length front + length c = omega (arith, len) in
      let same : s ≡ front ++ (b'/' ∷ (c ++ slash)) = append_assoc front slash (c ++ slash) in
      let walked : walk s (length s - 2) 1 ≡ some (1 + length c) =
        ap (λ i. walk s i 1) at
        ∙ ap (λ t. walk t (length front + length c) 1) same
        ∙ walk-element front c slash (length c) 1 h (omega arith) in
      let kept : length s - (1 + length c) ≡ length (front ++ slash) =
        omega (arith, len, length-append front slash) in
      remove_last-long s (omega (arith, len))
      ∙ ap (trimmed_path p s) walked
      ∙ ap some (
          laws.range-to s (1 + length c)
          ∙ ap (λ n. take n s) kept
          ∙ take-append_self (front ++ slash) (c ++ slash))

  -- Going up from a directory leaves out its last element; from `/`, nothing.
  remove_last-directory :
      (cs : List (List ℕ))
      → AllNoSlash cs
      → remove_last p (directory cs) ≡ some (directory (drop 1 cs))
  unfolding remove_last
  remove_last-directory [] h = refl
  remove_last-directory (c ∷ cs) h =
      let (front, e) = directory-slash cs in
      subst (λ d. remove_last p (d ++ (c ++ slash)) ≡ some d) (sym e)
        (remove_last-front front c h.0)

  AllNoSlash-drop : (cs : List (List ℕ)) → AllNoSlash cs → AllNoSlash (drop 1 cs)
  AllNoSlash-drop [] h = h
  AllNoSlash-drop (c ∷ cs) h = h.1

  drop-drop_one : (n : ℕ) (cs : List (List ℕ)) → drop n (drop 1 cs) ≡ drop (suc n) cs
  drop-drop_one n [] = drop-nil n
  drop-drop_one n (c ∷ cs) = refl

  goes_up-ups : (n : ℕ) (rest : List ℕ) → goes_up (ups (suc n) ++ rest) ≡ true
  unfolding goes_up
  goes_up-ups n rest = ground arith

  up_loop-stop :
      (fuel : ℕ) (relpath abspath : List ℕ)
      → goes_up relpath ≡ false
      → up_loop p (suc fuel) relpath abspath ≡ path (abspath ++ relpath)
  unfolding up_loop
  up_loop-stop fuel relpath abspath h = rw h refl

  up_loop-again :
      (fuel : ℕ) (relpath abspath up : List ℕ)
      → goes_up relpath ≡ true
      → remove_last p abspath ≡ some up
      → up_loop p (suc fuel) relpath abspath ≡ up_loop p fuel (drop 3 relpath) up
  unfolding up_loop up_again
  up_loop-again fuel relpath abspath up h e = rw (h, e, laws.range-from relpath 3) refl

  up_loop-ups :
      (n fuel : ℕ) (cs : List (List ℕ)) (rest : List ℕ)
      → n ≤ fuel
      → AllNoSlash cs
      → goes_up rest ≡ false
      → up_loop p (suc fuel) (ups n ++ rest) (directory cs) ≡ path (directory (drop n cs) ++ rest)
  up_loop-ups zero fuel cs rest h k e = up_loop-stop fuel rest (directory cs) e
  up_loop-ups (suc n) zero cs rest h k e = absurd (omega arith)
  up_loop-ups (suc n) (suc fuel) cs rest h k e =
      up_loop-again (suc fuel) (ups (suc n) ++ rest) (directory cs) (directory (drop 1 cs))
        (goes_up-ups n rest) (remove_last-directory cs k)
      ∙ up_loop-ups n fuel (drop 1 cs) rest (omega arith) (AllNoSlash-drop cs k) e
      ∙ ap (λ d. path (directory d ++ rest)) (drop-drop_one n cs)

  length-ups : (n : ℕ) (rest : List ℕ) → n ≤ length (ups n ++ rest)
  length-ups zero rest = omega arith
  length-ups (suc n) rest = omega (arith, length-ups n rest)

  -- A path with `n` times `../` in front, from the directory of any elements: the loop ends, never
  -- reads in front of the string, and gives the directory without its last `n` elements, or `/` where
  -- there are fewer, with the rest of the path behind it. The rest does not begin with `../`, and
  -- what remains of the name after trimming does not begin with `/`; `getcwd` gives the directory
  -- with or without `/` at its end.
  pub get_absolute_path-ups :
      (filename cwd : List ℕ) (cs : List (List ℕ)) (n : ℕ) (rest : List ℕ)
      → p.sds_trim (p.sds_new filename) ≡ ups n ++ rest
      → is_slash (get_elem? (ups n ++ rest) 0) ≡ false
      → goes_up rest ≡ false
      → AllNoSlash cs
      → with_slash cwd ≡ directory cs
      → get_absolute_path p (some cwd) filename ≡ path (directory (drop n cs) ++ rest)
  unfolding get_absolute_path from_cwd
  get_absolute_path-ups filename cwd cs n rest e relative stops h at =
      rw (e, relative, at)
        (up_loop-ups n (length (ups n ++ rest)) cs rest (length-ups n rest) h stops)

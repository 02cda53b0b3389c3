-- ===== src/Slowlog/Trim.antt =====
-- The eviction loop of slowlog.c and what one push leaves in the log.
use latte_redis_server.Prelude.{
  ℕ, zero, suc, ◌-◌, ◌≤◌, ◌<◌, ◌≡◌, refl, ap, ◌∙◌, List, [], ◌∷◌, ◌++◌, inl, inr, arith, length,
  take, ltb, Bool-cases,
}
use latte_redis_server.Prelude.Int.{pos}
use latte_redis_server.ListApi.{ListApi, ListLaws, but_last}
use latte_redis_server.Slowlog.{SlowlogEntry, trim, trim_to}

module _ {ℓ} {A : Type ℓ} where
  length-but_last : (xs : List A) → length (but_last xs) ≡ length xs - 1
  length-but_last [] = omega arith
  length-but_last (x ∷ []) = omega arith
  length-but_last (x ∷ y ∷ xs) = omega (arith, length-but_last (y ∷ xs))

  take-but_last : (m : ℕ) (xs : List A) → m < length xs → take m (but_last xs) ≡ take m xs
  take-but_last zero xs h = refl
  take-but_last (suc m) [] h = refl
  take-but_last (suc m) (x ∷ []) h = absurd (omega arith)
  take-but_last (suc m) (x ∷ y ∷ xs) h = ap (λ t. x ∷ t) (take-but_last m (y ∷ xs) (omega arith))

  pub take_all : (m : ℕ) (xs : List A) → length xs ≤ m → take m xs ≡ xs
  take_all zero [] h = refl
  take_all zero (x ∷ xs) h = absurd (omega arith)
  take_all (suc m) [] h = refl
  take_all (suc m) (x ∷ xs) h = ap (λ t. x ∷ t) (take_all m xs (omega arith))

  pub take-append_full : (m : ℕ) (xs ys : List A) → length xs ≡ m → take m (xs ++ ys) ≡ xs
  take-append_full zero [] ys h = refl
  take-append_full zero (x ∷ xs) ys h = absurd (omega arith)
  take-append_full (suc m) [] ys h = absurd (omega arith)
  take-append_full (suc m) (x ∷ xs) ys h = ap (λ t. x ∷ t) (take-append_full m xs ys (omega arith))

module _ {L : Type 0} (lists : ListApi L SlowlogEntry) (items : L → List SlowlogEntry)
    (laws : ListLaws lists items) where
  -- With the list's length as fuel the loop ends by its test and has kept the first `m` items.
  items-trim_fuel :
      (f m : ℕ) (l : L) → length (items l) ≤ f → items (trim lists f m l) ≡ take m (items l)
  unfolding trim
  items-trim_fuel zero m l h = ground (arith, take_all m (items l))
  items-trim_fuel (suc f) m l h = elim (Bool-cases (ltb m (lists.size l))) [
    | inl more ↦ rw more (
        items-trim_fuel f m (lists.del_last l)
          (omega (arith, ap length (laws.items-del_last l), length-but_last (items l)))
        ∙ ap (take m) (laws.items-del_last l)
        ∙ take-but_last m (items l) (ground (arith, laws.size-eq l)))
    | inr done ↦ rw done (sym_take (ground (arith, laws.size-eq l)))
  ]
    where
      sym_take : length (items l) ≤ m → items l ≡ take m (items l)
      sym_take le = cc (take_all m (items l) le)

  pub items-trim_to : (m : ℕ) (l : L) → items (trim_to lists (pos m) l) ≡ take m (items l)
  unfolding trim_to
  items-trim_to m l = items-trim_fuel (lists.size l) m l (omega (arith, laws.size-eq l))

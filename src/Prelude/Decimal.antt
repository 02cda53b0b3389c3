-- ===== src/Prelude/Decimal.antt =====
-- Decimal numerals as bytes: a concrete printer and reader, with which the theorems that take the
-- number functions of the utilities as parameters are instantiated.
use Prim.Native.Nat.{ℕ, zero, suc, ◌+◌, ◌-◌, ◌*◌, ◌/◌, ◌%◌, ◌≤◌, ◌<◌}
use mathlib.Core.Path.{◌≡◌, refl, ◌∙◌}
use mathlib.Core.Logic.{◌≢◌, inl, inr}
use mathlib.Core.Bool.{◌&&◌}
use mathlib.Core.Option.{Option, none, some}
use mathlib.Core.List.{List, [], ◌∷◌, ◌++◌}
use native.Mathlib.Omega.{arith}
use latte_redis_server.Prelude.Tests.{ltb, leb, if◌then◌else◌, Bool-cases}

-- on fuel: `n` itself is enough
digits_from : ℕ → ℕ → List ℕ
digits_from zero n = (48 + n % 10) ∷ []
digits_from (suc f) n =
    let longer = digits_from f (n / 10) ++ ((48 + n % 10) ∷ []) in
    if ltb n 10 then (48 + n) ∷ [] else longer

unfoldable pub decimal : ℕ → List ℕ
unfolding digits_from
decimal n = digits_from n n

value_from : ℕ → List ℕ → Option ℕ
value_from acc [] = some acc
value_from acc (b ∷ s) =
    let rest = value_from (acc * 10 + (b - 48)) s in if leb 48 b && leb b 57 then rest else none

unfoldable pub decimal_value : List ℕ → Option ℕ
unfolding value_from
decimal_value [] = none
decimal_value (b ∷ s) = value_from 0 (b ∷ s)

value_from-append :
    (s : List ℕ) (acc v d : ℕ)
    → d < 10
    → value_from acc s ≡ some v
    → value_from acc (s ++ ((48 + d) ∷ [])) ≡ some (v * 10 + d)
unfolding value_from
value_from-append [] acc v d h e = ground arith
value_from-append (b ∷ s) acc v d h e = elim (Bool-cases (leb 48 b && leb b 57)) [
  | inl digit ↦ rw digit (value_from-append s (acc * 10 + (b - 48)) v d h (rw digit at e))
  | inr other ↦ absurd (ground (arith, other))
]

value_from-digits_from : (f n : ℕ) → n ≤ f → value_from 0 (digits_from f n) ≡ some n
unfolding digits_from value_from
value_from-digits_from zero n h = ground arith
value_from-digits_from (suc f) n h = elim (Bool-cases (ltb n 10)) [
  | inl one ↦ rw one (ground arith)
  | inr more ↦ rw more (
      ground (
        arith,
        value_from-append (digits_from f (n / 10)) 0 (n / 10) (n % 10),
        value_from-digits_from f (n / 10),
      ))
]

append-ne-nil : (s : List ℕ) (b : ℕ) → s ++ (b ∷ []) ≢ []
append-ne-nil [] b h = cc
append-ne-nil (a ∷ s) b h = cc

digits_from-ne-nil : (f n : ℕ) → digits_from f n ≢ []
unfolding digits_from
digits_from-ne-nil zero n h = cc
digits_from-ne-nil (suc f) n h = elim (Bool-cases (ltb n 10)) [
  | inl one ↦ absurd (ground (arith, one))
  | inr more ↦ append-ne-nil (digits_from f (n / 10)) (48 + n % 10) (rw more at h)
]

value_of-ne-nil : (s : List ℕ) → s ≢ [] → decimal_value s ≡ value_from 0 s
unfolding decimal_value
value_of-ne-nil [] h = absurd (h refl)
value_of-ne-nil (b ∷ s) h = refl

-- A printed number reads back.
pub decimal_value-decimal : (n : ℕ) → decimal_value (decimal n) ≡ some n
unfolding decimal
decimal_value-decimal n =
    value_of-ne-nil (digits_from n n) (digits_from-ne-nil n n)
    ∙ value_from-digits_from n n (omega arith)

abbrev pub Digits : List ℕ → Type 0
Digits [] = Unit {0}
Digits (b ∷ s) = (48 ≤ b) × Digits s

Digits-append : (s : List ℕ) (b : ℕ) → Digits s → 48 ≤ b → Digits (s ++ (b ∷ []))
Digits-append [] b h k = (k, tt)
Digits-append (a ∷ s) b h k = (h.0, Digits-append s b h.1 k)

digits_from-Digits : (f n : ℕ) → Digits (digits_from f n)
unfolding digits_from
digits_from-Digits zero n = (omega arith, tt)
digits_from-Digits (suc f) n = elim (Bool-cases (ltb n 10)) [
  | inl one ↦ rw one (omega arith, tt)
  | inr more ↦ rw more (
      Digits-append (digits_from f (n / 10)) (48 + n % 10) (digits_from-Digits f (n / 10))
        (omega arith))
]

-- Only digits are printed.
pub decimal-Digits : (n : ℕ) → Digits (decimal n)
unfolding decimal
decimal-Digits n = digits_from-Digits n n

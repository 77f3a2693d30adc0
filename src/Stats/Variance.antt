-- ===== src/Stats/Variance.antt =====
-- The square of a sum and the sum of the squares.
use rtos_apps.Base.{
  ℕ, ◌+◌, ◌-◌, ◌*◌, ◌≤◌, ◌≡◌, refl, arith, List, [], ◌∷◌, length, suc, zero, dec_lt,
}
use rtos_apps.Base.Int.{ℤ, ◌+ℤ◌}
use rtos_apps.Stats.{abs_ℕ}
use rtos_apps.Stats.Moments.{sum, sum_sq}

sum_abs : List ℤ → ℕ
sum_abs [] = 0
sum_abs (x ∷ xs) = abs_ℕ x + sum_abs xs

abs-add : (a b : ℤ) → abs_ℕ (a +ℤ b) ≤ abs_ℕ a + abs_ℕ b
unfolding ◌+ℤ◌
abs-add a b = ground arith

abs_sum-le : (xs : List ℤ) → abs_ℕ (sum xs) ≤ sum_abs xs
unfolding sum_abs
abs_sum-le [] = omega arith
abs_sum-le (x ∷ xs) = omega (arith, abs-add x (sum xs), abs_sum-le xs)

square-le : (a b : ℕ) → a ≤ b → a * a ≤ b * b
square-le a b h = grind arith

ordered : (a d : ℕ) → 2 * (a * (a + d)) ≤ a * a + (a + d) * (a + d)
ordered a d = omega arith

two_products-le : (a b : ℕ) → 2 * (a * b) ≤ a * a + b * b
two_products-le a b = elim (dec_lt a b) [
  | yes h ↦ let e : b ≡ a + (b - a) = omega arith in rw e (ordered a (b - a))
  | no h ↦ let e : a ≡ b + (a - b) = omega arith in rw e (omega (arith, ordered b (a - b)))
]

square-zero : (s : ℕ) → s * s ≤ 0 → s ≡ 0
square-zero zero h = refl
square-zero (suc s) h = absurd (omega arith)

le_of_suc_mul : (n a b : ℕ) → suc n * a ≤ suc n * b → a ≤ b
le_of_suc_mul n a b h = elim (dec_lt b a) [
  | yes lt ↦ absurd (strict (a - b - 1) (omega arith))
  | no ge ↦ omega arith
]
  where
    strict : (d : ℕ) → a ≡ suc (b + d) → ⊥
    strict d e = let h' : suc n * suc (b + d) ≤ suc n * b = rw (← e) h in omega arith

cross-le : (x s n q : ℕ) → s * s ≤ n * q → 2 * (s * x) ≤ n * (x * x) + q
cross-le x s zero q h = let e : s ≡ 0 = square-zero s (omega arith) in rw e (omega arith)
cross-le x s (suc n) q h = le_of_suc_mul n _ _ (omega (arith, two_products-le (suc n * x) s))

sum_abs_square-le : (xs : List ℤ) → sum_abs xs * sum_abs xs ≤ length xs * sum_sq xs
unfolding sum_abs
sum_abs_square-le [] = omega arith
sum_abs_square-le (x ∷ xs) = omega (
  arith,
  sum_abs_square-le xs,
  cross-le (abs_ℕ x) (sum_abs xs) (length xs) (sum_sq xs) (sum_abs_square-le xs),
)

-- The square of the sum is at most the number of samples times the sum of their squares.
pub sum_square-le : (xs : List ℤ) → abs_ℕ (sum xs) * abs_ℕ (sum xs) ≤ length xs * sum_sq xs
sum_square-le xs = omega (arith, square-le _ _ (abs_sum-le xs), sum_abs_square-le xs)

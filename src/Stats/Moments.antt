-- ===== src/Stats/Moments.antt =====
-- The sums of a set: count, sum and sum of squares.
use rtos_apps.Base.{
  ℕ, ◌+◌, ◌-◌, ◌*◌, ◌⊎◌, inl, inr, ◌/◌, ◌%◌, ◌^◌, ◌≤◌, ◌<◌, ◌≡◌, ◌∙◌, refl, sym, arith, List, [],
  ◌∷◌, length, All,
}
use rtos_apps.Base.Int.{ℤ, pos, negsuc, pos_part, neg_part, ◌+ℤ◌, +ℤ_parts, +ℤ_assoc, int_laws}
use native.Mathlib.Nat.{one-le-pow}
use rtos_apps.Stats.{Stats, abs_ℕ, shr_ℤ, to_int32, stats_add, stats_add_all}

-- The range of `int32_t`.
abbrev pub IsInt32 : ℤ → Type 0
IsInt32 x = (pos_part x < 2 ^ 31) × (neg_part x ≤ 2 ^ 31)

abbrev pub sum : List ℤ → ℤ
sum [] = pos 0
sum (x ∷ xs) = x +ℤ sum xs

abbrev pub sum_sq : List ℤ → ℕ
sum_sq [] = 0
sum_sq (x ∷ xs) = abs_ℕ x * abs_ℕ x + sum_sq xs

pub +ℤ-zero : (a : ℤ) → a +ℤ pos 0 ≡ a
+ℤ-zero a = omega int_laws

mod-add-left : (a b c : ℕ) → ((a + b) % 2 ^ 64 + c) % 2 ^ 64 ≡ (a + (b + c)) % 2 ^ 64
mod-add-left a b c = omega arith

-- Taking in samples adds their number, their sum and the sum of their squares.
pub stats_add_all-moments :
    (s : Stats) (xs : List ℤ)
    → let t = stats_add_all s xs in
      (t.current_count % 2 ^ 32 ≡ (s.current_count + length xs) % 2 ^ 32)
      × (t.current_mean ≡ s.current_mean +ℤ sum xs)
      × (t.current_ms % 2 ^ 64 ≡ (s.current_ms + sum_sq xs) % 2 ^ 64)
unfolding stats_add_all stats_add
stats_add_all-moments s [] = (omega arith, sym (+ℤ-zero s.current_mean), omega arith)
stats_add_all-moments s (x ∷ xs) =
    let rest = stats_add_all-moments (stats_add s x) xs in
    (
      omega (arith, rest.0),
      rest.1 ∙ +ℤ_assoc s.current_mean x (sum xs),
      rest.2 ∙ mod-add-left s.current_ms (abs_ℕ x * abs_ℕ x) (sum_sq xs),
    )

one_sided : (a : ℤ) → (pos_part a ≡ 0) ⊎ (neg_part a ≡ 0)
one_sided (pos n) = inr refl
one_sided (negsuc n) = inl refl

-- The sum of samples lies in the range of their number times that of a sample.
pub sum_range :
    (xs : List ℤ)
    → All IsInt32 xs
    → (pos_part (sum xs) ≤ length xs * (2 ^ 31 - 1)) × (neg_part (sum xs) ≤ length xs * 2 ^ 31)
sum_range [] h = omega arith
sum_range (x ∷ xs) h = omega (arith, sum_range xs h.1, +ℤ_parts x (sum xs), one_sided (x +ℤ sum xs))

div-lt : (n d b : ℕ) → n < d * b → n / d < b
div-lt n d b h = grind arith

pub mean_range :
    (n : ℤ) (k : ℕ)
    → pos_part n ≤ 2 ^ k * (2 ^ 31 - 1)
    → neg_part n ≤ 2 ^ k * 2 ^ 31
    → to_int32 (shr_ℤ n k) ≡ shr_ℤ n k
unfolding to_int32
mean_range (pos n) k p q =
    let r = div-lt n (2 ^ k) (2 ^ 31) (omega (arith, one-le-pow k 2)) in ground (arith, r)
mean_range (negsuc n) k p q =
    let r = div-lt n (2 ^ k) (2 ^ 31) (omega (arith, one-le-pow k 2)) in ground (arith, r)

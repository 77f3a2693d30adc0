-- ===== src/Base/Bits.antt =====
-- `x & (2 ^ k - 1)` and the remainder of `x` by `2 ^ k`: the masks of the circular buffers of
-- audio/audio_buffer.h.
use Prim.Native.Nat.{
  ℕ, zero, suc, ◌+◌, ◌-◌, ◌*◌, ◌/◌, ◌%◌, ◌^◌, ◌≤◌, ◌<◌, min, digits, bit_and, bit_and-bitwise,
}
use mathlib.Core.Path.{◌≡◌, ap, ◌∙◌}
use native.Mathlib.Nat.{pow-suc, one-le-pow, add-mul-mod_self_left, mod-mod_of_dvd, dvd-mul_right}
use native.Mathlib.Omega.{arith}

-- One more binary digit of a remainder.
mod-double : (x m : ℕ) → 0 < m → (x / 2) % m * 2 + x % 2 ≡ x % (m * 2)
mod-double x m h = grind arith

digits_mask : (n k a : ℕ) → a ≤ n → digits (λ b. 0) min n a (2 ^ k - 1) ≡ a % 2 ^ k
digits_mask zero k zero h = omega (arith, one-le-pow k 2)
digits_mask zero k (suc a) h = absurd (omega arith)
digits_mask (suc n) k zero h = omega (arith, one-le-pow k 2)
digits_mask (suc n) zero (suc a) h = omega (arith, digits_mask n zero (suc a / 2) (omega arith))
digits_mask (suc n) (suc k) (suc a) h =
    rw (← mod_double_pow, half_mask, odd_mask)
      (omega (arith, digits_mask n k (suc a / 2) (omega arith)))
  where
    half_mask : (2 ^ suc k - 1) / 2 ≡ 2 ^ k - 1
    half_mask = omega (arith, pow-suc 2 k, one-le-pow k 2)

    odd_mask : (2 ^ suc k - 1) % 2 ≡ 1
    odd_mask = omega (arith, pow-suc 2 k, one-le-pow k 2)

    mod_double_pow : (suc a / 2) % 2 ^ k * 2 + suc a % 2 ≡ suc a % 2 ^ suc k
    mod_double_pow = rw pow-suc (mod-double (suc a) (2 ^ k) (omega (arith, one-le-pow k 2)))

pub bit_and_mask : (k a : ℕ) → bit_and a (2 ^ k - 1) ≡ a % 2 ^ k
bit_and_mask k a = bit_and-bitwise a (2 ^ k - 1) ∙ digits_mask a k a (omega arith)

-- `2 ^ n` is a multiple of each smaller power.
pub pow-split : (d k n : ℕ) → k + d ≡ n → 2 ^ n ≡ 2 ^ k * 2 ^ d
pow-split zero k n h = let e : n ≡ k = omega arith in rw e (omega arith)
pow-split (suc d) k zero h = absurd (omega arith)
pow-split (suc d) k (suc n) h = omega (
  arith,
  pow-suc 2 n,
  pow-suc 2 d,
  ap (λ (t : ℕ). t * 2) (pow-split d k n (omega arith)),
  ap (λ (t : ℕ). 2 ^ k * t) (pow-suc 2 d),
)

mul-pred : (p c : ℕ) → 1 ≤ c → p * (c - 1) + p ≡ p * c
mul-pred p zero h = absurd (omega arith)
mul-pred p (suc c) h =
    let e : suc c - 1 ≡ c = omega arith in ap (λ (t : ℕ). p * t + p) e ∙ omega arith

module _ (k n : ℕ) (h : k ≤ n) where
  split : 2 ^ n ≡ 2 ^ k * 2 ^ (n - k)
  split = pow-split (n - k) k n (omega arith)

  -- A wrap at a larger power is not seen by the remainder.
  pub mod_pow-mod_pow : (x : ℕ) → x % 2 ^ n % 2 ^ k ≡ x % 2 ^ k
  mod_pow-mod_pow x =
      rw split
        (mod-mod_of_dvd (2 ^ k) {b = 2 ^ k * 2 ^ (n - k)} x (dvd-mul_right (2 ^ k) (2 ^ (n - k))))

  -- A difference that wraps at a larger power wraps at the smaller one.
  pub sub-mod_pow : (x y : ℕ) → y ≤ 2 ^ k → (x + 2 ^ n - y) % 2 ^ k ≡ (x + 2 ^ k - y) % 2 ^ k
  sub-mod_pow x y le =
      ap (λ (t : ℕ). t % 2 ^ k) grow
      ∙ add-mul-mod_self_left (x + 2 ^ k - y) (2 ^ k) (2 ^ (n - k) - 1)
    where
      grow : x + 2 ^ n - y ≡ x + 2 ^ k - y + 2 ^ k * (2 ^ (n - k) - 1)
      grow =
          omega (arith, split, mul-pred (2 ^ k) (2 ^ (n - k)) (one-le-pow (n - k) 2 (omega arith)))

-- ===== src/Base/Word.antt =====
-- `unsigned int` arithmetic of 32 bits, and memory as a function from addresses.
use Prim.Native.Nat.{ℕ, ◌+◌, ◌-◌, ◌*◌, ◌%◌, ◌^◌}
use mathlib.Core.Path.{◌≡◌}
use mathlib.Core.Logic.{◌≢◌}
use native.Mathlib.Omega.{arith}
use rtos_apps.Base.Tests.{◌==◌, if◌then◌else◌}

-- Sum, difference and product of two `unsigned int`.
abbrev pub add32 : ℕ → ℕ → ℕ
add32 a b = (a + b) % 2 ^ 32

abbrev pub sub32 : ℕ → ℕ → ℕ
sub32 a b = (a + 2 ^ 32 - b % 2 ^ 32) % 2 ^ 32

abbrev pub mul32 : ℕ → ℕ → ℕ
mul32 a b = a * b % 2 ^ 32

-- A memory gives the value at each address.
abbrev pub Memory {ℓ} : Type ℓ → Type ℓ
Memory A = ℕ → A

module _ {ℓ} {A : Type ℓ} where
  unfoldable pub store : Memory A → ℕ → A → Memory A
  store m a v = λ x. if x == a then v else m x

  pub store_self : (m : Memory A) (a : ℕ) (v : A) → store m a v a ≡ v
  unfolding store
  store_self m a v = ground arith

  pub store_ne : (m : Memory A) {a x : ℕ} (v : A) → x ≢ a → store m a v x ≡ m x
  unfolding store
  store_ne m v h = ground arith

  pub store_eq : (m : Memory A) {a x : ℕ} (v : A) → x ≡ a → store m a v x ≡ v
  unfolding store
  store_eq m v h = ground arith

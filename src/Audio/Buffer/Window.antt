-- ===== src/Audio/Buffer/Window.antt =====
-- The stretch of a circular storage that starts at an index and goes round at the size.
use rtos_apps.Base.{
  ℕ, zero, suc, ◌+◌, ◌-◌, ◌%◌, ◌≤◌, ◌<◌, ◌≡◌, ◌≢◌, ◌∙◌, sym, refl, ap, ap₂, arith, List, [], ◌∷◌,
  ◌++◌, length, take, drop, if◌then◌else◌, leb, ◌==◌, Memory, store, store_self, store_ne,
}
use native.Mathlib.Decide.{dec_lt}
use native.Mathlib.Nat.{mod-eq_of_lt, mod-eq-sub-mod, mod-add-mod, mod-lt, mod_self, add-zero}

-- Fewer than `size` steps round the storage do not come back.
pub round-ne : {size h k : ℕ} → h < size → 0 < k → k < size → (h + k) % size ≢ h
round-ne {size} {h} {k} hh kp ks = elim (dec_lt (h + k) size) [
  | yes p ↦ omega (arith, mod-eq_of_lt p)
  | no p ↦ omega (
    arith,
    mod-eq-sub-mod {n = h + k} {m = size} (omega arith),
    mod-eq_of_lt {n = h + k - size} {m = size} (omega arith),
  )
]

pub round_step : (h n size : ℕ) → ((h + 1) % size + n) % size ≡ (h + suc n) % size
round_step h n size = rw mod-add-mod (ap (λ k. k % size) (omega arith))

-- One step round the storage.
pub next_lem : {i size : ℕ} → i < size → (i + 1) % size ≡ (if i + 1 == size then 0 else i + 1)
next_lem {i} {size} h = ground (arith, mod-eq_of_lt {n = i + 1} {m = size}, mod_self size)

module _ {ℓ} {A : Type ℓ} (base size : ℕ) where
  -- `n` samples from the index `h` on.
  abbrev pub window : Memory A → ℕ → ℕ → List A
  window m h zero = []
  window m h (suc n) = m (base + h) ∷ window m ((h + 1) % size) n

  pub length-window : (m : Memory A) (h n : ℕ) → length (window m h n) ≡ n
  length-window m h zero = refl
  length-window m h (suc n) = ap suc (length-window m ((h + 1) % size) n)

  -- A memory that agrees on the storage has the same window.
  pub window_agree :
      (m m' : Memory A) (h n : ℕ)
      → h < size
      → ((i : ℕ) → i < size → m' (base + i) ≡ m (base + i))
      → window m' h n ≡ window m h n
  window_agree m m' h zero hh e = refl
  window_agree m m' h (suc n) hh e =
      ap₂ ◌∷◌ (e h hh) (window_agree m m' ((h + 1) % size) n (mod-lt (h + 1) (omega arith)) e)

  -- A write to an index outside the window leaves it.
  pub window-store_ne :
      (m : Memory A) (i : ℕ) (x : A) (h n : ℕ)
      → h < size
      → ((k : ℕ) → k < n → (h + k) % size ≢ i)
      → window (store m (base + i) x) h n ≡ window m h n
  window-store_ne m i x h zero hh ne = refl
  window-store_ne m i x h (suc n) hh ne =
      ap₂ ◌∷◌
        (store_ne m x λ (e : base + h ≡ base + i).
          ne 0 (omega arith) (rw (add-zero, mod-eq_of_lt hh) (omega arith)))
        (window-store_ne m i x ((h + 1) % size) n (mod-lt (h + 1) (omega arith))
          λ k lt. rw round_step (ne (suc k) (omega arith)))

  -- Writing just behind the window extends it by that sample.
  pub window-store_end :
      (m : Memory A) (i : ℕ) (x : A) (h n : ℕ)
      → h < size
      → n < size
      → i ≡ (h + n) % size
      → window (store m (base + i) x) h (suc n) ≡ window m h n ++ x ∷ []
  window-store_end m i x h zero hh hn e = rw (e, add-zero, mod-eq_of_lt hh, store_self)
  window-store_end m i x h (suc n) hh hn e =
      ap₂ ◌∷◌ (store_ne m x λ p. round-ne hh (omega arith) hn (omega (arith, e, p))) (
        window-store_end m i x ((h + 1) % size) n (mod-lt (h + 1) (omega arith)) (omega arith)
          (e ∙ sym (round_step h n size)))

  -- The window splits after any of its samples.
  pub window_split :
      (m : Memory A) (h k n : ℕ)
      → 0 < size
      → h < size
      → k ≤ n
      → (take k (window m h n) ≡ window m h k)
        × (drop k (window m h n) ≡ window m ((h + k) % size) (n - k))
  window_split m h zero n s hh le =
      (refl, rw (add-zero, mod-eq_of_lt hh) (ap (window m h) (omega arith)))
  window_split m h (suc k) zero s hh le = absurd (omega arith)
  window_split m h (suc k) (suc n) s hh le =
      let (front, back) = window_split m ((h + 1) % size) k n s (mod-lt (h + 1) s) (omega arith) in
      (ap (◌∷◌ (m (base + h))) front, rw (back, round_step) (ap (window m _) (omega arith)))

-- `n` steps back round the storage.
pub prev_lem :
    {i n size : ℕ}
    → i < size
    → n ≤ size
    → (i + size - n) % size ≡ (if leb n i then i - n else i + size - n)
prev_lem {i} {n} {size} h le = ground (
  arith,
  mod-eq_of_lt {n = i + size - n} {m = size},
  mod-eq-sub-mod {n = i + size - n} {m = size},
  mod-eq_of_lt {n = i + size - n - size} {m = size},
)

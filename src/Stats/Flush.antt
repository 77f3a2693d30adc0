-- ===== src/Stats/Flush.antt =====
-- stats/stats.c: a set of `2 ^ log2_size` samples, and what is reported of it.
use rtos_apps.Base.{
  ℕ, ◌+◌, ◌-◌, ◌*◌, ◌/◌, ◌%◌, ◌^◌, ◌≤◌, ◌<◌, ◌≡◌, ◌∙◌, refl, subst, arith, List, [], ◌∷◌, length,
  All, ◌==◌, ==_ne, ==_refl, true, pow-split,
}
use native.Mathlib.Nat.{
  one-le-pow, pow-le-pow_right, mod-eq_of_lt, div-div-eq-div-mul, div-le_of_le-mul, div-le_self,
}
use rtos_apps.Base.Int.{ℤ, pos, int_laws}
use rtos_apps.Stats.{
  Stats, abs_ℕ, shr_ℤ, highest, lowest, stats_reset, stats_add, stats_add_all, stats_update,
  stats_snapshot, stats_run,
}
use rtos_apps.Stats.Moments.{IsInt32, sum, sum_sq, stats_add_all-moments, sum_range, mean_range}
use rtos_apps.Stats.Extremes.{IsLeast, IsGreatest, stats_add_all-extremes}
use rtos_apps.Stats.Variance.{sum_square-le}

-- No sample of the current set has been taken in yet.
pub record IsEmpty (s : Stats) : Type 0 where
  pub no_count : s.current_count ≡ 0
  pub no_sum : s.current_mean ≡ pos 0
  pub no_squares : s.current_ms ≡ 0
  pub no_min : s.current_min ≡ highest
  pub no_max : s.current_max ≡ lowest

log2_size-add_all : (s : Stats) (xs : List ℤ) → (stats_add_all s xs).log2_size ≡ s.log2_size
unfolding stats_add_all stats_add
log2_size-add_all s [] = refl
log2_size-add_all s (x ∷ xs) = log2_size-add_all (stats_add s x) xs

module _ (k : ℕ) (k_le : k ≤ 31) where
  pow_small : 2 ^ k < 2 ^ 32
  pow_small = omega (arith, pow-le-pow_right {n = 2} (omega arith) k_le)

  -- Below the size of a set an update only takes the sample in.
  update_below :
      (s : Stats) (x : ℤ)
      → s.log2_size ≡ k
      → s.current_count + 1 < 2 ^ k
      → (stats_update s x).0 ≡ stats_add s x
  unfolding stats_update stats_add
  update_below s x e h =
      rw (e, ==_ne ((s.current_count + 1) % 2 ^ 32) (2 ^ k % 2 ^ 32) (omega (arith, pow_small)))

  update_full :
      (s : Stats) (x : ℤ)
      → s.log2_size ≡ k
      → s.current_count + 1 ≡ 2 ^ k
      → (stats_update s x).0 ≡ stats_reset (stats_snapshot (stats_add s x))
  unfolding stats_update stats_add
  update_full s x e h = rw test refl
    where
      test : ((s.current_count + 1) % 2 ^ 32 == 2 ^ s.log2_size % 2 ^ 32) ≡ true
      test = rw (h, e) (==_refl (2 ^ k % 2 ^ 32))

  -- Updates that fill the set up from `current_count` samples to its size.
  run_full :
      (s : Stats) (xs : List ℤ)
      → s.log2_size ≡ k
      → s.current_count < 2 ^ k
      → s.current_count + length xs ≡ 2 ^ k
      → stats_run s xs ≡ stats_reset (stats_snapshot (stats_add_all s xs))
  unfolding stats_run stats_add_all
  run_full s [] e lt h = absurd (omega arith)
  run_full s (x ∷ []) e lt h = update_full s x e (omega arith)
  run_full s (x ∷ y ∷ xs) e lt h =
      rw (update_below s x e (omega arith))
        (run_full (stats_add s x) (y ∷ xs) e (omega (arith, pow_small)) (omega (arith, pow_small)))

div_mono : (a b d : ℕ) → a ≤ b → a / d ≤ b / d
div_mono a b d h = grind arith

div-div-le : (x y d : ℕ) → 0 < d → x ≤ d * y → x / (d * d) ≤ y / d
div-div-le x y d h le =
    rw (← div-div-eq-div-mul x d d) (div_mono (x / d) y d (div-le_of_le-mul d le))

-- What a full set leaves: its statistics, and empty accumulators.
pub record Reported (xs : List ℤ) (k : ℕ) (r : Stats) : Type 0 where
  pub mean_of : r.mean ≡ shr_ℤ (sum xs) k
  pub squares_of : r.ms ≡ sum_sq xs % 2 ^ 64 / 2 ^ k
  pub least : IsLeast highest xs r.min
  pub greatest : IsGreatest lowest xs r.max
  pub emptied : IsEmpty r

no_borrow : (q d : ℕ) → d ≤ q → q < 2 ^ 64 → (q + 2 ^ 64 - d % 2 ^ 64) % 2 ^ 64 + d ≡ q
no_borrow q d h lt = omega arith

current_ms-lt :
    (s : Stats) (xs : List ℤ) → s.current_ms < 2 ^ 64 → (stats_add_all s xs).current_ms < 2 ^ 64
unfolding stats_add_all stats_add
current_ms-lt s [] h = h
current_ms-lt s (x ∷ xs) h = current_ms-lt (stats_add s x) xs (omega arith)

module _ (s : Stats) (xs : List ℤ) (small : s.log2_size ≤ 31) (empty : IsEmpty s)
    (size : length xs ≡ 2 ^ s.log2_size) where
  full : stats_run s xs ≡ stats_reset (stats_snapshot (stats_add_all s xs))
  full =
      run_full s.log2_size small s xs refl (omega (arith, empty.no_count, one-le-pow s.log2_size 2))
        (omega (arith, empty.no_count))

  total : (stats_add_all s xs).current_mean ≡ sum xs
  total = (stats_add_all-moments s xs).1 ∙ rw empty.no_sum (omega int_laws)

  squares : (stats_add_all s xs).current_ms ≡ sum_sq xs % 2 ^ 64
  squares = omega (
    arith,
    (stats_add_all-moments s xs).2,
    current_ms-lt s xs (omega (arith, empty.no_squares)),
    empty.no_squares,
  )

  -- A set of `2 ^ log2_size` samples, taken in from empty accumulators, reports the mean rounded down, the
  -- mean of the squares (their sum being kept to 64 bits), the least of the samples and 0x7fffffff, the greatest of
  -- the samples and -0x7fffffff (which is no sample where all are -0x80000000), and empties the accumulators.
  pub stats_run-full : All IsInt32 xs → Reported xs s.log2_size (stats_run s xs)
  unfolding stats_reset stats_snapshot
  stats_run-full range = rw full (record {
    mean_of =
        rw (total, log2_size-add_all s xs)
          (mean_range (sum xs) s.log2_size (omega (arith, sum_range xs range))
            (omega (arith, sum_range xs range)));
    squares_of = rw (squares, log2_size-add_all s xs) refl;
    least = subst (λ m. IsLeast m xs (stats_add_all s xs).current_min) empty.no_min extremes.0;
    greatest =
        subst (λ m. IsGreatest m xs (stats_add_all s xs).current_max) empty.no_max extremes.1;
    emptied = record {
      no_count = refl;
      no_sum = refl;
      no_squares = refl;
      no_min = refl;
      no_max = refl;
    };
  })
    where
      extremes :
          let t = stats_add_all s xs in
          IsLeast s.current_min xs t.current_min × IsGreatest s.current_max xs t.current_max
      extremes = stats_add_all-extremes s xs

  -- With a sum of squares below 2 ^ 64 the reported variance is the mean of the squares less the
  -- square of the sum over the square of the size, and this difference does not go below 0.
  pub variance_lem :
      sum_sq xs < 2 ^ 64
      → let r = stats_run s xs in
        r.variance + abs_ℕ (sum xs) * abs_ℕ (sum xs) / 2 ^ (2 * s.log2_size) ≡ r.ms
  unfolding stats_reset stats_snapshot
  variance_lem h =
      rw (full, total, squares, log2_size-add_all s xs)
        (no_borrow _ _ below (omega (arith, div-le_self (sum_sq xs % 2 ^ 64) (2 ^ s.log2_size))))
    where
      below :
          abs_ℕ (sum xs) * abs_ℕ (sum xs) / 2 ^ (2 * s.log2_size)
          ≤ sum_sq xs % 2 ^ 64 / 2 ^ s.log2_size
      below =
          rw (pow-split s.log2_size s.log2_size (2 * s.log2_size) (omega arith), mod-eq_of_lt h)
            (div-div-le _ (sum_sq xs) (2 ^ s.log2_size) (one-le-pow s.log2_size 2 (omega arith))
              (rw (← size) (sum_square-le xs)))

-- ===== src/Stats/Extremes.antt =====
-- The least and the greatest sample of a set, and of all sets.
use rtos_apps.Base.{◌≡◌, ◌⊎◌, inl, refl, subst, arith, List, [], ◌∷◌, All, Any}
use rtos_apps.Base.Int.{ℤ, ◌≤ℤ◌}
use rtos_apps.Stats.{
  Stats, stats_add, stats_add_all, stats_update, stats_reset, stats_snapshot, stats_run, highest,
  lowest,
}

-- `m` is the least of the samples and of `start`.
pub record IsLeast (start : ℤ) (xs : List ℤ) (m : ℤ) : Type 0 where
  pub below_start : m ≤ℤ start
  pub below : All (λ x. m ≤ℤ x) xs
  pub attained : (m ≡ start) ⊎ Any (λ x. m ≡ x) xs

-- `m` is the greatest of the samples and of `start`.
pub record IsGreatest (start : ℤ) (xs : List ℤ) (m : ℤ) : Type 0 where
  pub above_start : start ≤ℤ m
  pub above : All (λ x. x ≤ℤ m) xs
  pub attained : (m ≡ start) ⊎ Any (λ x. m ≡ x) xs

IsLeast-step :
    (s : Stats) (x : ℤ) (xs : List ℤ) {m : ℤ}
    → IsLeast (stats_add s x).current_min xs m
    → IsLeast s.current_min (x ∷ xs) m
unfolding stats_add
IsLeast-step s x xs {m} h = record {
  below_start = ground (arith, h.below_start);
  below = (ground (arith, h.below_start), h.below);
  attained = ground (arith, h.attained);
}

IsGreatest-step :
    (s : Stats) (x : ℤ) (xs : List ℤ) {m : ℤ}
    → IsGreatest (stats_add s x).current_max xs m
    → IsGreatest s.current_max (x ∷ xs) m
unfolding stats_add
IsGreatest-step s x xs {m} h = record {
  above_start = ground (arith, h.above_start);
  above = (ground (arith, h.above_start), h.above);
  attained = ground (arith, h.attained);
}

-- Taking in samples leaves the least and the greatest of the samples and of the old extremes.
pub stats_add_all-extremes :
    (s : Stats) (xs : List ℤ)
    → let t = stats_add_all s xs in
      IsLeast s.current_min xs t.current_min × IsGreatest s.current_max xs t.current_max
unfolding stats_add_all
stats_add_all-extremes s [] = (
  record { below_start = omega arith; below = tt; attained = inl refl },
  record { above_start = omega arith; above = tt; attained = inl refl },
)
stats_add_all-extremes s (x ∷ xs) =
    let rest = stats_add_all-extremes (stats_add s x) xs in
    (IsLeast-step s x xs rest.0, IsGreatest-step s x xs rest.1)

-- The extremes of all sets lie at or beyond those of the current one.
pub record Tracks (s : Stats) : Type 0 where
  pub min_below : s.abs_min ≤ℤ s.current_min
  pub min_start : s.abs_min ≤ℤ highest
  pub max_above : s.current_max ≤ℤ s.abs_max
  pub max_start : lowest ≤ℤ s.abs_max

add-Tracks : (s : Stats) (x : ℤ) → Tracks s → Tracks (stats_add s x)
unfolding stats_add
add-Tracks s x t = record {
  min_below = ground (arith, t.min_below, t.min_start);
  min_start = ground (arith, t.min_below, t.min_start);
  max_above = ground (arith, t.max_above, t.max_start);
  max_start = ground (arith, t.max_above, t.max_start);
}

update-Tracks : (s : Stats) (x : ℤ) → Tracks s → Tracks (stats_update s x).0
unfolding stats_update stats_reset stats_snapshot
update-Tracks s x t = ground (arith, add-Tracks s x t)

-- A set that is full and reset keeps the extremes of all sets.
abs-update :
    (s : Stats) (x : ℤ)
    → let t = (stats_update s x).0 in
      (t.abs_min ≡ (stats_add s x).abs_min) × (t.abs_max ≡ (stats_add s x).abs_max)
unfolding stats_update stats_reset stats_snapshot
abs-update s x = ground arith

abs-IsLeast_step :
    (s : Stats) (x : ℤ) (xs : List ℤ) {m : ℤ}
    → Tracks s
    → IsLeast (stats_add s x).abs_min xs m
    → IsLeast s.abs_min (x ∷ xs) m
unfolding stats_add
abs-IsLeast_step s x xs {m} t h = record {
  below_start = ground (arith, h.below_start, t.min_below);
  below = (ground (arith, h.below_start, t.min_below), h.below);
  attained = ground (arith, h.attained, t.min_below);
}

abs-IsGreatest_step :
    (s : Stats) (x : ℤ) (xs : List ℤ) {m : ℤ}
    → Tracks s
    → IsGreatest (stats_add s x).abs_max xs m
    → IsGreatest s.abs_max (x ∷ xs) m
unfolding stats_add
abs-IsGreatest_step s x xs {m} t h = record {
  above_start = ground (arith, h.above_start, t.max_above);
  above = (ground (arith, h.above_start, t.max_above), h.above);
  attained = ground (arith, h.attained, t.max_above);
}

-- Over any number of updates, across sets, `abs_min` and `abs_max` become the least and the greatest
-- of their old values and all the samples.
pub stats_run-extremes :
    (s : Stats) (xs : List ℤ)
    → Tracks s
    → let t = stats_run s xs in IsLeast s.abs_min xs t.abs_min × IsGreatest s.abs_max xs t.abs_max
unfolding stats_run
stats_run-extremes s [] t = (
  record { below_start = omega arith; below = tt; attained = inl refl },
  record { above_start = omega arith; above = tt; attained = inl refl },
)
stats_run-extremes s (x ∷ xs) t =
    let rest = stats_run-extremes (stats_update s x).0 xs (update-Tracks s x t) in
    (
      abs-IsLeast_step s x xs t (
          subst (λ a. IsLeast a xs (stats_run (stats_update s x).0 xs).abs_min) (abs-update s x).0
            rest.0),
      abs-IsGreatest_step s x xs t (
          subst (λ a. IsGreatest a xs (stats_run (stats_update s x).0 xs).abs_max)
            (abs-update s x).1 rest.1),
    )

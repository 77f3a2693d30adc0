-- ===== src/Stats/Tests.antt =====
-- Runs of the statistics at concrete samples, and the theorems at such samples.
use rtos_apps.Base.{
  ℕ, ◌+◌, ◌-◌, ◌*◌, ◌/◌, ◌^◌, ◌≤◌, ◌≢◌, ◌≡◌, ◌⊎◌, ◌↔◌, refl, true, some, none, arith, List, [], ◌∷◌,
  get_or, get_elem?, replicate,
}
use rtos_apps.Base.Int.{ℤ, pos, negsuc, ◌+ℤ◌}
use rtos_apps.Stats.{Stats, abs_ℕ, highest, lowest, stats_run, to_int32}
use rtos_apps.Stats.Moments.{sum}
use rtos_apps.Stats.Extremes.{IsLeast, IsGreatest, Tracks, stats_run-extremes}
use rtos_apps.Stats.Flush.{IsEmpty, Reported, stats_run-full, variance_lem}
use rtos_apps.Stats.Hist
use rtos_apps.Stats.Hist.{
  Hist, hist_init, hist_update, hist_reset, hist_init_lem, hist_update_lem, hist_reset_lem,
}

-- Sets of four samples.
abbrev fresh : Stats
fresh = record {
  log2_size = 2;
  current_count = 0;
  current_min = highest;
  current_max = lowest;
  current_mean = pos 0;
  current_ms = 0;
  min = pos 0;
  max = pos 0;
  mean = pos 0;
  ms = 0;
  variance = 0;
  abs_min = highest;
  abs_max = lowest;
  name = 0;
  func = true;
}

abbrev samples : List ℤ
samples = pos 3 ∷ negsuc 6 ∷ pos 1 ∷ pos 0 ∷ []

fresh-IsEmpty : IsEmpty fresh
fresh-IsEmpty = record {
  no_count = refl;
  no_sum = refl;
  no_squares = refl;
  no_min = refl;
  no_max = refl;
}

fresh-Tracks : Tracks fresh
fresh-Tracks = omega arith

reported_mean : (stats_run fresh samples).mean ≡ negsuc 0
unfolding stats_run ◌+ℤ◌ to_int32
reported_mean = refl

stats_run-full_example : Reported samples 2 (stats_run fresh samples)
stats_run-full_example = stats_run-full fresh samples (omega arith) fresh-IsEmpty refl (omega arith)

variance_lem_run :
    (stats_run fresh samples).variance + abs_ℕ (sum samples) * abs_ℕ (sum samples) / 2 ^ 4
    ≡ (stats_run fresh samples).ms
variance_lem_run = variance_lem fresh samples (omega arith) fresh-IsEmpty refl (omega arith)

stats_run-extremes_run :
    IsLeast highest samples (stats_run fresh samples).abs_min
    × IsGreatest lowest samples (stats_run fresh samples).abs_max
stats_run-extremes_run = stats_run-extremes fresh samples fresh-Tracks

abbrev hist : Hist
hist = record { slots = replicate 101 5; n_slots = 2; slot_size = 10 }

hist-IsValid : Hist.IsValid hist
hist-IsValid = omega arith

hist_init_lem_run :
    (hist_init hist (2 ^ 32 - 1) 10 ≢ none)
    ↔ ((2 ^ 32 - 1 ≤ 100) ⊎ ◌≡◌ {A = ℕ} (2 ^ 32 - 1) (2 ^ 32 - 1))
hist_init_lem_run = hist_init_lem hist (2 ^ 32 - 1) 10 (omega arith)

hist_update_lem_run :
    (h : Hist) × (hist_update hist 70 ≡ some h)
    × Hist.IsValid h
    × (get_or h.slots 2 0 ≡ 6)
    × ((i : ℕ) → i ≢ 2 → get_or h.slots i 0 ≡ get_or hist.slots i 0)
hist_update_lem_run = hist_update_lem hist 70 hist-IsValid

hist_reset_lem_run : get_elem? (hist_reset hist).slots 2 ≡ some 0
hist_reset_lem_run = hist_reset_lem hist 2 hist-IsValid (omega arith)

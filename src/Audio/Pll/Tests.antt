-- ===== src/Audio/Pll/Tests.antt =====
-- A PLL between two clocks that count 100 and 101 bits for each sample, from just under the wrap of 32 bits.
use rtos_apps.Base.{◌+◌, ◌-◌, ◌%◌, ◌^◌, ◌≡◌, refl, arith, true, false, Option, some, none}
use rtos_apps.Base.Int.{ℤ, pos, negsuc, sub_ℕ, ◌-ℤ◌, ◌+ℤ◌, ◌*ℤ◌}
use rtos_apps.Stats.{Stats, div_ℤ}
use rtos_apps.Audio.Pll.{
  Pll, unlocked, locked, pll_element_run, track, bclk_err, PllState, quot_ℤ, int64,
}
use rtos_apps.Audio.Pll.Drift.{Runs, lock, drift}
use rtos_apps.Audio.Pll.Range.{Adjusts, run-Adjusts}
use rtos_apps.Audio.Pll.Stalled.{still_runs, stalled_fails}

abbrev no_stats : Stats
no_stats = record {
  log2_size = 31;
  current_count = 0;
  current_min = pos 0;
  current_max = pos 0;
  current_mean = pos 0;
  current_ms = 0;
  min = pos 0;
  max = pos 0;
  mean = pos 0;
  ms = 0;
  variance = 0;
  abs_min = pos 0;
  abs_max = pos 0;
  name = 0;
  func = false;
}

abbrev pll_in : PllState → Pll
pll_in st = record {
  src_sai = 1;
  dst_sai = 2;
  pll_id = 3;
  period = 1;
  count = 1;
  state = st;
  sample_count = 0;
  enabled = true;
  src_bcr = 5;
  dst_bcr = 7;
  bclk_offset = pos 0;
  src_bclk = 0;
  initial_src_bclk = 0;
  prev_src_bclk = 0;
  dst_bclk = 0;
  initial_dst_bclk = 0;
  ki = 64;
  kp = 4;
  integral = pos 0;
  prev_err = pos 0;
  prev_bclk_ppb = pos 0;
  stats_bclk_err = no_stats;
  stats_bclk_ppb = no_stats;
}

-- The state after a run, where none fails.
abbrev after : Option (Pll × Option ℤ) → Pll
after none = pll_in unlocked
after (some r) = r.0

abbrev first : Pll
unfolding pll_element_run
first = after (pll_element_run (pll_in unlocked) 4294967290 10)

locked_runs : Runs 4294967290 10 4294967290 10 first
unfolding pll_element_run
locked_runs = lock (pll_in unlocked) first none refl refl refl refl

drift_example :
    bclk_err (track first (4294967390 % 2 ^ 32) (111 % 2 ^ 32))
    ≡ sub_ℕ (4294967390 - 4294967290) (111 - 10)
drift_example =
    drift 4294967390 111 locked_runs (omega arith) (omega arith) (omega arith) (omega arith)
      (omega arith) (omega arith)

run-Adjusts_example : Adjusts (pos 0) (pll_element_run (pll_in locked) 10 12)
run-Adjusts_example = run-Adjusts (pll_in locked) 10 12

-- A locked element that takes a sample every second run.
abbrev slow : Pll
slow = record (pll_in locked) { period = 2 }

abbrev noted : Pll
unfolding pll_element_run
noted = after (pll_element_run slow 10 22)

-- The source's register is 10 in the sample and in the two runs after it.
stalled_fails_example : still_runs 1 10 (λ n. 20 + n) noted ≡ none
unfolding pll_element_run track bclk_err quot_ℤ ◌-ℤ◌ int64 ◌+ℤ◌ div_ℤ ◌*ℤ◌
stalled_fails_example =
    stalled_fails slow noted 10 22 (λ n. 20 + n) (some (negsuc 199999)) refl refl refl refl
      (omega arith) (omega arith) (omega arith) refl

-- ===== src/Stats.antt =====
-- stats/stats.c and rtos_apps/stats.h: running statistics over sets of samples, and histograms.
-- Samples are `int32_t`, as integers. The `int64_t` sum of a set and its square are integers that do
-- not wrap (the code leaves their overflow undefined); unsigned counts and sums wrap. Printing is left out.
pub mod Moments
pub mod Extremes
pub mod Variance
pub mod Flush
pub mod Hist
mod Tests
use rtos_apps.Base.{
  ℕ, ◌+◌, ◌-◌, ◌*◌, ◌/◌, ◌%◌, ◌^◌, Bool, true, false, Option, none, some, List, [], ◌∷◌, ltb, ◌==◌,
  if◌then◌else◌,
}
use rtos_apps.Base.Int.{ℤ, pos, negsuc, pos_part, neg_part, ◌+ℤ◌, ltb_ℤ}

-- The absolute value, as a number.
abbrev pub abs_ℕ : ℤ → ℕ
abs_ℕ a = pos_part a + neg_part a

-- `a >> k` of a signed value, which rounds down.
abbrev pub shr_ℤ : ℤ → ℕ → ℤ
shr_ℤ (pos n) k = pos (n / 2 ^ k)
shr_ℤ (negsuc n) k = negsuc (n / 2 ^ k)

-- `a / d` of a signed value by a positive one, which rounds towards 0.
unfoldable pub div_ℤ : ℤ → ℕ → ℤ
div_ℤ (pos n) d = pos (n / d)
div_ℤ (negsuc n) d = if (n + 1) / d == 0 then pos 0 else negsuc ((n + 1) / d - 1)

-- The `int32_t` with the low 32 bits of a signed value.
abbrev pub signed32 : ℕ → ℤ
signed32 w = if ltb w (2 ^ 31) then pos w else negsuc (2 ^ 32 - 1 - w)

unfoldable pub to_int32 : ℤ → ℤ
to_int32 (pos n) = signed32 (n % 2 ^ 32)
to_int32 (negsuc n) = signed32 (2 ^ 32 - 1 - n % 2 ^ 32)

-- `0x7fffffff` and `-0x7fffffff`
abbrev pub highest : ℤ
highest = pos 0x7fffffff

abbrev pub lowest : ℤ
lowest = negsuc 0x7ffffffe

-- `struct rtos_apps_stats`. Of `func` it matters here whether it is set.
pub record Stats : Type 0 where
  pub log2_size : ℕ
  pub current_count : ℕ
  pub current_min : ℤ
  pub current_max : ℤ
  pub current_mean : ℤ
  pub current_ms : ℕ
  pub min : ℤ
  pub max : ℤ
  pub mean : ℤ
  pub ms : ℕ
  pub variance : ℕ
  pub abs_min : ℤ
  pub abs_max : ℤ
  pub name : ℕ
  pub func : Bool

unfoldable pub stats_reset : Stats → Stats
stats_reset s = record s {
  current_count = 0;
  current_min = highest;
  current_mean = pos 0;
  current_max = lowest;
  current_ms = 0;
}

unfoldable pub stats_init : Stats → ℕ → ℕ → Bool → Stats
unfolding stats_reset
stats_init s log2_size name func = stats_reset (record s {
  log2_size = log2_size;
  name = name;
  func = func;
  abs_min = highest;
  abs_max = lowest;
})

-- The sums and the extremes of the current set, with one more sample.
unfoldable pub stats_add : Stats → ℤ → Stats
stats_add s val =
    let low = ltb_ℤ val s.current_min in
    let high = ltb_ℤ s.current_max val in
    record s {
      current_count = (s.current_count + 1) % 2 ^ 32;
      current_mean = s.current_mean +ℤ val;
      current_ms = (s.current_ms + abs_ℕ val * abs_ℕ val) % 2 ^ 64;
      current_min = if low then val else s.current_min;
      abs_min = if low then (if ltb_ℤ val s.abs_min then val else s.abs_min) else s.abs_min;
      current_max = if high then val else s.current_max;
      abs_max = if high then (if ltb_ℤ s.abs_max val then val else s.abs_max) else s.abs_max;
    }

-- The snapshot of a full set.
unfoldable pub stats_snapshot : Stats → Stats
stats_snapshot s =
    let ms = s.current_ms / 2 ^ s.log2_size in
    record s {
      ms = ms;
      variance =
          (ms
            + 2 ^ 64
            - abs_ℕ s.current_mean * abs_ℕ s.current_mean / 2 ^ (2 * s.log2_size) % 2 ^ 64)
          % 2 ^ 64;
      mean = to_int32 (shr_ℤ s.current_mean s.log2_size);
      min = s.current_min;
      max = s.current_max;
    }

-- `rtos_apps_stats_update`, with the state that `func` is called on, if it is called.
unfoldable pub stats_update : Stats → ℤ → Stats × Option Stats
unfolding stats_add stats_snapshot stats_reset
stats_update s val =
    let t = stats_add s val in
    if t.current_count == 2 ^ s.log2_size % 2 ^ 32
    then (stats_reset (stats_snapshot t), if s.func then some (stats_snapshot t) else none)
    else (t, none)

unfoldable pub stats_compute : Stats → Stats
unfolding div_ℤ to_int32
stats_compute s =
    let ms = s.current_ms / s.current_count in
    if s.current_count == 0
    then record s { mean = pos 0; ms = 0; variance = 0; min = s.current_min; max = s.current_max }
    else record s {
      ms = ms;
      variance =
          (ms
            + 2 ^ 64
            - abs_ℕ s.current_mean
              * abs_ℕ s.current_mean
              / (s.current_count * s.current_count)
              % 2 ^ 64)
          % 2 ^ 64;
      mean = to_int32 (div_ℤ s.current_mean s.current_count);
      min = s.current_min;
      max = s.current_max;
    }

-- The samples of a set, one after the other, while it is not full.
unfoldable pub stats_add_all : Stats → List ℤ → Stats
unfolding stats_add
stats_add_all s [] = s
stats_add_all s (x ∷ xs) = stats_add_all (stats_add s x) xs

-- Calls of `rtos_apps_stats_update` in a row.
unfoldable pub stats_run : Stats → List ℤ → Stats
unfolding stats_update
stats_run s [] = s
stats_run s (x ∷ xs) = stats_run (stats_update s x).0 xs

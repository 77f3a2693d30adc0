-- ===== src/Tsn/Task/Schedule.antt =====
-- tsn/tsn_task.c: when a task starts, and how its statistics judge the starts of its rounds.
use rtos_apps.Base.{
  ℕ, ◌+◌, ◌-◌, ◌*◌, ◌/◌, ◌^◌, ◌≤◌, ◌<◌, ◌≡◌, ◌↔◌, refl, arith, Bool, true, false, some, ltb, leb,
  if◌then◌else◌, add32,
}
use native.Mathlib.Nat.{div-mul-le_self, lt-div-mul-add, mod-eq_of_lt}
use rtos_apps.Base.Int.{ℤ, pos, negsuc, ltb_ℤ}
use rtos_apps.Stats.{stats_update}
use rtos_apps.Stats.Hist.{Hist, IsValid, hist_update_lem}
use rtos_apps.Tsn.Task.{
  TsnTask, TsnTaskParams, start_time, nsecs_per_sec, stats_count_sched, diff32, as_unsigned,
  neg_int32, tsn_task_stats_start,
}

-- The second that the start is rounded to.
abbrev pub start_second : ℕ → ℕ
start_second now = ((now + nsecs_per_sec / 2) / nsecs_per_sec + 1) * nsecs_per_sec

start_second_bounds :
    (now : ℕ)
    → (now + nsecs_per_sec / 2 < start_second now)
      × (start_second now ≤ now + 3 * (nsecs_per_sec / 2))
start_second_bounds now = (omega arith, omega arith)

aligned : TsnTaskParams → ℕ → ℕ
aligned p now = start_second now / p.task_period_ns * p.task_period_ns

aligned_le : (p : TsnTaskParams) (now : ℕ) → aligned p now ≤ start_second now
unfolding aligned
aligned_le p now = div-mul-le_self (start_second now) p.task_period_ns

aligned_gt :
    (p : TsnTaskParams) (now : ℕ)
    → 0 < p.task_period_ns
    → start_second now < aligned p now + p.task_period_ns
unfolding aligned
aligned_gt p now lt = lt-div-mul-add lt

start_time-eq-aligned :
    (p : TsnTaskParams) (now : ℕ)
    → now + 2 * nsecs_per_sec + p.task_period_offset_ns < 2 ^ 64
    → start_time p now ≡ aligned p now + p.task_period_offset_ns
unfolding start_time aligned
start_time-eq-aligned p now lt =
    let b = start_second_bounds now in
    let le = aligned_le p now in
    let half : now + nsecs_per_sec / 2 < 2 ^ 64 = omega arith in
    let second : start_second now < 2 ^ 64 = omega arith in
    rw (mod-eq_of_lt half, mod-eq_of_lt second) (mod-eq_of_lt (omega arith))

-- Without a wrap of 64 bits the first event lies a whole number of periods behind the offset. It comes
-- half a second to one and a half after the present time, less a period, plus the offset; so the time of
-- the second is rounded to the nearest, and not up.
pub start_time_lem :
    (p : TsnTaskParams) (now : ℕ)
    → 0 < p.task_period_ns
    → now + 2 * nsecs_per_sec + p.task_period_offset_ns < 2 ^ 64
    → ((k : ℕ) × (start_time p now ≡ k * p.task_period_ns + p.task_period_offset_ns))
      × (now + nsecs_per_sec / 2 + p.task_period_offset_ns < start_time p now + p.task_period_ns)
      × (start_time p now ≤ now + 3 * (nsecs_per_sec / 2) + p.task_period_offset_ns)
unfolding aligned
start_time_lem p now per lt =
    let e = start_time-eq-aligned p now lt in
    let b = start_second_bounds now in
    let le = aligned_le p now in
    let gt = aligned_gt p now per in
    ((start_second now / p.task_period_ns, rw (e, aligned) refl), omega arith, omega arith)

-- The difference of two times, less than 2^31 apart, as the code computes it.
diff32_lem :
    (a b d : ℕ)
    → b < 2 ^ 64
    → d < 2 ^ 31
    → (a ≡ b + d → diff32 a b ≡ pos d) × (a + d + 1 ≡ b → diff32 a b ≡ negsuc d)
diff32_lem a b d lt small = (λ e. ground arith, λ e. ground arith)

diff32_late : (b a : ℕ) → b < 2 ^ 64 → a < b + 2 ^ 31 → b ≤ a → diff32 a b ≡ pos (a - b)
diff32_late b a lt near le = (diff32_lem a b (a - b) lt (omega arith)).0 (omega arith)

diff32_early : (b a : ℕ) → b < 2 ^ 64 → b < a + 2 ^ 31 → a < b → diff32 a b ≡ negsuc (b - a - 1)
diff32_early b a lt near early = (diff32_lem a b (b - a - 1) lt (omega arith)).1 (omega arith)

abbrev lateness : TsnTask → ℕ → ℤ
lateness task now =
    let err = diff32 now task.sched_time in if ltb_ℤ err (pos 0) then neg_int32 err else err

abbrev on_time : TsnTask → ℕ → Bool
on_time task now =
    let err = diff32 now task.sched_time in
    if leb task.params.task_period_ns (as_unsigned err)
    then false
    else if ltb_ℤ err (pos 0)
    then false
    else true

abbrev started : TsnTask → ℕ → Hist → TsnTask
started task now h = record task {
  stats =
      record (stats_count_sched task.params.task_period_ns (diff32 now task.sched_time)
        task.stats) {
          sched_err = (stats_update task.stats.sched_err (lateness task now)).0;
          sched_err_hist = h;
        };
  sched_now = now;
}

stats_start_runs :
    (task : TsnTask) (now : ℕ)
    → IsValid task.stats.sched_err_hist
    → (h : Hist) × (tsn_task_stats_start now task ≡ some (started task now h, on_time task now))
      × IsValid h
unfolding tsn_task_stats_start
stats_start_runs task now v =
    let h = hist_update_lem task.stats.sched_err_hist (as_unsigned (lateness task now)) v in
    (h.0, rw h.1 refl, h.2)

-- A start at the scheduled time, or late by less than a period, has the result 0 and is not counted as
-- missed or early. Any other start has the result -1 and is counted as missed, also an early one, which
-- is counted as early too. The times are less than 2^31 ns apart, and so is the period.
pub stats_start_lem :
    (task : TsnTask) (now : ℕ)
    → IsValid task.stats.sched_err_hist
    → task.params.task_period_ns ≤ 2 ^ 31
    → task.sched_time < 2 ^ 64
    → now < task.sched_time + 2 ^ 31
    → task.sched_time < now + 2 ^ 31
    → (t : TsnTask) × (ok : Bool) × (tsn_task_stats_start now task ≡ some (t, ok))
      × ((ok ≡ true)
          ↔ ((task.sched_time ≤ now) × (now < task.sched_time + task.params.task_period_ns)))
      × (t.stats.sched_missed
          ≡ (if ok then task.stats.sched_missed else add32 task.stats.sched_missed 1))
      × (t.stats.sched_early ≡ (
          if ltb now task.sched_time
          then add32 task.stats.sched_early 1
          else task.stats.sched_early))
      × (t.sched_now ≡ now)
      × (t.sched_time ≡ task.sched_time)
unfolding stats_count_sched
stats_start_lem task now v per lt near near' =
    let r = stats_start_runs task now v in
    let d = diff32_late task.sched_time now lt near in
    let d' = diff32_early task.sched_time now lt near' in
    (
      started task now r.0,
      on_time task now,
      r.1,
      (λ e. ground arith, λ e. ground arith),
      ground arith,
      ground arith,
      refl,
      refl,
    )

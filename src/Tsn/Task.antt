-- ===== src/Tsn/Task.antt =====
-- tsn/tsn_task.c: a task with its network sockets. Here its data, the statistics of its schedule and its
-- start. The clock, the timer and the results of the AVB stack are inputs; printing is left out.
pub mod Schedule
pub mod Sockets
pub mod Setup
pub mod Closed
pub mod Tests
use rtos_apps.Base.{
  ℕ, zero, suc, ◌+◌, ◌-◌, ◌*◌, ◌/◌, ◌%◌, ◌^◌, Bool, true, false, Option, none, some, List, map, ltb,
  leb, ◌==◌, if◌then◌else◌, add32,
}
use rtos_apps.Base.Int.{ℤ, pos, negsuc, ltb_ℤ}
use rtos_apps.Stats.{Stats, stats_init, stats_update, stats_reset, signed32}
use rtos_apps.Stats.Hist.{Hist, hist_init, hist_update}

-- `struct net_socket_stats`
pub record NetSocketStats : Type 0 where
  pub pending : Bool
  pub frames : ℕ
  pub err : ℕ

-- `opened` tells whether the socket of the AVB stack is open, `iovec` whether its array is allocated.
pub record NetSocket : Type 0 where
  pub id : ℕ
  pub dir : ℕ
  pub opened : Bool
  pub iovec : Bool
  pub n : ℕ
  pub ts : ℕ
  pub zero_copy : Bool
  pub tx_pending : Bool
  pub hdr_len : ℕ
  pub stats : NetSocketStats
  pub stats_snap : NetSocketStats

pub record TsnTaskStats : Type 0 where
  pub pending : Bool
  pub sched_err : Stats
  pub sched_err_hist : Hist
  pub proc_time : Stats
  pub proc_time_hist : Hist
  pub total_time : Stats
  pub total_time_hist : Hist
  pub sched : ℕ
  pub sched_early : ℕ
  pub sched_missed : ℕ
  pub sched_timeout : ℕ
  pub clock_discont : ℕ
  pub sched_err_max : ℕ

-- The fields of `struct tsn_task_params` that this file reads.
pub record TsnTaskParams : Type 0 where
  pub task_period_ns : ℕ
  pub task_period_offset_ns : ℕ
  pub num_packets : ℕ
  pub zero_copy : Bool

-- `thread` and `timer` tell whether they exist; the sockets are those in use.
pub record TsnTask : Type 0 where
  pub id : ℕ
  pub thread : Bool
  pub timer : Bool
  pub params : TsnTaskParams
  pub sock_rx : List NetSocket
  pub sock_tx : List NetSocket
  pub stats : TsnTaskStats
  pub stats_snap : TsnTaskStats
  pub sched_time : ℕ
  pub sched_now : ℕ

-- The `int32_t` of the difference of two `uint64_t`.
abbrev pub diff32 : ℕ → ℕ → ℤ
diff32 a b = signed32 ((a + 2 ^ 64 - b % 2 ^ 64) % 2 ^ 32)

-- An `int32_t` as `unsigned int`.
abbrev pub as_unsigned : ℤ → ℕ
as_unsigned (pos n) = n
as_unsigned (negsuc n) = 2 ^ 32 - 1 - n

-- `-x` on an `int32_t`; that of the least value, which is undefined, is left as the value.
abbrev pub neg_int32 : ℤ → ℤ
neg_int32 (pos zero) = pos 0
neg_int32 (pos (suc n)) = negsuc n
neg_int32 (negsuc n) = if n == 2 ^ 31 - 1 then negsuc n else pos (n + 1)

infixl 5 ◌>>=◌
abbrev pub ◌>>=◌ : {A B : Type 0} → Option A → (A → Option B) → Option B
none >>= k = none
(some a) >>= k = k a

-- The result of the histogram's set-up is not read.
abbrev try_hist_init : Hist → ℕ → ℕ → Hist
try_hist_init h n slot_size = elim (hist_init h n slot_size) [ none ↦ h | some h' ↦ h' ]

-- The names of the statistics are numbered.
unfoldable pub tsn_task_stats_init : TsnTaskStats → TsnTaskStats
tsn_task_stats_init s = record s {
  sched_err = stats_init s.sched_err 31 0 false;
  sched_err_hist = try_hist_init s.sched_err_hist 100 100;
  proc_time = stats_init s.proc_time 31 1 false;
  proc_time_hist = try_hist_init s.proc_time_hist 100 1000;
  total_time = stats_init s.total_time 31 2 false;
  total_time_hist = try_hist_init s.total_time_hist 100 1000;
  sched_err_max = 0;
}

-- The counts of `tsn_task_stats_start` for the error of the schedule. The comparisons with the period
-- and with the maximum are unsigned.
unfoldable pub stats_count_sched : ℕ → ℤ → TsnTaskStats → TsnTaskStats
stats_count_sched period err s =
    let missed = leb period (as_unsigned err) in
    let early = ltb_ℤ err (pos 0) in
    let late = if early then neg_int32 err else err in
    record s {
      sched = add32 s.sched 1;
      sched_missed = if missed then add32 s.sched_missed 1 else s.sched_missed;
      sched_early = if early then add32 s.sched_early 1 else s.sched_early;
      sched_err_max =
          if ltb s.sched_err_max (as_unsigned late) then as_unsigned late else s.sched_err_max;
    }

-- The task and whether it is on time (result 0, not -1), at the time `now`; `none` is an access of a
-- histogram that is out of range.
unfoldable pub tsn_task_stats_start : ℕ → TsnTask → Option (TsnTask × Bool)
unfolding stats_count_sched
tsn_task_stats_start now task =
    let err = diff32 now task.sched_time in
    let period = task.params.task_period_ns in
    let early = ltb_ℤ err (pos 0) in
    let late = if early then neg_int32 err else err in
    (do
      h ← hist_update task.stats.sched_err_hist (as_unsigned late)
      some (
        record task {
          stats = record (stats_count_sched period err task.stats) {
            sched_err = (stats_update task.stats.sched_err late).0;
            sched_err_hist = h;
          };
          sched_now = now;
        },
        (if leb period (as_unsigned err) then false else if early then false else true),
      ))

unfoldable pub tsn_task_stats_end : ℕ → TsnTask → Option TsnTask
tsn_task_stats_end now task =
    let proc = diff32 now task.sched_now in
    let total = diff32 now task.sched_time in
    (do
      h ← hist_update task.stats.proc_time_hist (as_unsigned proc)
      k ← hist_update task.stats.total_time_hist (as_unsigned total)
      some (record task {
        stats = record task.stats {
          proc_time = (stats_update task.stats.proc_time proc).0;
          proc_time_hist = h;
          total_time = (stats_update task.stats.total_time total).0;
          total_time_hist = k;
        };
        sched_time = (task.sched_time + task.params.task_period_ns) % 2 ^ 64;
      }))

-- `queued` tells whether the call of the print is queued.
unfoldable pub tsn_task_stats_dump : Bool → TsnTask → TsnTask
tsn_task_stats_dump queued task = if task.stats_snap.pending then task else record task {
  stats = record task.stats {
    sched_err = stats_reset task.stats.sched_err;
    proc_time = stats_reset task.stats.proc_time;
    total_time = stats_reset task.stats.total_time;
  };
  stats_snap = record task.stats { pending = queued };
}

unfoldable pub net_socket_stats_dump : Bool → NetSocket → NetSocket
net_socket_stats_dump queued s =
    if s.stats_snap.pending
    then s
    else record s { stats_snap = record s.stats { pending = queued } }

unfoldable pub tsn_stats_dump : Bool → TsnTask → TsnTask
unfolding tsn_task_stats_dump net_socket_stats_dump
tsn_stats_dump queued task =
    let t = tsn_task_stats_dump queued task in
    record t {
      sock_rx = map (net_socket_stats_dump queued) t.sock_rx;
      sock_tx = map (net_socket_stats_dump queued) t.sock_tx;
    }

abbrev pub nsecs_per_sec : ℕ
nsecs_per_sec = 1000000000

-- The time of the first timer event, for a period that is not 0.
unfoldable pub start_time : TsnTaskParams → ℕ → ℕ
start_time p now =
    let second =
      ((now + nsecs_per_sec / 2) % 2 ^ 64 / nsecs_per_sec + 1) * nsecs_per_sec % 2 ^ 64 in
    (second / p.task_period_ns * p.task_period_ns + p.task_period_offset_ns) % 2 ^ 64

-- `clock` is the time, if the clock gives one, and `starts` whether the timer starts.
unfoldable pub tsn_task_start : Option ℕ → Bool → TsnTask → TsnTask × Bool
unfolding start_time
tsn_task_start none starts task = (task, false)
tsn_task_start (some now) false task = (task, false)
tsn_task_start (some now) true task =
    if task.timer
    then (
      record task {
        sched_time = (start_time task.params now + task.params.task_period_ns) % 2 ^ 64;
      },
      true,
    )
    else (task, false)

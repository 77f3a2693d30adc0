-- ===== src/Tsn/Task/Tests.antt =====
-- A task with one socket in each direction, and the theorems at it.
use rtos_apps.Base.{
  ℕ, ◌+◌, ◌*◌, ◌≤◌, ◌<◌, ◌≡◌, ◌≢◌, ◌↔◌, ◌⊎◌, inr, refl, arith, Bool, true, false, none, some, [],
  ◌∷◌, replicate, if◌then◌else◌,
}
use rtos_apps.Base.Int.{pos}
use rtos_apps.Stats.{Stats, highest, lowest}
use rtos_apps.Stats.Hist.{Hist}
use rtos_apps.Tsn.Task.{
  NetSocket, NetSocketStats, TsnTask, TsnTaskParams, TsnTaskStats, start_time, tsn_task_stats_start,
}
use rtos_apps.Tsn.Task.Sockets.{
  net_ok, net_no_frame, tsn_net_receive_sock, tsn_net_transmit_init, receive_sock_lem,
  transmit_init_frees,
}
use rtos_apps.Tsn.Task.Setup.{
  HeaderSizes, RegisterCalls, SocketCalls, tsn_task_register, register_timer,
}
use rtos_apps.Tsn.Task.Schedule.{start_time_lem, stats_start_lem}
use rtos_apps.Tsn.Task.Closed.{IsReleased, register_fails}

abbrev no_samples : Stats
no_samples = record {
  log2_size = 31;
  current_count = 0;
  current_min = highest;
  current_max = lowest;
  current_mean = pos 0;
  current_ms = 0;
  min = pos 0;
  max = pos 0;
  mean = pos 0;
  ms = 0;
  variance = 0;
  abs_min = highest;
  abs_max = lowest;
  name = 0;
  func = false;
}

abbrev no_values : Hist
no_values = record { slots = replicate 101 0; n_slots = 100; slot_size = 100 }

abbrev no_stats : TsnTaskStats
no_stats = record {
  pending = false;
  sched_err = no_samples;
  sched_err_hist = no_values;
  proc_time = no_samples;
  proc_time_hist = no_values;
  total_time = no_samples;
  total_time_hist = no_values;
  sched = 0;
  sched_early = 0;
  sched_missed = 0;
  sched_timeout = 0;
  clock_discont = 0;
  sched_err_max = 0;
}

abbrev no_frames : NetSocketStats
no_frames = record { pending = false; frames = 0; err = 0 }

abbrev closed : NetSocket
closed = record {
  id = 0;
  dir = 0;
  opened = false;
  iovec = false;
  n = 0;
  ts = 0;
  zero_copy = false;
  tx_pending = false;
  hdr_len = 0;
  stats = no_frames;
  stats_snap = no_frames;
}

abbrev pub two_packets : NetSocket
two_packets = record closed { opened = true; iovec = true; n = 2; zero_copy = true }

abbrev pub params : TsnTaskParams
params = record {
  task_period_ns = 250000;
  task_period_offset_ns = 100;
  num_packets = 2;
  zero_copy = true;
}

abbrev pub cleared : TsnTask
cleared = record {
  id = 0;
  thread = false;
  timer = false;
  params = params;
  sock_rx = closed ∷ [];
  sock_tx = closed ∷ [];
  stats = no_stats;
  stats_snap = no_stats;
  sched_time = 0;
  sched_now = 0;
}

abbrev scheduled : TsnTask
scheduled = record cleared { sched_time = 1000000 }

abbrev pub sizes : HeaderSizes
sizes = record { eth = 14; vlan = 4 }

abbrev opens_all : ℕ → SocketCalls
opens_all i = record { opens = true; allocates = true; buffers = pos 2 }

-- The timer's callback is refused.
abbrev pub no_callback : RegisterCalls
no_callback = record {
  allocates = true;
  rx = opens_all;
  tx = opens_all;
  main_loop = true;
  creates_thread = true;
  timer_callback = true;
  creates_timer = true;
  sets_callback = false;
}

cleared-IsReleased : IsReleased cleared
cleared-IsReleased = record {
  no_thread = refl;
  no_timer = refl;
  rx_closed = ((refl, refl), tt);
  tx_closed = ((refl, refl), tt);
}

receive_sock_lem_run :
    ((tsn_net_receive_sock (pos 1) none two_packets).1 ≡ net_ok
      × (pos 1 ≡ pos 2)
      × ((tsn_net_receive_sock (pos 1) none two_packets).2 ≡ 0)
      × ((tsn_net_receive_sock (pos 1) none two_packets).0.stats.frames ≡ 2))
    ⊎ ((tsn_net_receive_sock (pos 1) none two_packets).1 ≡ net_no_frame
        × (pos 1 ≢ pos 2)
        × ((tsn_net_receive_sock (pos 1) none two_packets).2 ≡ 1)
        × ((tsn_net_receive_sock (pos 1) none two_packets).0 ≡ two_packets))
receive_sock_lem_run = receive_sock_lem (pos 1) none two_packets refl

transmit_init_frees_run :
    ((tsn_net_transmit_init (pos 0) 14 4 two_packets).2 ≡ 0) ↔ (◌≡◌ {A = ℕ} 0 0 ⊎ ◌≡◌ {A = ℕ} 0 2)
transmit_init_frees_run =
    transmit_init_frees (pos 0) 14 4 two_packets (λ e. ground arith) (omega arith)

start_time_lem_example :
    ((k : ℕ) × (start_time params 1700000000 ≡ k * 250000 + 100))
    × (1700000000 + 500000000 + 100 < start_time params 1700000000 + 250000)
    × (start_time params 1700000000 ≤ 1700000000 + 1500000000 + 100)
start_time_lem_example = start_time_lem params 1700000000 (omega arith) (omega arith)

-- A start 500 ns early.
stats_start_lem_example :
    (t : TsnTask) × (ok : Bool) × (tsn_task_stats_start 999500 scheduled ≡ some (t, ok))
    × ((ok ≡ true) ↔ ((1000000 ≤ 999500) × (999500 < 1250000)))
    × (t.stats.sched_missed ≡ (if ok then 0 else 1))
    × (t.stats.sched_early ≡ 1)
    × (t.sched_now ≡ 999500)
    × (t.sched_time ≡ 1000000)
stats_start_lem_example =
    stats_start_lem scheduled 999500
      (record { slots_len = refl; n_slots_lt = omega arith; slot_size_pos = omega arith })
      (omega arith) (omega arith) (omega arith) (omega arith)

register_fails_example :
    ((tsn_task_register sizes no_callback 1 params cleared).0.allocated ≡ false)
    × IsReleased (tsn_task_register sizes no_callback 1 params cleared).0.task
unfolding tsn_task_register tsn_net_transmit_init register_timer
register_fails_example =
    register_fails sizes no_callback 1 params cleared cleared-IsReleased (λ i. inr refl) refl

-- ===== src/Tsn/Cyclic/Tests.antt =====
-- A socket of peer 3 in the cycle of time 100, with a late frame and a foreign one before the right one.
use rtos_apps.Base.{
  ℕ, ◌+◌, ◌-◌, ◌*◌, ◌%◌, ◌^◌, ◌≡◌, ◌≢◌, ◌↔◌, refl, arith, true, false, ◌&&◌, none, some, List, [],
  ◌∷◌, length, add32, if◌then◌else◌, ◌==◌, min, replicate,
}
use rtos_apps.Base.Int.{pos}
use rtos_apps.Stats.{Stats}
use rtos_apps.Tsn.Cyclic.{
  Frame, SocketStats, Socket, receive_rounds, cyclic_task_start_check, nsecs_per_sec,
  get_monitoring,
}
use rtos_apps.Tsn.Cyclic.Receive.{
  receive_rounds_lem, receive_link, start_check_iff, first_valid, stale_before, foreign_before,
}
use rtos_apps.Tsn.Cyclic.Monitoring.{get_monitoring_count}

abbrev frame : ℕ → ℕ → Frame ℕ
frame src time = record {
  msg_id = 1;
  src_id = src;
  len = 4;
  sched_time = time;
  ts = time + 7;
  payload = 0;
}

abbrev no_stats : Stats
no_stats = record {
  log2_size = 5;
  current_count = 0;
  current_min = pos 0;
  current_max = pos 0;
  current_mean = pos 0;
  current_ms = 0;
  min = pos 0;
  max = pos 0;
  mean = pos 0;
  ms = 0;
  variance = 0;
  abs_min = pos 0;
  abs_max = pos 0;
  name = 0;
  func = false;
}

abbrev stats : SocketStats
stats = record {
  valid_frames = 0;
  err_id = 0;
  err_ts = 0;
  err_underflow = 0;
  link_status = 0;
  traffic_latency_max = 0;
  traffic_latency_min = 4294967295;
  traffic_latency = no_stats;
  traffic_latency_hist = record { slots = replicate 101 0; n_slots = 100; slot_size = 1000 };
}

abbrev frames : List (Frame ℕ)
frames = frame 3 50 ∷ frame 4 100 ∷ frame 3 100 ∷ frame 3 100 ∷ []

counted :
    (first_valid 100 3 frames ≡ some (frame 3 100))
    × (stale_before 100 3 frames ≡ 1)
    × (foreign_before 100 3 frames ≡ 1)
counted = (refl, refl, refl)

receive_rounds_lem_example :
    let (u, handed) = receive_rounds 100 3 true false frames stats in
    (handed ≡ first_valid 100 3 frames)
    × (u.err_ts ≡ (0 + stale_before 100 3 frames) % 2 ^ 32)
    × (u.err_id ≡ (0 + foreign_before 100 3 frames) % 2 ^ 32)
receive_rounds_lem_example =
    receive_rounds_lem 100 3 true false frames stats (omega arith) (omega arith)

receive_link_run :
    let (u, handed) = receive_rounds 100 3 true false frames stats in
    ((u.link_status ≡ 1) ↔ (handed ≢ none))
    × (u.err_underflow ≡ (if true && length frames == 0 then add32 0 1 else 0))
receive_link_run = receive_link 100 3 true frames stats

start_check_iff_run :
    (cyclic_task_start_check 250000 ≡ true) ↔ ((k : ℕ) × (k * 250000 ≡ nsecs_per_sec))
start_check_iff_run = start_check_iff 250000

abbrev socket : Socket
socket = record { peer_id = 3; stats = stats }

get_monitoring_count_run :
    length (get_monitoring 1 0 (socket ∷ socket ∷ socket ∷ [])).1
    ≡ min (length (socket ∷ socket ∷ socket ∷ [])) (1 + 1 - 0)
get_monitoring_count_run = get_monitoring_count 1 0 (socket ∷ socket ∷ socket ∷ []) (omega arith)

-- ===== src/Tsn/Cyclic.antt =====
-- tsn/cyclic_task.c: the frames that a cyclic task receives and sends, its period and its monitoring. The
-- sockets are outside: a receive is given the frames that a socket delivers in a row.
pub mod Receive
pub mod Monitoring
mod Tests
use rtos_apps.Base.{
  ℕ, zero, suc, ◌+◌, ◌-◌, ◌*◌, ◌/◌, ◌%◌, ◌^◌, Bool, true, false, ◌&&◌, ◌||◌, not, Option, none,
  some, List, [], ◌∷◌, length, get_elem?, set, ltb, leb, ◌==◌, if◌then◌else◌, add32, sub32, mul32,
  max, min,
}
use rtos_apps.Stats.{Stats, stats_update, signed32}
use rtos_apps.Stats.Hist.{Hist, hist_update}

-- A frame with the fields of its `struct tsn_common_hdr` and the time at which the socket took it.
pub record Frame {ℓ} (P : Type ℓ) : Type ℓ where
  pub msg_id : ℕ
  pub src_id : ℕ
  pub len : ℕ
  pub sched_time : ℕ
  pub ts : ℕ
  pub payload : P

-- `struct socket_stats`
pub record SocketStats : Type 0 where
  pub valid_frames : ℕ
  pub err_id : ℕ
  pub err_ts : ℕ
  pub err_underflow : ℕ
  pub link_status : ℕ
  pub traffic_latency_max : ℕ
  pub traffic_latency_min : ℕ
  pub traffic_latency : Stats
  pub traffic_latency_hist : Hist

pub record Socket : Type 0 where
  pub peer_id : ℕ
  pub stats : SocketStats

-- What a socket delivers until its status is not NET_OK; `no_frame` is NET_NO_FRAME, else it is NET_ERR.
pub record Arrivals {ℓ} (P : Type ℓ) : Type ℓ where
  pub frames : List (Frame P)
  pub no_frame : Bool

-- The histogram stays where the update would access memory behind the slots.
abbrev pub update_hist : Hist → ℕ → Hist
update_hist h v = elim (hist_update h v) [ none ↦ h | some h' ↦ h' ]

-- The counts of a valid frame.
unfoldable pub count_valid : ℕ → SocketStats → SocketStats
count_valid latency t = record t {
  traffic_latency = (stats_update t.traffic_latency (signed32 latency)).0;
  traffic_latency_hist = update_hist t.traffic_latency_hist latency;
  traffic_latency_max =
      if ltb t.traffic_latency_max latency then latency else t.traffic_latency_max;
  traffic_latency_min =
      if ltb latency t.traffic_latency_min then latency else t.traffic_latency_min;
  valid_frames = add32 t.valid_frames 1;
  link_status = 1;
}

module _ {ℓ} {P : Type ℓ} where
  -- The rounds from `retry` on, for one socket: `expected` is the time of the cycle less the transfer time, and
  -- `rx_frame` as in the source. The result is also the frame that is handed on, if one is.
  unfoldable pub receive_rounds :
      ℕ → ℕ → Bool → Bool → List (Frame P) → SocketStats → SocketStats × Option (Frame P)
  unfolding count_valid
  receive_rounds expected peer no_frame rx_frame [] t = (
    record t {
      err_underflow = if no_frame && not rx_frame then add32 t.err_underflow 1 else t.err_underflow;
      link_status = 0;
    },
    none,
  )
  receive_rounds expected peer no_frame rx_frame (f ∷ fs) t =
      let stale =
        receive_rounds expected peer no_frame true fs (record t { err_ts = add32 t.err_ts 1 }) in
      let foreign =
        receive_rounds expected peer no_frame true fs (record t { err_id = add32 t.err_id 1 }) in
      if not (f.sched_time == expected)
      then stale
      else if not (f.src_id == peer)
      then foreign
      else (count_valid (sub32 (f.ts % 2 ^ 32) (f.sched_time % 2 ^ 32)) t, some f)

  -- `cyclic_net_receive` for the sockets of the peers: the sockets and the frames handed on, in order. The
  -- times have 64 bits.
  unfoldable pub cyclic_net_receive :
      ℕ → ℕ → List Socket → List (Arrivals P) → List Socket × List (Frame P)
  unfolding receive_rounds
  cyclic_net_receive now transfer [] arrivals = ([], [])
  cyclic_net_receive now transfer (s ∷ ss) [] = (s ∷ ss, [])
  cyclic_net_receive now transfer (s ∷ ss) (a ∷ rest) =
      let expected = (now + 2 ^ 64 - transfer % 2 ^ 64) % 2 ^ 64 in
      let (t, handed) = receive_rounds expected s.peer_id a.no_frame false a.frames s.stats in
      let (ss', later) = cyclic_net_receive now transfer ss rest in
      (record s { stats = t } ∷ ss', elim handed [ none ↦ later | some f ↦ f ∷ later ])

-- `cyclic_net_transmit`: whether a frame is sent, over the size of its header; the last argument but one
-- tells whether a buffer is free, which is asked only without copies.
unfoldable pub transmit_allowed : ℕ → ℕ → ℕ → Bool → Bool → Bool
transmit_allowed header tx_buf_size len zero_copy done =
    ltb (add32 len header) tx_buf_size && (not zero_copy || done)

-- `struct tsn_task_params`, as far as the periods go.
pub record Periods : Type 0 where
  pub task_period_ns : ℕ
  pub transfer_time_ns : ℕ
  pub task_period_offset_ns : ℕ

unfoldable pub cyclic_task_set_period : Bool → ℕ → ℕ → Periods
cyclic_task_set_period is_controller period_ns offset =
    let transfer = mul32 (add32 offset 1) period_ns / 2 in
    record {
      task_period_ns = period_ns;
      transfer_time_ns = transfer;
      task_period_offset_ns = if is_controller then 0 else transfer;
    }

abbrev pub nsecs_per_sec : ℕ
nsecs_per_sec = 1000000000

-- The test of `cyclic_task_start`.
unfoldable pub cyclic_task_start_check : ℕ → Bool
cyclic_task_start_check period_ns =
    not (period_ns == 0 || not (nsecs_per_sec / period_ns * period_ns == nsecs_per_sec))

-- The latencies of a monitoring message: pairs of the maximum and the minimum.
abbrev pub Latencies : Type 0
Latencies = List (ℕ × ℕ)

abbrev pub no_latency : SocketStats → SocketStats
no_latency t = record t { traffic_latency_max = 0; traffic_latency_min = 2 ^ 32 - 1 }

-- The loop of `cyclic_task_get_monitoring` from the `i`-th socket on: the sockets and the latencies that
-- are written, at the indices from `i` on.
unfoldable pub get_monitoring : ℕ → ℕ → List Socket → List Socket × Latencies
get_monitoring num i [] = ([], [])
get_monitoring num i (s ∷ ss) =
    let (ss', ls) = get_monitoring num (i + 1) ss in
    let taken : Socket = record s { stats = no_latency s.stats } in
    let latency : ℕ × ℕ = (s.stats.traffic_latency_max, s.stats.traffic_latency_min) in
    if leb num i then (taken ∷ ss, latency ∷ []) else (taken ∷ ss', latency ∷ ls)

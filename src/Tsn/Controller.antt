-- ===== src/Tsn/Controller.antt =====
-- tsn/motor/controller.c: the controller of the motors of several devices. The control strategies and
-- the motors that they keep are a parameter; the command client and the button are inputs of a pass.
pub mod States
pub mod Messages
pub mod Tests
use rtos_apps.Base.{
  ℕ, zero, suc, ◌+◌, ◌-◌, ◌*◌, ◌/◌, ◌%◌, ◌^◌, Bool, true, false, ◌&&◌, ◌||◌, not, Option, none,
  some, List, [], ◌∷◌, ◌++◌, map, length, take, get_elem?, ltb, leb, ◌==◌, if◌then◌else◌, add32,
}
use rtos_apps.Base.Int.{ℤ, pos, negsuc}

pub data SmController : Type 0 where
  control io_device_missing standby : SmController

-- `struct controller_stats`, less the two unused differences of positions.
pub record ControllerStats : Type 0 where
  pub pending : Bool
  pub state : SmController
  pub err_msg_id : ℕ
  pub err_invalid_len_received : ℕ
  pub err_src_id : ℕ
  pub err_motor_id : ℕ
  pub err_strat_loop : ℕ
  pub err_strat_next : ℕ
  pub sm_control : ℕ
  pub sm_io_device_missing : ℕ
  pub sm_standby : ℕ

-- `motors` holds the keys under which the strategy knows the motors in use.
pub record ControlledIoDevice : Type 0 where
  pub id : ℕ
  pub connected : Bool
  pub motors : List ℕ

-- `cmd_client` tells whether there is a command client.
pub record ControllerCtx : Type 0 where
  pub state : SmController
  pub io_devices : List ControlledIoDevice
  pub stats : ControllerStats
  pub stats_snap : ControllerStats
  pub restart_delay : ℤ
  pub msg_pending : Bool
  pub cmd_client : Bool
  pub stopped : Bool
  pub control_error : Bool
  pub task_period_ns : ℕ

-- The functions of the control strategies on a state `S`; `state_machine` also tells whether the
-- error callback was called. `F` are the currents and `G` the feedback of a motor.
pub record Strategy {ℓ} (S F G : Type ℓ) : Type ℓ where
  pub next_strategy : S → S
  pub previous_strategy : S → S
  pub set_strategy_stop : S → S
  pub reset_strategy : S → S
  pub state_machine : S → S × Bool
  pub reset_iq : S → S
  pub get_iq : ℕ → S → F
  pub set_feedback : ℕ → G → S → S
  pub stats_dump : S → S

pub data CmdState : Type 0 where
  cmd_go cmd_stop : CmdState

-- What a pass meets: the button's queue (true for a press), the command, the count of schedules, and
-- whether the asynchronous calls are queued.
pub record PassInput : Type 0 where
  pub events : List Bool
  pub command : CmdState
  pub sched : ℕ
  pub async_monitoring : Bool
  pub async_stats : Bool

pub record MsgEntry {ℓ} (F : Type ℓ) : Type ℓ where
  pub io_device_id : ℕ
  pub motor_id : ℕ
  pub iq_req : F

-- The message that `controller_send` sends; `apply` is the action APPLY_IQ, not HOLD. The entry
-- of a device without motors is not written, `none`.
pub record SetIq {ℓ} (F : Type ℓ) : Type ℓ where
  pub num_msg : ℕ
  pub apply : Bool
  pub entries : List (Option (MsgEntry F))

abbrev pub nsecs_per_msec : ℕ
nsecs_per_msec = 1000000

abbrev pub restart_delay_ms : ℕ
restart_delay_ms = 2000

abbrev pub int32_max : ℕ
int32_max = 2147483647

abbrev pub restart : ControllerCtx → ℤ
restart ctx = pos (restart_delay_ms * nsecs_per_msec / ctx.task_period_ns)

-- `x--` on an `int`.
abbrev pub pred_ℤ : ℤ → ℤ
pred_ℤ (pos zero) = negsuc 0
pred_ℤ (pos (suc n)) = pos n
pred_ℤ (negsuc n) = negsuc (n + 1)

abbrev pub is_zero : ℤ → Bool
is_zero (pos zero) = true
is_zero (pos (suc n)) = false
is_zero (negsuc n) = false

abbrev pub is_missing : SmController → Bool
is_missing control = false
is_missing io_device_missing = true
is_missing standby = false

abbrev pub count_connected : List ControlledIoDevice → ℕ
count_connected [] = 0
count_connected (d ∷ ds) = (if d.connected then 1 else 0) + count_connected ds

unfoldable pub check_all_io_devices_connected : ControllerCtx → Bool
check_all_io_devices_connected ctx = count_connected ctx.io_devices == length ctx.io_devices

abbrev pub handle : ControlledIoDevice → ControlledIoDevice
handle d = record d { connected = false }

abbrev motors_at : List ControlledIoDevice → ℕ → List ℕ
motors_at [] i = []
motors_at (d ∷ ds) zero = d.motors
motors_at (d ∷ ds) (suc i) = motors_at ds i

-- The queue is emptied.
unfoldable pub button_press_event_check : List Bool → Bool
button_press_event_check [] = false
button_press_event_check (pressed ∷ es) = pressed || button_press_event_check es

unfoldable pub controller_set_state : ControllerCtx → SmController → ControllerCtx
controller_set_state ctx s = record ctx { state = s }

unfoldable pub controller_stats_dump : Bool → ControllerCtx → ControllerCtx
controller_stats_dump queued ctx = if ctx.stats_snap.pending then ctx else record ctx {
  stats = record ctx.stats { state = ctx.state };
  stats_snap = record ctx.stats { state = ctx.state; pending = queued };
}

unfoldable pub controller_monitoring_send : Bool → ControllerCtx → ControllerCtx
controller_monitoring_send queued ctx =
    if ctx.msg_pending then ctx else record ctx { msg_pending = queued }

-- The ends of the asynchronous calls: `controller_stats_print` and `__controller_monitoring_send`.
unfoldable pub controller_stats_print : ControllerCtx → ControllerCtx
controller_stats_print ctx = record ctx { stats_snap = record ctx.stats_snap { pending = false } }

unfoldable pub controller_monitoring_sent : ControllerCtx → ControllerCtx
controller_monitoring_sent ctx = record ctx { msg_pending = false }

-- The search keeps the last device with the id, as an index.
unfoldable pub dev_id_to_io_device_ctx : ℕ → ℕ → List ControlledIoDevice → Option ℕ
dev_id_to_io_device_ctx id i [] = none
dev_id_to_io_device_ctx id i (d ∷ ds) = elim (dev_id_to_io_device_ctx id (i + 1) ds) [
  | some j ↦ some j
  | none ↦ if id == d.id then some i else none
]

module _ {ℓ} {S F G : Type ℓ} (st : Strategy S F G) where
  -- The command client's part of `controller_state_control`.
  unfoldable pub controller_command : CmdState → ControllerCtx → S → ControllerCtx × S
  controller_command cmd ctx s =
      if ctx.cmd_client
      then (elim cmd [
        | cmd_stop ↦
            if ctx.stopped
            then (ctx, s)
            else (record ctx { stopped = true }, st.set_strategy_stop s)
        | cmd_go ↦
            if ctx.stopped
            then (record ctx { stopped = false }, st.previous_strategy s)
            else (ctx, s)
      ])
      else (ctx, s)

  -- The state machine of the strategy, whose error callback sets `control_error`.
  unfoldable pub controller_strategy : ControllerCtx → S → ControllerCtx × S
  unfolding controller_set_state
  controller_strategy ctx s =
      let (s', err) = st.state_machine s in
      if ctx.control_error || err
      then (
        controller_set_state
            (record ctx {
              control_error = false;
              stats = record ctx.stats { err_strat_loop = add32 ctx.stats.err_strat_loop 1 };
            })
            standby,
        s',
      )
      else (ctx, s')

  unfoldable pub controller_state_control : PassInput → ControllerCtx → S → ControllerCtx × S
  unfolding controller_command controller_strategy controller_set_state button_press_event_check
      check_all_io_devices_connected
  controller_state_control inp ctx s =
      let pressed = button_press_event_check inp.events && not ctx.stopped in
      let s' = if pressed then st.next_strategy s else s in
      let (ctx', s'') = controller_command inp.command ctx s' in
      if not (check_all_io_devices_connected ctx)
      then (record (controller_set_state ctx io_device_missing) { restart_delay = restart ctx }, s')
      else controller_strategy ctx' s''

  unfoldable pub controller_state_io_device_missing :
      PassInput → ControllerCtx → S → ControllerCtx × S
  unfolding controller_set_state button_press_event_check check_all_io_devices_connected
  controller_state_io_device_missing inp ctx s =
      let pressed = button_press_event_check inp.events && not ctx.stopped in
      let s' = if pressed then st.next_strategy s else s in
      let ctx' = record ctx { restart_delay = pred_ℤ ctx.restart_delay } in
      if check_all_io_devices_connected ctx
      then (if is_zero ctx.restart_delay
          then (controller_set_state ctx' control, st.reset_strategy s')
          else (ctx', s'))
      else (record ctx { restart_delay = restart ctx }, s')

  unfoldable pub controller_state_standby : PassInput → ControllerCtx → S → ControllerCtx × S
  unfolding controller_set_state button_press_event_check
  controller_state_standby inp ctx s =
      if button_press_event_check inp.events
      then (controller_set_state ctx control, st.reset_strategy s)
      else (ctx, s)

  unfoldable pub run_controller_state : PassInput → ControllerCtx → S → ControllerCtx × S
  unfolding controller_state_control controller_state_io_device_missing controller_state_standby
  run_controller_state inp ctx s = elim ctx.state [
    | control ↦
        let (c, s') = controller_state_control inp ctx s in
        (record c { stats = record c.stats { sm_control = add32 c.stats.sm_control 1 } }, s')
    | io_device_missing ↦
        let (c, s') = controller_state_io_device_missing inp ctx s in
        (
          record c {
            stats = record c.stats { sm_io_device_missing = add32 c.stats.sm_io_device_missing 1 };
          },
          s',
        )
    | standby ↦
        let (c, s') = controller_state_standby inp ctx s in
        (record c { stats = record c.stats { sm_standby = add32 c.stats.sm_standby 1 } }, s')
  ]

  -- The entries for one device: a motor's id is its index, but an entry stands at its device's index, so that
  -- the last motor of a device overwrites those before it.
  abbrev device_entry : ℕ → ℕ → List ℕ → S → Option (MsgEntry F)
  device_entry id j [] s = none
  device_entry id j (k ∷ ks) s = elim (device_entry id (j + 1) ks s) [
    | some e ↦ some e
    | none ↦ some (record { io_device_id = id; motor_id = j; iq_req = st.get_iq k s })
  ]

  unfoldable pub controller_send : ControllerCtx → S → SetIq F
  controller_send ctx s = record {
    num_msg = length ctx.io_devices;
    apply = not (is_missing ctx.state);
    entries = map (λ d. device_entry d.id 0 d.motors s) ctx.io_devices;
  }

  abbrev pub is_due : ℕ → ℕ → Bool
  is_due sched period = sched % period == 0

  -- The end of a pass: the devices are marked as handled and the statistics are sent. `stat_period` is
  -- `num_sched_stats`, which the source computes in floating point.
  unfoldable pub controller_pass_end : ℕ → PassInput → ControllerCtx → S → ControllerCtx × S
  unfolding controller_monitoring_send controller_stats_dump
  controller_pass_end stat_period inp ctx s =
      let handled = record ctx { io_devices = map handle ctx.io_devices } in
      let num_sched_monitoring = 1000 * (nsecs_per_msec / ctx.task_period_ns) in
      let monitored =
        if is_due inp.sched num_sched_monitoring
        then controller_monitoring_send inp.async_monitoring handled
        else handled in
      if is_due inp.sched stat_period
      then (controller_stats_dump inp.async_stats monitored, st.stats_dump s)
      else (monitored, s)

  -- `controller_loop`, with the message that it sends.
  unfoldable pub controller_loop : ℕ → PassInput → ControllerCtx → S → ControllerCtx × S × SetIq F
  unfolding run_controller_state controller_send controller_pass_end
  controller_loop stat_period inp ctx s =
      let (ran, s') = run_controller_state inp ctx (st.reset_iq s) in
      let sent = controller_send ran s' in
      let (ended, s'') = controller_pass_end stat_period inp ran s' in (ended, s'', sent)

  -- The loop over the motors' feedback: the strategy and the count of wrong motor ids.
  unfoldable pub receive_feedback : List ℕ → List (ℕ × G) → S → ℕ → S × ℕ
  receive_feedback motors [] s n = (s, n)
  receive_feedback motors ((motor_id, fb) ∷ es) s n = elim (get_elem? motors motor_id) [
    | none ↦ receive_feedback motors es s (add32 n 1)
    | some k ↦ receive_feedback motors es (st.set_feedback k fb s) n
  ]

  abbrev pub connect : List ControlledIoDevice → ℕ → List ControlledIoDevice
  connect [] i = []
  connect (d ∷ ds) zero = record d { connected = true } ∷ ds
  connect (d ∷ ds) (suc i) = d ∷ connect ds i

  -- `controller_net_receive`: `is_feedback` is `msg_id == MSG_FEEDBACK`, `len_ok` the test of the length.
  unfoldable pub controller_net_receive :
      Bool → Bool → ℕ → Bool → List (ℕ × G) → ControllerCtx → S → ControllerCtx × S
  unfolding dev_id_to_io_device_ctx receive_feedback
  controller_net_receive is_feedback len_ok src_id status_ok es ctx s =
      let t = ctx.stats in
      if is_feedback
      then (if len_ok
          then (elim (dev_id_to_io_device_ctx src_id 0 ctx.io_devices) [
            | none ↦ (record ctx { stats = record t { err_src_id = add32 t.err_src_id 1 } }, s)
            | some i ↦
                let (s', n) = receive_feedback (motors_at ctx.io_devices i) es s t.err_motor_id in
                (
                  record ctx {
                    io_devices = if status_ok then connect ctx.io_devices i else ctx.io_devices;
                    stats = record t { err_motor_id = n };
                  },
                  s',
                )
          ])
          else (
            (if t.err_invalid_len_received == int32_max then ctx else record ctx {
              stats = record t { err_invalid_len_received = add32 t.err_invalid_len_received 1 };
            }),
            s,
          ))
      else (record ctx { stats = record t { err_msg_id = add32 t.err_msg_id 1 } }, s)

-- ===== src/Tsn/IoDevice.antt =====
-- tsn/motor/io_device.c: the device that drives motors under a remote controller. The motor control
-- library is a parameter, and so are the floating-point numbers. The motors in use are a list, whose
-- length is the source's `num_motors`.
pub mod Safety
pub mod Counters
mod Tests
use rtos_apps.Base.{
  ℕ, zero, suc, ◌+◌, ◌*◌, ◌/◌, ◌%◌, ◌^◌, ◌<◌, Bool, true, false, ◌&&◌, ◌||◌, not, Option, none,
  some, List, [], ◌∷◌, length, take, get_elem?, set, ltb, leb, ◌==◌, if◌then◌else◌, add32, sub32,
}

pub data SmIoDevice : Type 0 where
  wait_for_input init stay_index remote_control freerunning motor_fault : SmIoDevice

-- The numbers of the enumeration.
abbrev pub sm_number : SmIoDevice → ℕ
sm_number wait_for_input = 0
sm_number init = 1
sm_number stay_index = 2
sm_number remote_control = 3
sm_number freerunning = 4
sm_number motor_fault = 5

abbrev pub in_state : SmIoDevice → SmIoDevice → Bool
in_state s t = sm_number s == sm_number t

abbrev pub hold : ℕ
hold = 0

abbrev pub apply_iq : ℕ
apply_iq = 1

-- The two bits of `status`, the only ones that the code sets or clears.
pub record Status : Type 0 where
  pub err_fault : Bool
  pub err_network : Bool

abbrev pub no_error : Status → Bool
no_error s = not s.err_fault && not s.err_network

pub record StatsIoDevice : Type 0 where
  pub pending : Bool
  pub state : SmIoDevice
  pub err_msg_id : ℕ
  pub err_cmd_recv : ℕ
  pub err_invalid_len_received : ℕ

module _ {ℓ} (F : Type ℓ) where
  pub record MotorControlled : Type ℓ where
    pub motor_id : ℕ
    pub motor_offset : F
    pub iq_req : F

  -- An entry of `struct msg_set_iq`, and the message.
  pub record MsgIq : Type ℓ where
    pub io_device_id : ℕ
    pub motor_id : ℕ
    pub iq_req : F

  pub record MsgSetIq : Type ℓ where
    pub num_msg : ℕ
    pub action : ℕ
    pub msg_array : List MsgIq

  pub record IoDeviceCtx : Type ℓ where
    pub id : ℕ
    pub motors_controlled : List MotorControlled
    pub state : SmIoDevice
    pub status : Status
    pub stats : StatsIoDevice
    pub stats_snap : StatsIoDevice
    pub stay_index_delay : ℕ
    pub offset_reached : Bool
    pub control_action : ℕ
    pub msg_pending : Bool

  -- The motor control functions on a state `M` of all motors, by a motor's index, and the
  -- floating-point operations: `near a b` is `fabs(a + b) < POSITION_ACCURACY`.
  pub record Mcapi (M : Type ℓ) : Type ℓ where
    pub get_motor_state : ℕ → M → ℕ
    pub motor_initialized : ℕ → M → Bool
    pub position : ℕ → M → F
    pub slowloop : ℕ → M → M
    pub set_position : ℕ → F → M → M
    pub set_iq_req : ℕ → F → M → M
    pub set_closed_current_loop : ℕ → Bool → M → M
    pub zero_f : F
    pub negate : F → F
    pub near : F → F → Bool

-- What a pass of the loop meets: the button's event if one is queued, the timer's status, the count
-- of schedules, the period, and whether the queue of the asynchronous calls has room.
pub record LoopInput : Type 0 where
  pub button_pressed : Bool
  pub timer_ok : Bool
  pub sched : ℕ
  pub task_period_ns : ℕ
  pub async_monitoring : Bool
  pub async_stats : Bool

abbrev pub stat_period_sec : ℕ
stat_period_sec = 2

abbrev pub nsecs_per_sec : ℕ
nsecs_per_sec = 1000000000

abbrev pub nsecs_per_msec : ℕ
nsecs_per_msec = 1000000

module _ {ℓ} {F : Type ℓ} where
  unfoldable pub io_device_set_state : IoDeviceCtx F → SmIoDevice → IoDeviceCtx F
  io_device_set_state ctx s = record ctx { state = s }

  unfoldable pub io_device_stats_dump : Bool → IoDeviceCtx F → IoDeviceCtx F
  io_device_stats_dump queued ctx = if ctx.stats_snap.pending then ctx else record ctx {
    stats = record ctx.stats { state = ctx.state };
    stats_snap = record ctx.stats { state = ctx.state; pending = queued };
  }

  unfoldable pub io_device_monitoring_send : Bool → IoDeviceCtx F → IoDeviceCtx F
  io_device_monitoring_send queued ctx =
      if ctx.msg_pending then ctx else record ctx { msg_pending = queued }

  -- The ends of the asynchronous calls: `io_device_stats_print` and `__io_device_monitoring_send`.
  unfoldable pub io_device_stats_print : IoDeviceCtx F → IoDeviceCtx F
  io_device_stats_print ctx = record ctx { stats_snap = record ctx.stats_snap { pending = false } }

  unfoldable pub io_device_monitoring_sent : IoDeviceCtx F → IoDeviceCtx F
  io_device_monitoring_sent ctx = record ctx { msg_pending = false }

  abbrev pub put_iq : List (MotorControlled F) → ℕ → F → List (MotorControlled F)
  put_iq [] i iq = []
  put_iq (m ∷ ms) zero iq = record m { iq_req = iq } ∷ ms
  put_iq (m ∷ ms) (suc i) iq = m ∷ put_iq ms i iq

  -- The loop over the entries of a message: the motors and `num_matches`.
  unfoldable pub receive_iqs :
      ℕ → List (MsgIq F) → List (MotorControlled F) → ℕ → List (MotorControlled F) × ℕ
  receive_iqs id [] ms n = (ms, n)
  receive_iqs id (e ∷ es) ms n =
      let mine = e.io_device_id == id && ltb e.motor_id (length ms) in
      receive_iqs id es (if mine then put_iq ms e.motor_id e.iq_req else ms)
        (if mine then n + 1 else n)

  -- `io_device_net_receive`: `is_set_iq` is `msg_id == MSG_SET_IQ`, `len_ok` the test of the length.
  unfoldable pub io_device_net_receive : Bool → Bool → MsgSetIq F → IoDeviceCtx F → IoDeviceCtx F
  unfolding receive_iqs
  io_device_net_receive is_set_iq len_ok msg ctx =
      let (ms, num_matches) =
        receive_iqs ctx.id (take msg.num_msg msg.msg_array) ctx.motors_controlled 0 in
      let ctx' = record ctx { motors_controlled = ms; control_action = msg.action } in
      let snap = ctx.stats_snap in
      let failed = record ctx.status { err_network = true } in
      if is_set_iq
      then (if len_ok
          then (if num_matches == length ctx.motors_controlled
              then record ctx' { status = record ctx.status { err_network = false } }
              else record ctx' {
                stats_snap = record snap { err_cmd_recv = add32 snap.err_cmd_recv 1 };
                status = failed;
              })
          else record ctx {
            stats_snap = record snap {
              err_invalid_len_received = add32 snap.err_invalid_len_received 1;
            };
            status = failed;
          })
      else record ctx {
        stats_snap = record snap { err_msg_id = add32 snap.err_msg_id 1 };
        status = failed;
      }

  module _ {M : Type ℓ} (mc : Mcapi F M) where
    -- A loop over the motors from the `i`-th on.
    abbrev pub each : (ℕ → MotorControlled F → M → M) → ℕ → List (MotorControlled F) → M → M
    each f i [] m = m
    each f i (x ∷ xs) m = each f (i + 1) xs (f i x m)

    pub init_loop : ℕ → List (MotorControlled F) → ℕ → M → ℕ × M
    init_loop i [] n m = (n, m)
    init_loop i (x ∷ xs) n m =
        init_loop (i + 1) xs (if mc.motor_initialized i m then n + 1 else n) (mc.slowloop i m)

    unfoldable pub io_device_state_init : ℕ → IoDeviceCtx F → M → IoDeviceCtx F × M
    unfolding init_loop
    io_device_state_init task_period_ns ctx m =
        let (n, m') = init_loop 0 ctx.motors_controlled 0 m in
        if n == length ctx.motors_controlled
        then (
          record ctx {
            state = stay_index;
            stay_index_delay = 2000 * (nsecs_per_msec / task_period_ns) % 2 ^ 32;
            offset_reached = false;
          },
          m',
        )
        else (ctx, m')

    pub index_loop : ℕ → List (MotorControlled F) → ℕ → M → ℕ × M
    index_loop i [] n m = (n, m)
    index_loop i (x ∷ xs) n m =
        let m' = mc.slowloop i (mc.set_position i (mc.negate x.motor_offset) m) in
        index_loop (i + 1) xs (if mc.near (mc.position i m') x.motor_offset then n + 1 else n) m'

    unfoldable pub io_device_stay_index : IoDeviceCtx F → M → IoDeviceCtx F × M
    unfolding index_loop
    io_device_stay_index ctx m =
        let (n, m') = index_loop 0 ctx.motors_controlled 0 m in
        if n == length ctx.motors_controlled
        then (
          record ctx {
            stay_index_delay = sub32 ctx.stay_index_delay 1;
            offset_reached = if ctx.stay_index_delay == 0 then true else ctx.offset_reached;
          },
          m',
        )
        else (ctx, m')

    abbrev pub stop_iqs : List (MotorControlled F) → List (MotorControlled F)
    stop_iqs [] = []
    stop_iqs (x ∷ xs) = record x { iq_req = mc.zero_f } ∷ stop_iqs xs

    unfoldable pub io_device_state_freerunning : IoDeviceCtx F → M → IoDeviceCtx F × M
    io_device_state_freerunning ctx m = (
      record ctx { motors_controlled = stop_iqs ctx.motors_controlled },
      each (λ i x m. mc.set_iq_req i mc.zero_f (mc.set_closed_current_loop i false m)) 0
          ctx.motors_controlled m,
    )

    unfoldable pub io_device_state_remote_control : IoDeviceCtx F → M → M
    io_device_state_remote_control ctx m =
        each (λ i x m. mc.slowloop i (mc.set_iq_req i x.iq_req m)) 0 ctx.motors_controlled m

    unfoldable pub run_io_device_state : ℕ → IoDeviceCtx F → M → IoDeviceCtx F × M
    unfolding io_device_state_init io_device_stay_index io_device_state_freerunning
        io_device_state_remote_control
    run_io_device_state task_period_ns ctx m = elim ctx.state [
      | wait_for_input ↦ (ctx, m)
      | init ↦ io_device_state_init task_period_ns ctx m
      | stay_index ↦ io_device_stay_index ctx m
      | freerunning ↦ io_device_state_freerunning ctx m
      | remote_control ↦ (ctx, io_device_state_remote_control ctx m)
      | motor_fault ↦ (ctx, m)
    ]

    abbrev pub any_fault : ℕ → List (MotorControlled F) → M → Bool
    any_fault i [] m = false
    any_fault i (x ∷ xs) m = mc.get_motor_state i m == 0 || any_fault (i + 1) xs m

    -- The head of `io_device_loop`: the state that is run, from the button, the motors and the status.
    unfoldable pub io_device_press : Bool → IoDeviceCtx F → IoDeviceCtx F
    unfolding io_device_set_state
    io_device_press pressed ctx =
        if pressed && in_state ctx.state wait_for_input then io_device_set_state ctx init else ctx

    unfoldable pub io_device_check_fault : M → IoDeviceCtx F → IoDeviceCtx F
    unfolding io_device_set_state
    io_device_check_fault m ctx =
        if any_fault 0 ctx.motors_controlled m
        then io_device_set_state (record ctx { status = record ctx.status { err_fault = true } })
            motor_fault
        else ctx

    unfoldable pub io_device_switch : IoDeviceCtx F → IoDeviceCtx F
    unfolding io_device_set_state
    io_device_switch ctx =
        if no_error ctx.status && ctx.control_action == apply_iq
        then (if in_state ctx.state freerunning
            then io_device_set_state ctx remote_control
            else if in_state ctx.state stay_index && ctx.offset_reached
            then io_device_set_state ctx remote_control
            else ctx)
        else if in_state ctx.state remote_control
        then io_device_set_state ctx freerunning
        else ctx

    abbrev pub is_due : ℕ → ℕ → Bool
    is_due sched period = sched % period == 0

    -- The dumps at the end of a pass.
    unfoldable pub io_device_dumps : LoopInput → IoDeviceCtx F → IoDeviceCtx F
    unfolding io_device_stats_dump io_device_monitoring_send
    io_device_dumps inp ctx =
        let num_sched_stats = stat_period_sec * (nsecs_per_sec / inp.task_period_ns) in
        let num_sched_monitoring = 1000 * (nsecs_per_msec / inp.task_period_ns) in
        let ctx' =
          if is_due inp.sched num_sched_monitoring
          then io_device_monitoring_send inp.async_monitoring ctx
          else ctx in
        if is_due inp.sched num_sched_stats then io_device_stats_dump inp.async_stats ctx' else ctx'

    -- `io_device_loop`; the last component tells whether feedback is sent.
    unfoldable pub io_device_loop : LoopInput → IoDeviceCtx F → M → IoDeviceCtx F × M × Bool
    unfolding io_device_press io_device_check_fault io_device_switch io_device_dumps
        run_io_device_state
    io_device_loop inp ctx m =
        let chosen =
          io_device_switch (io_device_check_fault m (io_device_press inp.button_pressed ctx)) in
        let m' =
          each (λ i x m. mc.set_closed_current_loop i inp.timer_ok m) 0 ctx.motors_controlled m in
        let (ran, m'') = run_io_device_state inp.task_period_ns chosen m' in
        let sent = leb 2 (sm_number ran.state) && ran.offset_reached in
        let dumped = io_device_dumps inp ran in
        (record dumped { status = record dumped.status { err_network = true } }, m'', sent)

-- ===== src/Tsn/IoDevice/Tests.antt =====
-- A device with one motor, whose numbers are ℕ and whose motor's state is the last current set.
use rtos_apps.Base.{ℕ, ◌≡◌, ◌↔◌, refl, true, false, [], ◌∷◌, length, take, ◌==◌, if◌then◌else◌}
use rtos_apps.Tsn.IoDevice.{
  StatsIoDevice, freerunning, remote_control, wait_for_input, motor_fault, MsgSetIq, IoDeviceCtx,
  Mcapi, LoopInput, no_error, apply_iq, any_fault, io_device_net_receive, io_device_loop,
  io_device_stats_dump, io_device_switch, io_device_check_fault, io_device_press,
  io_device_set_state, run_io_device_state, io_device_dumps,
}
use rtos_apps.Tsn.IoDevice.Safety.{
  looped, received, done, next, loop_remote_control, fault-IsLatched, loop_latches, net_receive_lem,
  IsLatched, matches,
}
use rtos_apps.Tsn.IoDevice.Counters.{IsClear, dump_loses_errors}

-- The motor is in a fault when the current set is 99.
abbrev motor : Mcapi ℕ ℕ
motor = record {
  get_motor_state = λ i m. if m == 99 then 0 else 3;
  motor_initialized = λ i m. true;
  position = λ i m. 0;
  slowloop = λ i m. m;
  set_position = λ i x m. m;
  set_iq_req = λ i x m. x;
  set_closed_current_loop = λ i b m. m;
  zero_f = 0;
  negate = λ x. x;
  near = λ a b. true;
}

abbrev no_stats : StatsIoDevice
no_stats = record {
  pending = false;
  state = wait_for_input;
  err_msg_id = 0;
  err_cmd_recv = 0;
  err_invalid_len_received = 0;
}

abbrev waiting : IoDeviceCtx ℕ
waiting = record {
  id = 5;
  motors_controlled = (record { motor_id = 0; motor_offset = 0; iq_req = 0 }) ∷ [];
  state = wait_for_input;
  status = record { err_fault = false; err_network = false };
  stats = no_stats;
  stats_snap = no_stats;
  stay_index_delay = 0;
  offset_reached = false;
  control_action = 0;
  msg_pending = false;
}

abbrev free : IoDeviceCtx ℕ
free = record waiting { state = freerunning; offset_reached = true; control_action = 1 }

abbrev pass : LoopInput
pass = record {
  button_pressed = false;
  timer_ok = true;
  sched = 1;
  task_period_ns = 250000;
  async_monitoring = true;
  async_stats = true;
}

abbrev command : MsgSetIq ℕ
command = record {
  num_msg = 2;
  action = apply_iq;
  msg_array =
      (record { io_device_id = 4; motor_id = 0; iq_req = 8 })
      ∷ (record { io_device_id = 5; motor_id = 0; iq_req = 7 })
      ∷ [];
}

driven : (io_device_loop motor pass free 3).0.state ≡ remote_control
unfolding io_device_loop io_device_switch io_device_check_fault io_device_press io_device_set_state
    run_io_device_state io_device_dumps
driven = refl

loop_remote_control_example :
    (no_error free.status ≡ true)
    × (free.control_action ≡ apply_iq)
    × (any_fault motor 0 free.motors_controlled 3 ≡ false)
loop_remote_control_example = loop_remote_control motor pass free 3 driven

loop_latches_run : IsLatched motor (io_device_loop motor pass free 99).0
loop_latches_run = loop_latches motor pass free 99 refl

abbrev failed : IoDeviceCtx ℕ
failed = record free {
  state = motor_fault;
  status = record { err_fault = true; err_network = true };
}

abbrev after_command : IoDeviceCtx ℕ
after_command = io_device_net_receive true true command failed

fault-IsLatched_example : IsLatched motor (io_device_loop motor pass after_command 3).0
fault-IsLatched_example =
    fault-IsLatched motor
      (next (received true true command failed) (next (looped pass after_command 3) (done _)))
      (refl, refl)

net_receive_lem_run :
    let ctx' = io_device_net_receive true true command free in
    ((ctx'.status.err_network ≡ false)
      ↔ ((true ≡ true) × (true ≡ true) × (matches 5 1 (take 2 command.msg_array) ≡ 1)))
    × (ctx'.status.err_fault ≡ false)
    × (length ctx'.motors_controlled ≡ 1)
net_receive_lem_run = net_receive_lem true true command free

abbrev after_wrong : IoDeviceCtx ℕ
after_wrong = io_device_net_receive false true command waiting

counted : after_wrong.stats_snap.err_msg_id ≡ 1
unfolding io_device_net_receive
counted = refl

not_pending : after_wrong.stats_snap.pending ≡ false
unfolding io_device_net_receive
not_pending = refl

dump_loses_errors_example : IsClear (io_device_stats_dump true after_wrong).stats_snap
dump_loses_errors_example =
    dump_loses_errors motor (next (received false true command waiting) (done after_wrong))
      (refl, refl, refl) true not_pending

-- ===== src/Tsn/Controller/Tests.antt =====
-- A controller of one device with one motor, over a strategy whose state counts its resets.
use rtos_apps.Base.{
  not, ◌&&◌, ◌||◌, if◌then◌else◌, ℕ, ◌+◌, ◌≤◌, ◌≡◌, ◌≢◌, ◌↔◌, inr, refl, arith, true, false, some,
  none, [], ◌∷◌, get_elem?,
}
use rtos_apps.Base.Int.{pos}
use rtos_apps.Tsn.Controller.{
  control, io_device_missing, standby, ControllerCtx, ControllerStats, ControlledIoDevice, Strategy,
  PassInput, cmd_go, check_all_io_devices_connected, button_press_event_check, run_controller_state,
  controller_loop, controller_net_receive, is_zero, dev_id_to_io_device_ctx, int32_max,
  controller_state_io_device_missing, controller_state_control, controller_set_state,
  controller_strategy, controller_command, controller_pass_end, controller_monitoring_send,
  controller_stats_dump, receive_feedback,
}
use rtos_apps.Tsn.Controller.States.{
  Passes, rest, message, pass, run_moves, run_counts, passes_wait, passes_restart,
}
use rtos_apps.Tsn.Controller.Messages.{
  silence_is_missing, loop_action, receive_rejected, invalid_len_bound, dev_id_lem,
}

abbrev strategy : Strategy ℕ ℕ ℕ
strategy = record {
  next_strategy = λ s. s;
  previous_strategy = λ s. s;
  set_strategy_stop = λ s. s;
  reset_strategy = λ s. s + 1;
  state_machine = λ s. (s, false);
  reset_iq = λ s. s;
  get_iq = λ k s. s;
  set_feedback = λ k fb s. s;
  stats_dump = λ s. s;
}

abbrev no_stats : ControllerStats
no_stats = record {
  pending = false;
  state = control;
  err_msg_id = 0;
  err_invalid_len_received = 0;
  err_src_id = 0;
  err_motor_id = 0;
  err_strat_loop = 0;
  err_strat_next = 0;
  sm_control = 0;
  sm_io_device_missing = 0;
  sm_standby = 0;
}

abbrev pub running : ControllerCtx
running = record {
  state = control;
  io_devices = (record { id = 4; connected = true; motors = 0 ∷ [] }) ∷ [];
  stats = no_stats;
  stats_snap = no_stats;
  restart_delay = pos 0;
  msg_pending = false;
  cmd_client = false;
  stopped = false;
  control_error = false;
  task_period_ns = 250000;
}

abbrev waiting : ControllerCtx
waiting = record running { state = io_device_missing; restart_delay = pos 1 }

abbrev quiet : PassInput
quiet = record {
  events = [];
  command = cmd_go;
  sched = 1;
  async_monitoring = true;
  async_stats = true;
}

abbrev waited : ControllerCtx
waited = (controller_loop strategy 8 quiet waiting 0).0

abbrev reconnected : ControllerCtx
reconnected = (controller_net_receive strategy true true 4 true [] waited 0).0

abbrev restarted : ControllerCtx
restarted = (controller_loop strategy 8 quiet reconnected 0).0

connected : check_all_io_devices_connected waiting ≡ true
unfolding check_all_io_devices_connected
connected = refl

connected_again : check_all_io_devices_connected reconnected ≡ true
unfolding check_all_io_devices_connected controller_net_receive dev_id_to_io_device_ctx
    receive_feedback controller_loop controller_pass_end controller_monitoring_send
    controller_stats_dump run_controller_state controller_state_io_device_missing
    controller_set_state button_press_event_check
connected_again = refl

first_pass : Passes strategy 1 waiting waited
first_pass = pass waiting 0 8 quiet connected (rest waited)

second_pass : Passes strategy 1 waited restarted
second_pass =
    message waited 0 true true 4 true []
      (pass reconnected 0 8 quiet connected_again (rest restarted))

passes_wait_run : (waited.state ≡ io_device_missing) × (waited.restart_delay ≡ pos 0)
passes_wait_run = passes_wait strategy 0 first_pass refl refl

passes_restart_example : restarted.state ≡ control
passes_restart_example = passes_restart strategy first_pass second_pass refl refl

run_moves_example :
    let after = (run_controller_state strategy quiet running 0).0.state in
    let pressed = button_press_event_check quiet.events && not running.stopped in
    let chosen = if pressed then strategy.next_strategy 0 else 0 in
    let ran = (controller_command strategy quiet.command running chosen).1 in
    (running.state ≡ control
      → ((after ≡ io_device_missing) ↔ (check_all_io_devices_connected running ≡ false))
        × ((after ≡ standby) ↔ (
            (check_all_io_devices_connected running ≡ true)
            × (running.control_error || (strategy.state_machine ran).1 ≡ true))))
    × (running.state ≡ io_device_missing
        → ((after ≡ control) ↔ (
            (check_all_io_devices_connected running ≡ true)
            × (is_zero running.restart_delay ≡ true)))
          × (after ≢ standby))
    × (running.state ≡ standby
        → ((after ≡ control) ↔ (button_press_event_check quiet.events ≡ true))
          × (after ≢ io_device_missing))
run_moves_example = run_moves strategy quiet running 0

run_counts_run :
    let u = (run_controller_state strategy quiet running 0).0.stats in
    u.sm_control + u.sm_io_device_missing + u.sm_standby ≡ 1
run_counts_run = run_counts strategy quiet running 0 (omega arith) (omega arith) (omega arith)

still_running : (controller_loop strategy 8 quiet running 0).0.state ≡ control
unfolding check_all_io_devices_connected controller_loop controller_pass_end
    controller_monitoring_send controller_stats_dump run_controller_state controller_state_control
    controller_strategy controller_command button_press_event_check
still_running = refl

silence_is_missing_run :
    (controller_loop strategy 8 quiet (controller_loop strategy 8 quiet running 0).0 3).0.state
    ≡ io_device_missing
silence_is_missing_run =
    silence_is_missing strategy 8 8 quiet quiet running 0 3 (omega arith) still_running

loop_action_run :
    let (ctx', s', sent) = controller_loop strategy 8 quiet waiting 0 in
    ((sent.apply ≡ false) ↔ (ctx'.state ≡ io_device_missing)) × (sent.num_msg ≡ 1)
loop_action_run = loop_action strategy 8 quiet waiting 0

unknown : dev_id_to_io_device_ctx 9 0 running.io_devices ≡ none
unfolding dev_id_to_io_device_ctx
unknown = refl

receive_rejected_run :
    let r = controller_net_receive strategy true true 9 true [] running 3 in
    (r.0.io_devices ≡ running.io_devices) × (r.0.state ≡ running.state) × (r.1 ≡ 3)
receive_rejected_run = receive_rejected strategy true true 9 true [] running 3 (inr (inr unknown))

invalid_len_bound_run :
    (controller_net_receive strategy true false 4 true [] running
      3).0.stats.err_invalid_len_received
    ≤ int32_max
invalid_len_bound_run = invalid_len_bound strategy true false 4 true [] running 3 (omega arith)

device : dev_id_to_io_device_ctx 4 0 running.io_devices ≡ some 0
unfolding dev_id_to_io_device_ctx
device = refl

dev_id_lem_run :
    (j : ℕ) × (d : ControlledIoDevice) × (0 ≡ 0 + j)
    × (get_elem? running.io_devices j ≡ some d)
    × (d.id ≡ 4)
dev_id_lem_run = dev_id_lem 4 0 running.io_devices device

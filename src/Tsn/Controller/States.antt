-- ===== src/Tsn/Controller/States.antt =====
-- The states of tsn/motor/controller.c, the counters of passes, the restart and the stop by the command client.
use rtos_apps.Base.{
  ℕ, suc, ◌+◌, ◌-◌, ◌^◌, ◌≡◌, ◌≢◌, ◌↔◌, ◌∙◌, ap, arith, Bool, true, false, List, not, ◌&&◌, ◌||◌,
  if◌then◌else◌, ◌<◌,
}
use rtos_apps.Base.Int.{pos}
use rtos_apps.Tsn.Controller.{
  control, io_device_missing, standby, ControllerCtx, Strategy, PassInput, controller_command,
  controller_strategy, controller_state_control, controller_state_io_device_missing,
  controller_state_standby, run_controller_state, check_all_io_devices_connected,
  button_press_event_check, controller_set_state, controller_loop, controller_pass_end,
  controller_net_receive, controller_monitoring_send, controller_stats_dump, is_zero,
}

module _ {ℓ} {S F G : Type ℓ} (st : Strategy S F G) where
  -- A pass in control ends with a device missing exactly when one is not connected, and in standby exactly when all
  -- are connected and an error of the control is noted or the strategy's state machine fails; a device missing ends in
  -- control exactly when all are connected and the delay is over, and a standby exactly on a press;
  -- neither of these two becomes the other.
  pub run_moves :
      (inp : PassInput) (ctx : ControllerCtx) (s : S)
      → let after = (run_controller_state st inp ctx s).0.state in
        let pressed = button_press_event_check inp.events && not ctx.stopped in
        let chosen = if pressed then st.next_strategy s else s in
        let ran = (controller_command st inp.command ctx chosen).1 in
        (ctx.state ≡ control
          → ((after ≡ io_device_missing) ↔ (check_all_io_devices_connected ctx ≡ false))
            × ((after ≡ standby) ↔ (
                (check_all_io_devices_connected ctx ≡ true)
                × (ctx.control_error || (st.state_machine ran).1 ≡ true))))
        × (ctx.state ≡ io_device_missing
            → ((after ≡ control) ↔ (
                (check_all_io_devices_connected ctx ≡ true) × (is_zero ctx.restart_delay ≡ true)))
              × (after ≢ standby))
        × (ctx.state ≡ standby
            → ((after ≡ control) ↔ (button_press_event_check inp.events ≡ true))
              × (after ≢ io_device_missing))
  unfolding run_controller_state controller_state_control controller_state_io_device_missing
      controller_state_standby controller_set_state controller_strategy controller_command
  run_moves inp ctx s = (
    λ e. (
      (λ h. ground arith, λ h. ground arith),
      (λ h. (ground arith, ground arith), λ h. ground arith),
    ),
    λ e. ((λ h. (ground arith, ground arith), λ h. ground arith), λ h. ground arith),
    λ e. ((λ h. ground arith, λ h. ground arith), λ h. ground arith),
  )

  -- Each pass adds one to the sum of the three counters of passes, if none of them is at its end.
  pub run_counts :
      (inp : PassInput) (ctx : ControllerCtx) (s : S)
      → ctx.stats.sm_control < 2 ^ 32 - 1
      → ctx.stats.sm_io_device_missing < 2 ^ 32 - 1
      → ctx.stats.sm_standby < 2 ^ 32 - 1
      → let t = ctx.stats in
        let u = (run_controller_state st inp ctx s).0.stats in
        u.sm_control + u.sm_io_device_missing + u.sm_standby
        ≡ t.sm_control + t.sm_io_device_missing + t.sm_standby + 1
  unfolding run_controller_state controller_state_control controller_state_io_device_missing
      controller_state_standby controller_set_state controller_strategy controller_command
  run_counts inp ctx s a b c = ground arith

  -- The passes of the loop and the messages between them, where each pass begins with all devices
  -- connected; the number is that of the passes.
  pub data Passes : ℕ → ControllerCtx → ControllerCtx → Type ℓ where
    rest : (ctx : ControllerCtx) → Passes 0 ctx ctx
    message :
        {n : ℕ} {b : ControllerCtx} (ctx : ControllerCtx) (s : S) (is_feedback len_ok : Bool)
        (src_id : ℕ) (status_ok : Bool) (es : List (ℕ × G))
        → Passes n (controller_net_receive st is_feedback len_ok src_id status_ok es ctx s).0 b
        → Passes n ctx b
    pass :
        {n : ℕ} {b : ControllerCtx} (ctx : ControllerCtx) (s : S) (stat_period : ℕ)
        (inp : PassInput)
        → check_all_io_devices_connected ctx ≡ true
        → Passes n (controller_loop st stat_period inp ctx s).0 b
        → Passes (suc n) ctx b

  receive_keeps :
      (is_feedback len_ok : Bool) (src_id : ℕ) (status_ok : Bool) (es : List (ℕ × G))
      (ctx : ControllerCtx) (s : S)
      → let c = (controller_net_receive st is_feedback len_ok src_id status_ok es ctx s).0 in
        (c.state ≡ ctx.state) × (c.restart_delay ≡ ctx.restart_delay)
  unfolding controller_net_receive
  receive_keeps is_feedback len_ok src_id status_ok es ctx s = (ground arith, ground arith)

  pub end_keeps :
      (p : ℕ) (inp : PassInput) (ctx : ControllerCtx) (s : S)
      → let c = (controller_pass_end st p inp ctx s).0 in
        (c.state ≡ ctx.state) × (c.restart_delay ≡ ctx.restart_delay)
  unfolding controller_pass_end controller_monitoring_send controller_stats_dump
  end_keeps p inp ctx s = (ground arith, ground arith)

  -- A pass with all devices connected counts the delay down, and ends it at 0.
  run_waits :
      (inp : PassInput) (ctx : ControllerCtx) (s : S) (d : ℕ)
      → check_all_io_devices_connected ctx ≡ true
      → ctx.state ≡ io_device_missing
      → ctx.restart_delay ≡ pos (suc d)
      → let c = (run_controller_state st inp ctx s).0 in
        (c.state ≡ io_device_missing) × (c.restart_delay ≡ pos d)
  unfolding run_controller_state controller_state_io_device_missing controller_set_state
  run_waits inp ctx s d conn miss e = (ground arith, ground arith)

  -- While all devices are connected at each pass, the device missing lasts for as many passes as the delay
  -- says.
  pub passes_wait :
      {n : ℕ} {a b : ControllerCtx} (d : ℕ)
      → Passes n a b
      → a.state ≡ io_device_missing
      → a.restart_delay ≡ pos (n + d)
      → (b.state ≡ io_device_missing) × (b.restart_delay ≡ pos d)
  unfolding controller_loop
  passes_wait d (rest ctx) miss e = (miss, e ∙ ap pos (omega arith))
  passes_wait d (message ctx s is_feedback len_ok src_id status_ok es p) miss e =
      let (same, same_delay) = receive_keeps is_feedback len_ok src_id status_ok es ctx s in
      passes_wait d p (same ∙ miss) (same_delay ∙ e)
  passes_wait d (pass {n} ctx s stat_period inp conn p) miss e =
      let (still, less) =
        run_waits inp ctx (st.reset_iq s) (n + d) conn miss (e ∙ ap pos (omega arith)) in
      let ran = run_controller_state st inp ctx (st.reset_iq s) in
      let (same, same_delay) = end_keeps stat_period inp ran.0 ran.1 in
      passes_wait d p (same ∙ still) (same_delay ∙ less)

  -- Messages keep a controller in control.
  settled : {b c : ControllerCtx} → Passes 0 b c → b.state ≡ control → c.state ≡ control
  settled (rest ctx) h = h
  settled (message ctx s is_feedback len_ok src_id status_ok es p) h =
      settled p ((receive_keeps is_feedback len_ok src_id status_ok es ctx s).0 ∙ h)

  restarted :
      {b c : ControllerCtx}
      → Passes 1 b c
      → b.state ≡ io_device_missing
      → b.restart_delay ≡ pos 0
      → c.state ≡ control
  unfolding controller_loop
  restarted (message ctx s is_feedback len_ok src_id status_ok es p) miss e =
      let (same, same_delay) = receive_keeps is_feedback len_ok src_id status_ok es ctx s in
      restarted p (same ∙ miss) (same_delay ∙ e)
  restarted (pass ctx s stat_period inp conn p) miss e =
      let ran = run_controller_state st inp ctx (st.reset_iq s) in
      let back = ((run_moves inp ctx (st.reset_iq s)).1 miss).0.1 (conn, ap is_zero e) in
      settled p ((end_keeps stat_period inp ran.0 ran.1).0 ∙ back)

  -- After a device was missing, with all devices connected at each pass, the controller is in control after
  -- one pass more than the delay says.
  pub passes_restart :
      {n : ℕ} {a b c : ControllerCtx}
      → Passes n a b
      → Passes 1 b c
      → a.state ≡ io_device_missing
      → a.restart_delay ≡ pos n
      → c.state ≡ control
  passes_restart p q miss e =
      let (still, over) = passes_wait 0 p miss (e ∙ ap pos (omega arith)) in restarted q still over

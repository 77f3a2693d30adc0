-- ===== src/Tsn/Controller/Messages.antt =====
-- The messages of tsn/motor/controller.c, and the connections of a pass.
use rtos_apps.Base.{
  ℕ, suc, ◌+◌, ◌≡◌, ◌↔◌, ◌⊎◌, inl, inr, ◌∙◌, refl, ap, arith, Bool, false, none, some, List, [],
  ◌∷◌, length, map, get_elem?, ==_iff, ==_ne, Option-cases, ◌<◌, ◌≤◌,
}
use rtos_apps.Tsn.Controller.{
  control, io_device_missing, ControllerCtx, ControlledIoDevice, Strategy, PassInput,
  check_all_io_devices_connected, controller_loop, controller_send, controller_pass_end,
  run_controller_state, handle, controller_monitoring_send, controller_stats_dump, count_connected,
  dev_id_to_io_device_ctx, controller_net_receive, int32_max, controller_command,
  controller_strategy, controller_state_control, controller_state_io_device_missing,
  controller_state_standby, controller_set_state,
}
use rtos_apps.Tsn.Controller.States.{run_moves, end_keeps}

none_connected : (ds : List ControlledIoDevice) → count_connected (map handle ds) ≡ 0
none_connected [] = refl
none_connected (d ∷ ds) = omega (arith, none_connected ds)

length-handled : (ds : List ControlledIoDevice) → length (map handle ds) ≡ length ds
length-handled [] = refl
length-handled (d ∷ ds) = ap suc (length-handled ds)

silent :
    (ds : List ControlledIoDevice) (ctx : ControllerCtx)
    → ctx.io_devices ≡ map handle ds
    → 0 < length ds
    → check_all_io_devices_connected ctx ≡ false
unfolding check_all_io_devices_connected
silent ds ctx e h =
    ==_ne (count_connected ctx.io_devices) (length ctx.io_devices) λ eq.
      omega (arith, eq, ap count_connected e, none_connected ds, ap length e, length-handled ds)

-- The search by id gives the index of a device with that id.
pub dev_id_lem :
    (id i : ℕ) (ds : List ControlledIoDevice) {k : ℕ}
    → dev_id_to_io_device_ctx id i ds ≡ some k
    → (j : ℕ) × (d : ControlledIoDevice) × (k ≡ i + j) × (get_elem? ds j ≡ some d) × (d.id ≡ id)
unfolding dev_id_to_io_device_ctx
dev_id_lem id i [] e = cc
dev_id_lem id i (d ∷ ds) {k} e = elim (Option-cases (dev_id_to_io_device_ctx id (i + 1) ds)) [
  | inl none_after ↦
      (0, d, ground (arith, none_after), refl, ground (arith, none_after, ==_iff id d.id))
  | inr (k', found) ↦
      let (j, x, at, get, same) = dev_id_lem id (i + 1) ds found in
      (suc j, x, ground (arith, found, at), get, same)
]

module _ {ℓ} {S F G : Type ℓ} (st : Strategy S F G) where
  run_devices :
      (inp : PassInput) (ctx : ControllerCtx) (s : S)
      → (run_controller_state st inp ctx s).0.io_devices ≡ ctx.io_devices
  unfolding run_controller_state controller_state_control controller_state_io_device_missing
      controller_state_standby controller_set_state controller_strategy controller_command
  run_devices inp ctx s = ground arith

  end_devices :
      (p : ℕ) (inp : PassInput) (ctx : ControllerCtx) (s : S)
      → (controller_pass_end st p inp ctx s).0.io_devices ≡ map handle ctx.io_devices
  unfolding controller_pass_end controller_monitoring_send controller_stats_dump
  end_devices p inp ctx s = ground arith

  -- A controller in control with at least one device is missing devices after two passes in a row without a
  -- message in between, if the first pass ends in control.
  pub silence_is_missing :
      (p p' : ℕ) (inp inp' : PassInput) (ctx : ControllerCtx) (s s' : S)
      → 0 < length ctx.io_devices
      → (controller_loop st p inp ctx s).0.state ≡ control
      → (controller_loop st p' inp' (controller_loop st p inp ctx s).0 s').0.state
        ≡ io_device_missing
  unfolding controller_loop
  silence_is_missing p p' inp inp' ctx s s' some_device h =
      let first = run_controller_state st inp ctx (st.reset_iq s) in
      let ended = controller_pass_end st p inp first.0 first.1 in
      let devices : ended.0.io_devices ≡ map handle ctx.io_devices =
        end_devices p inp first.0 first.1 ∙ ap (map handle) (run_devices inp ctx (st.reset_iq s)) in
      let missing : check_all_io_devices_connected ended.0 ≡ false =
        silent ctx.io_devices ended.0 devices some_device in
      let second = run_controller_state st inp' ended.0 (st.reset_iq s') in
      (end_keeps st p' inp' second.0 second.1).0
      ∙ ((run_moves st inp' ended.0 (st.reset_iq s')).0 h).0.1 missing

  -- The action of the message is HOLD exactly when the state after the pass is that of a device missing.
  pub loop_action :
      (p : ℕ) (inp : PassInput) (ctx : ControllerCtx) (s : S)
      → let (ctx', s', sent) = controller_loop st p inp ctx s in
        ((sent.apply ≡ false) ↔ (ctx'.state ≡ io_device_missing))
        × (sent.num_msg ≡ length ctx.io_devices)
  unfolding controller_loop controller_send
  loop_action p inp ctx s =
      let first = run_controller_state st inp ctx (st.reset_iq s) in
      let same = (end_keeps st p inp first.0 first.1).0 in
      (
        (λ h. same ∙ ground arith, λ h. ground (arith, same)),
        ap length (run_devices inp ctx (st.reset_iq s)),
      )

  -- A message that is not from a known device, or of a wrong type or length, changes no more than the counters:
  -- the devices and the strategy stay.
  pub receive_rejected :
      (is_feedback len_ok : Bool) (src_id : ℕ) (status_ok : Bool) (es : List (ℕ × G))
      (ctx : ControllerCtx) (s : S)
      → (is_feedback ≡ false)
        ⊎ ((len_ok ≡ false) ⊎ (dev_id_to_io_device_ctx src_id 0 ctx.io_devices ≡ none))
      → let r = controller_net_receive st is_feedback len_ok src_id status_ok es ctx s in
        (r.0.io_devices ≡ ctx.io_devices) × (r.0.state ≡ ctx.state) × (r.1 ≡ s)
  unfolding controller_net_receive
  receive_rejected is_feedback len_ok src_id status_ok es ctx s h =
      (ground arith, ground arith, ground arith)

  -- The counter of wrong lengths never passes the largest `int`.
  pub invalid_len_bound :
      (is_feedback len_ok : Bool) (src_id : ℕ) (status_ok : Bool) (es : List (ℕ × G))
      (ctx : ControllerCtx) (s : S)
      → ctx.stats.err_invalid_len_received ≤ int32_max
      → (controller_net_receive st is_feedback len_ok src_id status_ok es ctx
          s).0.stats.err_invalid_len_received
        ≤ int32_max
  unfolding controller_net_receive
  invalid_len_bound is_feedback len_ok src_id status_ok es ctx s h = ground arith

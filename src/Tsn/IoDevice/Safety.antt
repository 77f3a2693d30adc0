-- ===== src/Tsn/IoDevice/Safety.antt =====
-- The steps of the device of tsn/motor/io_device.c, its remote control, its faults, and the answer to a message.
use rtos_apps.Base.{
  ℕ, zero, suc, ◌+◌, ◌≡◌, ◌↔◌, ◌⊎◌, inl, inr, ◌∙◌, refl, sym, ap, arith, Bool, true, false, ◌&&◌,
  List, [], ◌∷◌, length, take, if◌then◌else◌, ◌==◌, ==_iff, Bool-cases, ltb,
}
use rtos_apps.Tsn.IoDevice.{
  Status, init, stay_index, remote_control, motor_fault, IoDeviceCtx, MotorControlled, MsgSetIq,
  MsgIq, put_iq, each, Mcapi, LoopInput, no_error, apply_iq, any_fault, io_device_set_state,
  io_device_press, io_device_check_fault, io_device_switch, run_io_device_state,
  io_device_state_init, io_device_stay_index, io_device_state_freerunning, io_device_dumps,
  io_device_stats_dump, io_device_monitoring_send, io_device_stats_print, io_device_monitoring_sent,
  io_device_net_receive, io_device_loop, receive_iqs,
}

module _ {ℓ} {F M : Type ℓ} (mc : Mcapi F M) where
  -- The steps of a device: a pass of the loop, a message, and the ends of the asynchronous calls.
  pub data Step : IoDeviceCtx F → IoDeviceCtx F → Type ℓ where
    looped :
        (inp : LoopInput) (ctx : IoDeviceCtx F) (m : M) → Step ctx (io_device_loop mc inp ctx m).0
    received :
        (is_set_iq len_ok : Bool) (msg : MsgSetIq F) (ctx : IoDeviceCtx F)
        → Step ctx (io_device_net_receive is_set_iq len_ok msg ctx)
    printed : (ctx : IoDeviceCtx F) → Step ctx (io_device_stats_print ctx)
    monitored : (ctx : IoDeviceCtx F) → Step ctx (io_device_monitoring_sent ctx)

  pub data Steps : IoDeviceCtx F → IoDeviceCtx F → Type ℓ where
    done : (ctx : IoDeviceCtx F) → Steps ctx ctx
    next : {a b c : IoDeviceCtx F} → Step a b → Steps b c → Steps a c

  pub dumps_state :
      (inp : LoopInput) (ctx : IoDeviceCtx F)
      → ((io_device_dumps mc inp ctx).state ≡ ctx.state)
        × ((io_device_dumps mc inp ctx).status ≡ ctx.status)
  unfolding io_device_dumps io_device_stats_dump io_device_monitoring_send
  dumps_state inp ctx = (ground arith, ground arith)

  -- Running a state keeps the state, but that the set-up may end.
  pub run_state :
      (p : ℕ) (ctx : IoDeviceCtx F) (m : M)
      → ((run_io_device_state mc p ctx m).0.state ≡ ctx.state)
        ⊎ ((ctx.state ≡ init) × ((run_io_device_state mc p ctx m).0.state ≡ stay_index))
  unfolding run_io_device_state io_device_state_init io_device_stay_index
      io_device_state_freerunning
  run_state p ctx m = ground arith

  pub run_status :
      (p : ℕ) (ctx : IoDeviceCtx F) (m : M) → (run_io_device_state mc p ctx m).0.status ≡ ctx.status
  unfolding run_io_device_state io_device_state_init io_device_stay_index
      io_device_state_freerunning
  run_status p ctx m = ground arith

  switch_lem :
      (ctx : IoDeviceCtx F)
      → (io_device_switch mc ctx).state ≡ remote_control
      → (no_error ctx.status ≡ true) × (ctx.control_action ≡ apply_iq)
  unfolding io_device_switch io_device_set_state
  switch_lem ctx = ground (arith, ==_iff ctx.control_action apply_iq)

  check_fault_lem :
      (m : M) (ctx : IoDeviceCtx F)
      → no_error (io_device_check_fault mc m ctx).status ≡ true
      → (no_error ctx.status ≡ true) × (any_fault mc 0 ctx.motors_controlled m ≡ false)
  unfolding io_device_check_fault io_device_set_state
  check_fault_lem m ctx = ground arith

  -- The state that a pass chooses to run.
  abbrev pub chosen : LoopInput → IoDeviceCtx F → M → IoDeviceCtx F
  chosen inp ctx m =
      io_device_switch mc (io_device_check_fault mc m (io_device_press mc inp.button_pressed ctx))

  abbrev pub loops_set : LoopInput → IoDeviceCtx F → M → M
  loops_set inp ctx m =
      each mc (λ i x m. mc.set_closed_current_loop i inp.timer_ok m) 0 ctx.motors_controlled m

  abbrev pub ran : LoopInput → IoDeviceCtx F → M → IoDeviceCtx F
  ran inp ctx m =
      (run_io_device_state mc inp.task_period_ns (chosen inp ctx m) (loops_set inp ctx m)).0

  loop_state :
      (inp : LoopInput) (ctx : IoDeviceCtx F) (m : M)
      → ((io_device_loop mc inp ctx m).0.state ≡ (chosen inp ctx m).state)
        ⊎ (((chosen inp ctx m).state ≡ init) × ((io_device_loop mc inp ctx m).0.state ≡ stay_index))
  unfolding io_device_loop
  loop_state inp ctx m =
      elim (run_state inp.task_period_ns (chosen inp ctx m) (loops_set inp ctx m)) [
        | inl same ↦ inl ((dumps_state inp (ran inp ctx m)).0 ∙ same)
        | inr (before, after) ↦ inr (before, (dumps_state inp (ran inp ctx m)).0 ∙ after)
      ]

  checked_lem :
      (pressed : Bool) (ctx : IoDeviceCtx F) (m : M)
      → no_error (io_device_check_fault mc m (io_device_press mc pressed ctx)).status ≡ true
      → (no_error ctx.status ≡ true) × (any_fault mc 0 ctx.motors_controlled m ≡ false)
  unfolding io_device_check_fault io_device_press io_device_set_state
  checked_lem pressed ctx m = ground arith

  checked_action :
      (pressed : Bool) (ctx : IoDeviceCtx F) (m : M)
      → (io_device_check_fault mc m (io_device_press mc pressed ctx)).control_action
        ≡ ctx.control_action
  unfolding io_device_check_fault io_device_press io_device_set_state
  checked_action pressed ctx m = ground arith

  -- After a pass, the device is under remote control only if the status had no error when the pass began,
  -- the controller asked for currents to be applied, and no motor had a fault.
  pub loop_remote_control :
      (inp : LoopInput) (ctx : IoDeviceCtx F) (m : M)
      → (io_device_loop mc inp ctx m).0.state ≡ remote_control
      → (no_error ctx.status ≡ true)
        × (ctx.control_action ≡ apply_iq)
        × (any_fault mc 0 ctx.motors_controlled m ≡ false)
  loop_remote_control inp ctx m h =
      let run : (chosen inp ctx m).state ≡ remote_control = elim (loop_state inp ctx m) [
        | inl same ↦ sym same ∙ h
        | inr (_, other) ↦ cc
      ] in
      let (clear, action) = switch_lem _ run in
      let (before, sound) = checked_lem inp.button_pressed ctx m clear in
      (before, sym (checked_action inp.button_pressed ctx m) ∙ action, sound)

  -- A fault was seen, and the device is in the state of a fault.
  abbrev pub IsLatched : IoDeviceCtx F → Type 0
  IsLatched ctx = (ctx.status.err_fault ≡ true) × (ctx.state ≡ motor_fault)

  chosen-IsLatched :
      (inp : LoopInput) (ctx : IoDeviceCtx F) (m : M) → IsLatched ctx → IsLatched (chosen inp ctx m)
  unfolding io_device_switch io_device_check_fault io_device_press io_device_set_state
  chosen-IsLatched inp ctx m l = (ground arith, ground arith)

  chosen_fault :
      (inp : LoopInput) (ctx : IoDeviceCtx F) (m : M)
      → any_fault mc 0 ctx.motors_controlled m ≡ true
      → IsLatched (chosen inp ctx m)
  unfolding io_device_switch io_device_check_fault io_device_press io_device_set_state
  chosen_fault inp ctx m e = (ground arith, ground arith)

  loop_fault :
      (inp : LoopInput) (ctx : IoDeviceCtx F) (m : M)
      → IsLatched (chosen inp ctx m)
      → IsLatched (io_device_loop mc inp ctx m).0
  unfolding io_device_loop
  loop_fault inp ctx m l = (
    ap (λ (s : Status). s.err_fault)
          ((dumps_state inp (ran inp ctx m)).1
            ∙ run_status inp.task_period_ns (chosen inp ctx m) (loops_set inp ctx m))
        ∙ l.0,
    elim (loop_state inp ctx m) [
      | inl same ↦ same ∙ l.1
      | inr (other, _) ↦ absurd (ground (arith, l.1))
    ],
  )

  Step-IsLatched : {a b : IoDeviceCtx F} → Step a b → IsLatched a → IsLatched b
  unfolding io_device_net_receive io_device_stats_print io_device_monitoring_sent
  Step-IsLatched (looped inp ctx m) l = loop_fault inp ctx m (chosen-IsLatched inp ctx m l)
  Step-IsLatched (received is_set_iq len_ok msg ctx) l = ground arith
  Step-IsLatched (printed ctx) l = l
  Step-IsLatched (monitored ctx) l = l

  -- Once a motor's fault was seen, no sequence of steps leaves the state of a fault.
  pub fault-IsLatched : {a b : IoDeviceCtx F} → Steps a b → IsLatched a → IsLatched b
  fault-IsLatched (done ctx) l = l
  fault-IsLatched (next s ss) l = fault-IsLatched ss (Step-IsLatched s l)

  -- A pass that finds a motor in the fault state latches the fault.
  pub loop_latches :
      (inp : LoopInput) (ctx : IoDeviceCtx F) (m : M)
      → any_fault mc 0 ctx.motors_controlled m ≡ true
      → IsLatched (io_device_loop mc inp ctx m).0
  loop_latches inp ctx m e = loop_fault inp ctx m (chosen_fault inp ctx m e)

module _ {ℓ} {F : Type ℓ} where
  -- The entries of a message that are for a motor of this device.
  abbrev pub matches : ℕ → ℕ → List (MsgIq F) → ℕ
  matches id n [] = 0
  matches id n (e ∷ es) =
      (if e.io_device_id == id && ltb e.motor_id n then 1 else 0) + matches id n es

  put_iq-length :
      (ms : List (MotorControlled F)) (i : ℕ) (iq : F) → length (put_iq ms i iq) ≡ length ms
  put_iq-length [] i iq = refl
  put_iq-length (m ∷ ms) zero iq = refl
  put_iq-length (m ∷ ms) (suc i) iq = ap suc (put_iq-length ms i iq)

  receive_iqs_lem :
      (id : ℕ) (es : List (MsgIq F)) (ms : List (MotorControlled F)) (n : ℕ)
      → ((receive_iqs id es ms n).1 ≡ n + matches id (length ms) es)
        × (length (receive_iqs id es ms n).0 ≡ length ms)
  unfolding receive_iqs
  receive_iqs_lem id [] ms n = (omega arith, refl)
  receive_iqs_lem id (e ∷ es) ms n =
      elim (Bool-cases (e.io_device_id == id && ltb e.motor_id (length ms))) [
        | inl mine ↦
            let (count, len) = receive_iqs_lem id es (put_iq ms e.motor_id e.iq_req) (n + 1) in
            let same = put_iq-length ms e.motor_id e.iq_req in
            rw (mine, receive_iqs)
              (omega (arith, count, ap (λ k. matches id k es) same), len ∙ same)
        | inr other ↦
            let (count, len) = receive_iqs_lem id es ms n in
            rw (other, receive_iqs) (omega (arith, count), len)
      ]

  -- After a message, the network's error is cleared exactly when the message has the right type and
  -- length and as many entries for this device's motors as it has motors; the fault's bit never changes.
  pub net_receive_lem :
      (is_set_iq len_ok : Bool) (msg : MsgSetIq F) (ctx : IoDeviceCtx F)
      → let ctx' = io_device_net_receive is_set_iq len_ok msg ctx in
        ((ctx'.status.err_network ≡ false) ↔ (
          (is_set_iq ≡ true)
          × (len_ok ≡ true)
          × (matches ctx.id (length ctx.motors_controlled) (take msg.num_msg msg.msg_array)
              ≡ length ctx.motors_controlled)))
        × (ctx'.status.err_fault ≡ ctx.status.err_fault)
        × (length ctx'.motors_controlled ≡ length ctx.motors_controlled)
  unfolding io_device_net_receive
  net_receive_lem is_set_iq len_ok msg ctx =
      let (count, len) =
        receive_iqs_lem ctx.id (take msg.num_msg msg.msg_array) ctx.motors_controlled 0 in
      ((λ h. ground (arith, count), λ h. ground (arith, count)), ground arith, ground (arith, len))

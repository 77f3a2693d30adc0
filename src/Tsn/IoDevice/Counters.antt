-- ===== src/Tsn/IoDevice/Counters.antt =====
-- The error counters of tsn/motor/io_device.c, and their dump.
use rtos_apps.Base.{ℕ, ◌≡◌, ◌∙◌, sym, subst, arith, Bool, false}
use rtos_apps.Tsn.IoDevice.{
  IoDeviceCtx, StatsIoDevice, MsgSetIq, Mcapi, LoopInput, io_device_net_receive, io_device_loop,
  io_device_stats_dump, io_device_monitoring_send, io_device_dumps, io_device_stats_print,
  io_device_monitoring_sent, run_io_device_state, io_device_state_init, io_device_stay_index,
  io_device_state_freerunning, io_device_switch, io_device_check_fault, io_device_press,
  io_device_set_state,
}
use rtos_apps.Tsn.IoDevice.Safety.{
  Step, looped, received, printed, monitored, Steps, done, next, chosen, loops_set, ran,
}

-- The counters of errors are all 0.
abbrev pub IsClear : StatsIoDevice → Type 0
IsClear s = (s.err_msg_id ≡ 0) × (s.err_cmd_recv ≡ 0) × (s.err_invalid_len_received ≡ 0)

module _ {ℓ} {F M : Type ℓ} (mc : Mcapi F M) where
  dumps-IsClear :
      (inp : LoopInput) (ctx : IoDeviceCtx F)
      → IsClear ctx.stats
      → IsClear (io_device_dumps mc inp ctx).stats
  unfolding io_device_dumps io_device_stats_dump io_device_monitoring_send
  dumps-IsClear inp ctx c = ground arith

  run_stats :
      (p : ℕ) (ctx : IoDeviceCtx F) (m : M) → (run_io_device_state mc p ctx m).0.stats ≡ ctx.stats
  unfolding run_io_device_state io_device_state_init io_device_stay_index
      io_device_state_freerunning
  run_stats p ctx m = ground arith

  chosen_stats :
      (inp : LoopInput) (ctx : IoDeviceCtx F) (m : M) → (chosen mc inp ctx m).stats ≡ ctx.stats
  unfolding io_device_switch io_device_check_fault io_device_press io_device_set_state
  chosen_stats inp ctx m = ground arith

  receive_stats :
      (is_set_iq len_ok : Bool) (msg : MsgSetIq F) (ctx : IoDeviceCtx F)
      → (io_device_net_receive is_set_iq len_ok msg ctx).stats ≡ ctx.stats
  unfolding io_device_net_receive
  receive_stats is_set_iq len_ok msg ctx = ground arith

  Step-IsClear : {a b : IoDeviceCtx F} → Step mc a b → IsClear a.stats → IsClear b.stats
  unfolding io_device_loop io_device_stats_print io_device_monitoring_sent
  Step-IsClear (looped inp ctx m) c = dumps-IsClear inp (ran mc inp ctx m) (
      subst IsClear
        (sym (
          run_stats inp.task_period_ns (chosen mc inp ctx m) (loops_set mc inp ctx m)
          ∙ chosen_stats inp ctx m))
        c)
  Step-IsClear (received is_set_iq len_ok msg ctx) c =
      subst IsClear (sym (receive_stats is_set_iq len_ok msg ctx)) c
  Step-IsClear (printed ctx) c = c
  Step-IsClear (monitored ctx) c = c

  pub Steps-IsClear : {a b : IoDeviceCtx F} → Steps mc a b → IsClear a.stats → IsClear b.stats
  Steps-IsClear (done ctx) c = c
  Steps-IsClear (next s ss) c = Steps-IsClear ss (Step-IsClear s c)

  -- Whatever errors the messages had, what a dump hands to the print has all counters at 0, if those of the
  -- device were 0 at the start.
  pub dump_loses_errors :
      {a b : IoDeviceCtx F}
      → Steps mc a b
      → IsClear a.stats
      → (queued : Bool) → b.stats_snap.pending ≡ false
      → IsClear (io_device_stats_dump queued b).stats_snap
  unfolding io_device_stats_dump
  dump_loses_errors {a} {b} ss c queued e = ground (arith, Steps-IsClear ss c)

-- ===== src/Tsn/Alarm/Frames.antt =====
-- The frames of tsn/alarm_task.c that are sent and received.
use rtos_apps.Base.{
  ℕ, ◌+◌, ◌^◌, ◌<◌, ◌≡◌, ◌⊎◌, refl, ◌∙◌, ap, arith, Bool, true, false, Option, none, some, List, [],
  ◌∷◌, ◌==◌, if◌then◌else◌, if_cases,
}
use rtos_apps.Base.Int.{ℤ, pos, negsuc}
use rtos_apps.Tsn.Task.{NetSocket, TsnTask, TsnTaskParams, tsn_task_stats_init}
use rtos_apps.Tsn.Task.Sockets.{tsn_net_receive_sock, tsn_net_transmit_done, tsn_net_transmit_sock}
use rtos_apps.Tsn.Task.Setup.{
  RegisterCalls, Registered, HeaderSizes, register_thread, register_timer, register_net_exit,
  tsn_task_register, tsn_task_net_init,
}
use rtos_apps.Tsn.Alarm.{
  hdr_size, AlarmFrame, TransmitCalls, alarm_net_transmit, Reception, monitor_loop, AlarmTask,
  MonitorCalls, alarm_task_monitor_init,
}

-- A transmission over a socket without copies hands on a frame only if the transmission before it is done.
-- The frame's length is that of the headers and the alarm, which are less than the buffer if their
-- length does not wrap at 32 bits; it is marked pending if the AVB stack takes it.
pub transmit_lem :
    (id size : ℕ) (c : TransmitCalls) (msg_id len : ℕ) (buf : List ℕ) (s : NetSocket)
    → s.zero_copy ≡ true
    → len + hdr_size < 2 ^ 32
    → s.hdr_len + size < 2 ^ 32
    → let r = alarm_net_transmit id size c msg_id len buf s in
      ((r.1 ≡ none) × (r.2 ≡ false) × (r.0.stats ≡ s.stats))
      ⊎ ((f : AlarmFrame) × (r.1 ≡ some f)
          × (f.iov_len ≡ s.hdr_len + (len + hdr_size))
          × (len + hdr_size < size)
          × ((s.tx_pending ≡ false) ⊎ (c.ready ≡ pos s.n))
          × (r.2 ≡ true → (r.0.tx_pending ≡ true) × (c.sent ≡ pos s.n)))
unfolding alarm_net_transmit tsn_net_transmit_done tsn_net_transmit_sock
transmit_lem id size c msg_id len buf s zc fits room = ground arith

-- The packets that the receptions of a round took.
abbrev pub received : ℕ → List Reception → ℕ
received n [] = 0
received n (r ∷ rs) = elim r.pkts [ pos m ↦ if m == n then n + received n rs else m | negsuc m ↦ 0 ]

receive_keeps :
    (pkts : ℤ) (stamp : Option ℕ) (s : NetSocket)
    → ((tsn_net_receive_sock pkts stamp s).0.zero_copy ≡ s.zero_copy)
      × ((tsn_net_receive_sock pkts stamp s).0.n ≡ s.n)
unfolding tsn_net_receive_sock
receive_keeps pkts stamp s = (ground arith, ground arith)

-- A round of the monitor over a socket without copies gives back as many buffers as it received, whether or
-- not a function is called for the frames.
pub monitor_gives_back :
    (has_func : Bool) (rs : List Reception) (s : NetSocket)
    → s.zero_copy ≡ true
    → (monitor_loop has_func rs s).2 ≡ received s.n rs
unfolding monitor_loop tsn_net_receive_sock
monitor_gives_back has_func [] s zc = refl
monitor_gives_back has_func (r ∷ rs) s zc =
    let got : NetSocket = (tsn_net_receive_sock r.pkts r.stamp s).0 in
    let k = receive_keeps r.pkts r.stamp s in
    let ih : (monitor_loop has_func rs got).2 ≡ received s.n rs =
      monitor_gives_back has_func rs got (k.0 ∙ zc) ∙ ap (λ n. received n rs) k.1 in
    ground arith

-- A registration that succeeds, with a main loop, leaves a thread that runs.
abbrev Runs : Registered × Bool → Type 0
Runs r = r.1 ≡ true → (r.0.allocated ≡ true) × (r.0.task.thread ≡ true)

register_thread-Runs :
    (c : RegisterCalls) (t : TsnTask)
    → c.main_loop ≡ true
    → c.timer_callback ≡ false
    → Runs (register_thread c t)
unfolding register_thread register_timer register_net_exit
register_thread-Runs c t main no_timer =
    if_cases Runs c.main_loop
      (λ e.
        if_cases Runs c.creates_thread
          (λ e'.
            if_cases Runs c.timer_callback (λ e''. absurd (ground arith)) (λ e'' f. (refl, refl)))
          (λ e' f. ground arith))
      (λ e. absurd (ground arith))

register-Runs :
    (hs : HeaderSizes) (c : RegisterCalls) (id : ℕ) (p : TsnTaskParams) (cleared : TsnTask)
    → c.main_loop ≡ true
    → c.timer_callback ≡ false
    → Runs (tsn_task_register hs c id p cleared)
unfolding tsn_task_register
register-Runs hs c id p cleared main no_timer =
    let n : TsnTask × Bool =
      tsn_task_net_init hs c.rx c.tx (record cleared { id = id; params = p }) in
    let t : TsnTask = record n.0 { stats = tsn_task_stats_init n.0.stats } in
    if_cases Runs c.allocates
      (λ e. if_cases Runs n.1 (λ e'. register_thread-Runs c t main no_timer) (λ e' f. ground arith))
      (λ e f. ground arith)

-- If the callback of the monitor's socket is refused, the set-up fails and destroys the queue, while the task
-- stays registered and its thread, which waits on the queue, runs.
pub monitor_init_leaks :
    (hs : HeaderSizes) (c : MonitorCalls) (id : ℕ) (p : TsnTaskParams) (cleared : TsnTask)
    (a : AlarmTask)
    → c.has_stream ≡ true
    → c.allocs_queue ≡ true
    → (tsn_task_register hs
        (record c.register { main_loop = true; timer_callback = false })
        id
        p
        cleared).1
      ≡ true
    → c.sets_cb ≡ false
    → let r = alarm_task_monitor_init hs c id p cleared a in
      (r.1 ≡ false)
      × (r.0.queue_h ≡ false)
      × (r.0.task.allocated ≡ true)
      × (r.0.task.task.thread ≡ true)
unfolding alarm_task_monitor_init
monitor_init_leaks hs c id p cleared a stream queue registered refused =
    let k =
      register-Runs hs (record c.register { main_loop = true; timer_callback = false }) id p cleared
        refl refl registered in
    simp (stream, queue, registered, refused) (refl, refl, k.0, k.1)

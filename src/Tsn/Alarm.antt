-- ===== src/Tsn/Alarm.antt =====
-- tsn/alarm_task.c: the transmission of an alarm, the round of the monitor over the frames received, and the
-- set-up of the monitor with its error paths. The results of the AVB stack are inputs.
pub mod Frames
mod Tests
use rtos_apps.Base.{
  ℕ, zero, suc, ◌+◌, ◌*◌, ◌%◌, ◌^◌, Bool, true, false, not, Option, none, some, List, [], ◌∷◌, ◌++◌,
  leb, ◌==◌, if◌then◌else◌, add32,
}
use rtos_apps.Base.Int.{ℤ}
use rtos_apps.Tsn.Task.{NetSocket, TsnTask, TsnTaskParams}
use rtos_apps.Tsn.Task.Sockets.{
  NetStatus, tsn_net_receive_sock, tsn_net_transmit_done, tsn_net_transmit_sock,
}
use rtos_apps.Tsn.Task.Setup.{HeaderSizes, RegisterCalls, Registered, is_ok, tsn_task_register}

-- The size of `struct tsn_common_hdr`, which is packed.
abbrev pub hdr_size : ℕ
hdr_size = 16

-- A frame with its header and the length of its buffer, `iov_len`.
pub record AlarmFrame : Type 0 where
  pub msg_id : ℕ
  pub src_id : ℕ
  pub len : ℕ
  pub sched_time : ℕ
  pub payload : List ℕ
  pub iov_len : ℕ

-- What the AVB stack and the clock give: the transmissions that are done, the present time, and the number of
-- packets that are sent.
pub record TransmitCalls : Type 0 where
  pub ready : ℤ
  pub now : ℕ
  pub sent : ℤ

abbrev fill : ℕ → TransmitCalls → ℕ → ℕ → List ℕ → NetSocket → AlarmFrame
fill id c msg_id len buf s = record {
  msg_id = msg_id;
  src_id = id;
  len = len % 2 ^ 16;
  sched_time = c.now;
  payload = buf;
  iov_len = add32 s.hdr_len (add32 len hdr_size);
}

-- The socket, the frame handed to the AVB stack, and whether the result is 0; `buf` are the `len` bytes of the
-- alarm.
unfoldable pub alarm_net_transmit :
    ℕ → ℕ → TransmitCalls → ℕ → ℕ → List ℕ → NetSocket → NetSocket × Option AlarmFrame × Bool
alarm_net_transmit id tx_buf_size c msg_id len buf s =
    let done = tsn_net_transmit_done c.ready s.n s in
    let s' = if s.zero_copy then done.0 else s in
    let r = tsn_net_transmit_sock c.sent s' in
    if leb tx_buf_size (add32 len hdr_size)
    then (s, none, false)
    else if s.zero_copy
    then (if is_ok done.1
        then (r.0, some (fill id c msg_id len buf s'), is_ok r.1)
        else (s', none, false))
    else (r.0, some (fill id c msg_id len buf s'), is_ok r.1)

-- A reception: the number of packets, the time stamp, and the first frame.
pub record Reception : Type 0 where
  pub pkts : ℤ
  pub stamp : Option ℕ
  pub frame : AlarmFrame

-- The inner loop of `main_alarm_monitor`: the socket, the frames handed to `net_rx_func`, which may be absent,
-- and the number of buffers given back. The receptions end with one that fails.
unfoldable pub monitor_loop : Bool → List Reception → NetSocket → NetSocket × List AlarmFrame × ℕ
monitor_loop has_func [] s = (s, [], 0)
monitor_loop has_func (r ∷ rs) s =
    let got = tsn_net_receive_sock r.pkts r.stamp s in
    let rest = monitor_loop has_func rs got.0 in
    if is_ok got.1
    then (
      rest.0,
      (if has_func then r.frame ∷ rest.1 else rest.1),
      (if s.zero_copy then s.n else 0) + rest.2,
    )
    else (got.0, [], got.2)

-- `struct alarm_task`; `queue_h` tells whether the queue exists.
pub record AlarmTask : Type 0 where
  pub task : Registered
  pub monitor : Bool
  pub queue_h : Bool

-- The results of the calls of the monitor's set-up.
pub record MonitorCalls : Type 0 where
  pub has_stream : Bool
  pub allocs_queue : Bool
  pub register : RegisterCalls
  pub sets_cb : Bool

-- The task and whether the result is 0. The registration is given a main loop and no timer.
unfoldable pub alarm_task_monitor_init :
    HeaderSizes → MonitorCalls → ℕ → TsnTaskParams → TsnTask → AlarmTask → AlarmTask × Bool
alarm_task_monitor_init hs c id params cleared a =
    let r =
      tsn_task_register hs (record c.register { main_loop = true; timer_callback = false }) id
        params cleared in
    if not c.has_stream
    then (record a { queue_h = false }, false)
    else if not c.allocs_queue
    then (record a { queue_h = false }, false)
    else if not r.1
    then (record a { task = r.0; queue_h = false }, false)
    else if not c.sets_cb
    then (record a { task = r.0; queue_h = false }, false)
    else (record { task = r.0; queue_h = true; monitor = true }, true)

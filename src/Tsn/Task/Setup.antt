-- ===== src/Tsn/Task/Setup.antt =====
-- tsn/tsn_task.c: the set-up of a task and of its sockets, with the error paths, and the tear-down. The
-- results of the calls are inputs, for each socket.
use rtos_apps.Base.{ℕ, zero, suc, ◌+◌, Bool, true, false, List, [], ◌∷◌, map, if◌then◌else◌}
use rtos_apps.Base.Int.{ℤ}
use rtos_apps.Tsn.Task.{NetSocket, TsnTask, TsnTaskParams, tsn_task_stats_init}
use rtos_apps.Tsn.Task.Sockets.{NetStatus, net_ok, net_no_frame, net_err, tsn_net_transmit_init}

-- Whether a socket opens and its array is allocated, and the number of transmission buffers.
pub record SocketCalls : Type 0 where
  pub opens : Bool
  pub allocates : Bool
  pub buffers : ℤ

-- The sizes of the headers.
pub record HeaderSizes : Type 0 where
  pub eth : ℕ
  pub vlan : ℕ

abbrev pub is_ok : NetStatus → Bool
is_ok net_ok = true
is_ok net_no_frame = false
is_ok net_err = false

abbrev pub opened_socket : TsnTaskParams → ℕ → ℕ → NetSocket → NetSocket
opened_socket p i dir s = record s {
  id = i;
  dir = dir;
  opened = true;
  iovec = true;
  n = p.num_packets;
  zero_copy = p.zero_copy;
}

-- One round for a receiving socket; false is the jump to `close_sock_rx`.
unfoldable pub open_rx : TsnTaskParams → ℕ → SocketCalls → NetSocket → NetSocket × Bool
open_rx p i c s =
    if c.opens
    then (if c.allocates
        then (opened_socket p i 0 s, true)
        else (record (opened_socket p i 0 s) { opened = false; iovec = false }, false))
    else (record s { id = i; dir = 0 }, false)

-- One round for a sending socket; false is the jump to `close_sock_tx`.
unfoldable pub open_tx :
    HeaderSizes → TsnTaskParams → ℕ → SocketCalls → NetSocket → NetSocket × Bool
open_tx hs p i c s =
    let opened = record (opened_socket p i 1 s) { tx_pending = false } in
    let filled = tsn_net_transmit_init c.buffers hs.eth hs.vlan opened in
    if c.opens
    then (if c.allocates
        then (if p.zero_copy then (filled.0, is_ok filled.1) else (opened, true))
        else (record opened { opened = false; iovec = false }, false))
    else (record s { id = i; dir = 1 }, false)

-- The loop over the sockets from number `i` on: the sockets, the number reached, and whether all opened.
unfoldable pub open_all :
    (ℕ → NetSocket → NetSocket × Bool) → ℕ → List NetSocket → List NetSocket × ℕ × Bool
open_all step i [] = ([], i, true)
open_all step i (s ∷ ss) =
    let rest = open_all step (i + 1) ss in
    let r = step i s in if r.1 then (r.0 ∷ rest.0, rest.1, rest.2) else (r.0 ∷ ss, i, false)

unfoldable pub close_socket : NetSocket → NetSocket
close_socket s = record s { opened = false; iovec = false }

-- The loop over the first `n` sockets.
unfoldable pub close_first : ℕ → List NetSocket → List NetSocket
unfolding close_socket
close_first zero ss = ss
close_first (suc n) [] = []
close_first (suc n) (s ∷ ss) = close_socket s ∷ close_first n ss

-- `rx` and `tx` are the results for the sockets of both directions.
unfoldable pub tsn_task_net_init :
    HeaderSizes → (ℕ → SocketCalls) → (ℕ → SocketCalls) → TsnTask → TsnTask × Bool
unfolding open_all open_rx open_tx close_first
tsn_task_net_init hs rx tx task =
    let r = open_all (λ i. open_rx task.params i (rx i)) 0 task.sock_rx in
    let t = open_all (λ i. open_tx hs task.params i (tx i)) 0 task.sock_tx in
    if r.2
    then (if t.2
        then (record task { sock_rx = r.0; sock_tx = t.0 }, true)
        else (record task { sock_rx = close_first r.1 r.0; sock_tx = close_first t.1 t.0 }, false))
    else (record task { sock_rx = close_first r.1 r.0 }, false)

unfoldable pub tsn_task_net_exit : TsnTask → TsnTask
unfolding close_socket
tsn_task_net_exit task = record task {
  sock_rx = map close_socket task.sock_rx;
  sock_tx = map close_socket task.sock_tx;
}

-- The results of the calls of a registration, and whether a main loop and a timer callback are given.
pub record RegisterCalls : Type 0 where
  pub allocates : Bool
  pub rx : ℕ → SocketCalls
  pub tx : ℕ → SocketCalls
  pub main_loop : Bool
  pub creates_thread : Bool
  pub timer_callback : Bool
  pub creates_timer : Bool
  pub sets_callback : Bool

-- The memory of a task, whether it is allocated; the record stands for its contents.
pub record Registered : Type 0 where
  pub allocated : Bool
  pub task : TsnTask

unfoldable pub register_net_exit : TsnTask → Registered × Bool
unfolding tsn_task_net_exit
register_net_exit t = (record { allocated = false; task = tsn_task_net_exit t }, false)

unfoldable pub register_task_delete : RegisterCalls → TsnTask → Registered × Bool
unfolding register_net_exit
register_task_delete c t =
    register_net_exit (if c.main_loop then record t { thread = false } else t)

unfoldable pub register_timer : RegisterCalls → TsnTask → Registered × Bool
unfolding register_task_delete
register_timer c t =
    if c.timer_callback
    then (if c.creates_timer
        then (if c.sets_callback
            then (record { allocated = true; task = record t { timer = true } }, true)
            else register_task_delete c (record t { timer = false }))
        else register_task_delete c t)
    else (record { allocated = true; task = record t { timer = false } }, true)

unfoldable pub register_thread : RegisterCalls → TsnTask → Registered × Bool
register_thread c t =
    if c.main_loop
    then (if c.creates_thread
        then register_timer c (record t { thread = true })
        else register_net_exit t)
    else register_timer c t

-- `cleared` is the task of all zeros.
unfoldable pub tsn_task_register :
    HeaderSizes → RegisterCalls → ℕ → TsnTaskParams → TsnTask → Registered × Bool
unfolding tsn_task_net_init register_thread
tsn_task_register hs c id params cleared =
    let r = tsn_task_net_init hs c.rx c.tx (record cleared { id = id; params = params }) in
    if c.allocates
    then (if r.1
        then register_thread c (record r.0 { stats = tsn_task_stats_init r.0.stats })
        else (record { allocated = false; task = r.0 }, false))
    else (record { allocated = false; task = cleared }, false)

unfoldable pub tsn_task_unregister : Registered → Registered
unfolding tsn_task_net_exit
tsn_task_unregister r = record {
  allocated = false;
  task = tsn_task_net_exit (record r.task { timer = false; thread = false });
}

-- ===== src/Tsn/Task/Closed.antt =====
-- tsn/tsn_task.c: failed set-ups of a task, and the tear-down.
use rtos_apps.Base.{
  ℕ, suc, ◌+◌, ◌≡◌, ◌≢◌, ◌⊎◌, inl, inr, refl, arith, Bool, true, false, List, [], ◌∷◌, map, All,
  Bool-cases, if_cases, ◌∙◌,
}
use rtos_apps.Base.Int.{pos}
use rtos_apps.Tsn.Task.{NetSocket, TsnTask, TsnTaskParams, tsn_task_stats_init}
use rtos_apps.Tsn.Task.Sockets.{tsn_net_transmit_init, transmit_init_keeps}
use rtos_apps.Tsn.Task.Setup.{
  SocketCalls, HeaderSizes, RegisterCalls, Registered, open_all, open_rx, open_tx, close_first,
  close_socket, tsn_task_net_init, tsn_task_net_exit, tsn_task_register, register_thread,
  register_timer, register_task_delete, register_net_exit, opened_socket,
}

abbrev pub IsClosed : NetSocket → Type 0
IsClosed s = (s.opened ≡ false) × (s.iovec ≡ false)

abbrev pub IsOpen : NetSocket → Type 0
IsOpen s = (s.opened ≡ true) × (s.iovec ≡ true)

-- A round that fails leaves its socket closed.
abbrev IsClean : (ℕ → NetSocket → NetSocket × Bool) → Type 0
IsClean step = (i : ℕ) (s : NetSocket) → IsClosed s → (step i s).1 ≡ false → IsClosed (step i s).0

close_socket-IsClosed : (s : NetSocket) → IsClosed (close_socket s)
unfolding close_socket
close_socket-IsClosed s = (refl, refl)

close_all : (ss : List NetSocket) → All IsClosed (map close_socket ss)
close_all [] = tt
close_all (s ∷ ss) = (close_socket-IsClosed s, close_all ss)

-- The sockets in front of the number reached are those that the error path must close.
open_all-close_first :
    (step : ℕ → NetSocket → NetSocket × Bool) (i : ℕ) (ss : List NetSocket)
    → IsClean step
    → All IsClosed ss
    → (k : ℕ) × ((open_all step i ss).1 ≡ i + k)
      × All IsClosed (close_first k (open_all step i ss).0)
unfolding open_all close_first
open_all-close_first step i [] clean h = (0, omega arith, tt)
open_all-close_first step i (s ∷ ss) clean h =
    let ih = open_all-close_first step (i + 1) ss clean h.1 in
    elim (Bool-cases (step i s).1) [
      | inl e ↦ rw e (suc ih.0, omega (arith, ih.1), (close_socket-IsClosed (step i s).0, ih.2))
      | inr e ↦ rw e (0, omega arith, (clean i s h.0 e, h.1))
    ]

-- The loop that closes what was opened before the failure.
error_path :
    (step : ℕ → NetSocket → NetSocket × Bool) (ss : List NetSocket)
    → IsClean step
    → All IsClosed ss
    → All IsClosed (close_first (open_all step 0 ss).1 (open_all step 0 ss).0)
error_path step ss clean h =
    let r = open_all-close_first step 0 ss clean h in
    let e : (open_all step 0 ss).1 ≡ r.0 = omega (arith, r.1) in rw e r.2

open_all-IsOpen :
    (step : ℕ → NetSocket → NetSocket × Bool) (i : ℕ) (ss : List NetSocket)
    → ((i : ℕ) (s : NetSocket) → (step i s).1 ≡ true → IsOpen (step i s).0)
    → (open_all step i ss).2 ≡ true
    → All IsOpen (open_all step i ss).0
unfolding open_all
open_all-IsOpen step i [] opens = λ h. tt
open_all-IsOpen step i (s ∷ ss) opens =
    let ih = open_all-IsOpen step (i + 1) ss opens in
    elim (Bool-cases (step i s).1) [
      | inl e ↦ rw e (λ h. (opens i s e, ih h))
      | inr e ↦ rw e (λ h. ground arith)
    ]

open_rx-IsClean : (p : TsnTaskParams) (rx : ℕ → SocketCalls) → IsClean (λ i. open_rx p i (rx i))
unfolding open_rx
open_rx-IsClean p rx i s h f = ground arith

open_rx-IsOpen :
    (p : TsnTaskParams) (rx : ℕ → SocketCalls) (i : ℕ) (s : NetSocket)
    → (open_rx p i (rx i) s).1 ≡ true
    → IsOpen (open_rx p i (rx i) s).0
unfolding open_rx
open_rx-IsOpen p rx i s h = ground arith

-- The transmission buffers of a task are all allocated, where it uses them.
abbrev pub HasBuffers : TsnTaskParams → (ℕ → SocketCalls) → Type 0
HasBuffers p tx = (i : ℕ) → (p.zero_copy ≡ false) ⊎ ((tx i).buffers ≡ pos p.num_packets)

open_tx-IsClean :
    (hs : HeaderSizes) (p : TsnTaskParams) (tx : ℕ → SocketCalls)
    → HasBuffers p tx
    → IsClean (λ i. open_tx hs p i (tx i))
unfolding open_tx tsn_net_transmit_init
open_tx-IsClean hs p tx has i s h f = let b = has i in ground arith

open_tx-IsOpen :
    (hs : HeaderSizes) (p : TsnTaskParams) (tx : ℕ → SocketCalls) (i : ℕ) (s : NetSocket)
    → (open_tx hs p i (tx i) s).1 ≡ true
    → IsOpen (open_tx hs p i (tx i) s).0
unfolding open_tx
open_tx-IsOpen hs p tx i s h =
    let k =
      transmit_init_keeps (tx i).buffers hs.eth hs.vlan
        (record (opened_socket p i 1 s) { tx_pending = false }) in
    ground arith

true_ne_false : true ≢ false
true_ne_false e = ground arith

-- A failed set-up closes all sockets, if no allocation of transmission buffers fails.
pub net_init_fails :
    (hs : HeaderSizes) (rx tx : ℕ → SocketCalls) (task : TsnTask)
    → All IsClosed task.sock_rx
    → All IsClosed task.sock_tx
    → HasBuffers task.params tx
    → (tsn_task_net_init hs rx tx task).1 ≡ false
    → All IsClosed (tsn_task_net_init hs rx tx task).0.sock_rx
      × All IsClosed (tsn_task_net_init hs rx tx task).0.sock_tx
unfolding tsn_task_net_init
net_init_fails hs rx tx task h g has =
    let rx_step : ℕ → NetSocket → NetSocket × Bool = λ i. open_rx task.params i (rx i) in
    let tx_step : ℕ → NetSocket → NetSocket × Bool = λ i. open_tx hs task.params i (tx i) in
    let r = error_path rx_step task.sock_rx (open_rx-IsClean task.params rx) h in
    let t = error_path tx_step task.sock_tx (open_tx-IsClean hs task.params tx has) g in
    elim (Bool-cases (open_all rx_step 0 task.sock_rx).2) [
      | inr e ↦ rw e (λ f. (r, g))
      | inl e ↦ elim (Bool-cases (open_all tx_step 0 task.sock_tx).2) [
        | inl e' ↦ rw (e, e') (λ f. absurd (true_ne_false f))
        | inr e' ↦ rw (e, e') (λ f. (r, t))
      ]
    ]

net_init-IsOpen :
    (hs : HeaderSizes) (rx tx : ℕ → SocketCalls) (task : TsnTask)
    → (tsn_task_net_init hs rx tx task).1 ≡ true
    → All IsOpen (tsn_task_net_init hs rx tx task).0.sock_rx
      × All IsOpen (tsn_task_net_init hs rx tx task).0.sock_tx
unfolding tsn_task_net_init
net_init-IsOpen hs rx tx task h =
    let r =
      open_all-IsOpen (λ i. open_rx task.params i (rx i)) 0 task.sock_rx
        (open_rx-IsOpen task.params rx) in
    let t =
      open_all-IsOpen (λ i. open_tx hs task.params i (tx i)) 0 task.sock_tx
        (open_tx-IsOpen hs task.params tx) in
    ground arith

-- What a task holds of threads, timers and sockets.
pub record IsReleased (t : TsnTask) : Type 0 where
  pub no_thread : t.thread ≡ false
  pub no_timer : t.timer ≡ false
  pub rx_closed : All IsClosed t.sock_rx
  pub tx_closed : All IsClosed t.sock_tx

net_exit-IsReleased :
    (t : TsnTask) → t.thread ≡ false → t.timer ≡ false → IsReleased (tsn_task_net_exit t)
unfolding tsn_task_net_exit
net_exit-IsReleased t h g = record {
  no_thread = h;
  no_timer = g;
  rx_closed = close_all t.sock_rx;
  tx_closed = close_all t.sock_tx;
}

net_init_keeps :
    (hs : HeaderSizes) (rx tx : ℕ → SocketCalls) (t : TsnTask)
    → ((tsn_task_net_init hs rx tx t).0.thread ≡ t.thread)
      × ((tsn_task_net_init hs rx tx t).0.timer ≡ t.timer)
unfolding tsn_task_net_init
net_init_keeps hs rx tx t = (ground arith, ground arith)

-- A registration that fails leaves nothing.
abbrev Cleans : Registered × Bool → Type 0
Cleans r = r.1 ≡ false → (r.0.allocated ≡ false) × IsReleased r.0.task

net_exit-Cleans : (t : TsnTask) → t.thread ≡ false → t.timer ≡ false → Cleans (register_net_exit t)
unfolding register_net_exit
net_exit-Cleans t h g f = (refl, net_exit-IsReleased t h g)

task_delete-Cleans :
    (c : RegisterCalls) (t : TsnTask)
    → (c.main_loop ≡ false → t.thread ≡ false)
    → t.timer ≡ false
    → Cleans (register_task_delete c t)
unfolding register_task_delete
task_delete-Cleans c t h g =
    if_cases (λ t. Cleans (register_net_exit t)) c.main_loop
      (λ e. net_exit-Cleans (record t { thread = false }) refl g) (λ e. net_exit-Cleans t (h e) g)

register_timer-Cleans :
    (c : RegisterCalls) (t : TsnTask)
    → (c.main_loop ≡ false → t.thread ≡ false)
    → t.timer ≡ false
    → Cleans (register_timer c t)
unfolding register_timer
register_timer-Cleans c t h g =
    if_cases Cleans c.timer_callback
      (λ e.
        if_cases Cleans c.creates_timer
          (λ e'.
            if_cases Cleans c.sets_callback (λ s f. ground arith)
              (λ s. task_delete-Cleans c (record t { timer = false }) h refl))
          (λ e'. task_delete-Cleans c t h g))
      (λ e f. ground arith)

register_thread-Cleans :
    (c : RegisterCalls) (t : TsnTask)
    → t.thread ≡ false
    → t.timer ≡ false
    → Cleans (register_thread c t)
unfolding register_thread
register_thread-Cleans c t h g =
    if_cases Cleans c.main_loop
      (λ e.
        if_cases Cleans c.creates_thread
          (λ e'. register_timer-Cleans c (record t { thread = true }) (λ e''. ground arith) g)
          (λ e'. net_exit-Cleans t h g))
      (λ e. register_timer-Cleans c t (λ e'. h) g)

-- A registration that fails frees the task, its thread, its timer and its sockets, whichever call failed,
-- if no allocation of transmission buffers fails.
pub register_fails :
    (hs : HeaderSizes) (c : RegisterCalls) (id : ℕ) (p : TsnTaskParams) (cleared : TsnTask)
    → IsReleased cleared
    → HasBuffers p c.tx
    → (tsn_task_register hs c id p cleared).1 ≡ false
    → ((tsn_task_register hs c id p cleared).0.allocated ≡ false)
      × IsReleased (tsn_task_register hs c id p cleared).0.task
unfolding tsn_task_register
register_fails hs c id p cleared h has =
    let t : TsnTask = record cleared { id = id; params = p } in
    let k = net_init_keeps hs c.rx c.tx t in
    let n : TsnTask × Bool = tsn_task_net_init hs c.rx c.tx t in
    if_cases Cleans c.allocates
      (λ e.
        if_cases Cleans n.1
          (λ e'.
            register_thread-Cleans c (record n.0 { stats = tsn_task_stats_init n.0.stats })
              (k.0 ∙ h.no_thread) (k.1 ∙ h.no_timer))
          (λ e' f.
            let closed = net_init_fails hs c.rx c.tx t h.rx_closed h.tx_closed has e' in
            (
              refl,
              record {
                no_thread = k.0 ∙ h.no_thread;
                no_timer = k.1 ∙ h.no_timer;
                rx_closed = closed.0;
                tx_closed = closed.1;
              },
            )))
      (λ e f. (refl, h))

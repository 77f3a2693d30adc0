-- ===== src/Tsn/Serial.antt =====
-- tsn/serial_iodevice.c: the commands that the UART's task finds in the bytes received, the pass of the
-- device, and the messages from the network. The UART, the allocator and the queue are inputs.
pub mod Lines
mod Tests
use rtos_apps.Base.{
  ℕ, zero, suc, ◌+◌, ◌-◌, ◌*◌, ◌%◌, ◌^◌, Bool, true, false, ◌&&◌, ◌||◌, not, Option, none, some,
  List, [], ◌∷◌, ◌++◌, length, take, drop, get_elem?, ltb, leb, ◌==◌, if◌then◌else◌, add32,
}

abbrev pub max_serial_command_len : ℕ
max_serial_command_len = 50

-- The buffer holds the `uart_rx_index` bytes received and not taken; `i` is the task's variable.
pub record UartRx : Type 0 where
  pub uart_rx_buf : List ℕ
  pub i : ℕ

-- `\n` or `\r`
abbrev pub is_eol : ℕ → Bool
is_eol b = b == 10 || b == 13

-- What the task gives away: the queue of feedback, how many allocations it has tried, and its counters.
pub record RxOut : Type 0 where
  pub feedback_rx_queue : List (List ℕ)
  pub tried : ℕ
  pub uart_rx_err_alloc : ℕ
  pub max_uart_buf_len : ℕ

-- A queue takes `feedback_queue_len` messages; `alloc n` tells whether the `n`-th allocation succeeds.
abbrev pub feedback_queue_len : ℕ
feedback_queue_len = 5

-- A command that is found: it is lost if its allocation fails, which is counted, or if the queue is full.
unfoldable pub enqueue : (ℕ → Bool) → List ℕ → RxOut → RxOut
enqueue alloc cmd o =
    let o' = record o { tried = o.tried + 1 } in
    if alloc o.tried
    then (if ltb (length o.feedback_rx_queue) feedback_queue_len
        then record o' { feedback_rx_queue = o.feedback_rx_queue ++ cmd ∷ [] }
        else o')
    else record o' { uart_rx_err_alloc = add32 o.uart_rx_err_alloc 1 }

-- The loop over the buffer; `none` is the end of the fuel.
unfoldable pub parse : (ℕ → Bool) → ℕ → UartRx → RxOut → Option (UartRx × RxOut)
unfolding enqueue
parse alloc zero s o = none
parse alloc (suc fuel) s o =
    let n = suc s.i in
    let shifted =
      parse alloc fuel (record { uart_rx_buf = drop n s.uart_rx_buf; i = 0 })
        (enqueue alloc (take n s.uart_rx_buf) o) in
    let next =
      parse alloc fuel
        (if n == max_serial_command_len
          then record { uart_rx_buf = []; i = 0 }
          else record s { i = n })
        o in
    elim (get_elem? s.uart_rx_buf s.i) [
      | none ↦ some (s, o)
      | some b ↦ if is_eol b then shifted else next
    ]

-- The bytes that a round of `uart_rx_task` takes from the UART.
unfoldable pub bytes_to_read : ℕ → UartRx → ℕ
bytes_to_read available s =
    if ltb available (max_serial_command_len - length s.uart_rx_buf)
    then available
    else max_serial_command_len - length s.uart_rx_buf

abbrev pub note_len : ℕ → RxOut → RxOut
note_len len o = record o {
  max_uart_buf_len = if ltb o.max_uart_buf_len len then len else o.max_uart_buf_len;
}

-- A round, with the bytes that the UART holds: the state, what is given away, and the bytes left there.
unfoldable pub uart_rx_round :
    (ℕ → Bool) → ℕ → List ℕ → UartRx → RxOut → Option (UartRx × RxOut × List ℕ)
unfolding parse bytes_to_read
uart_rx_round alloc fuel ring s o =
    let n = bytes_to_read (length ring) s in
    let buf = s.uart_rx_buf ++ take n ring in
    elim (parse alloc fuel (record s { uart_rx_buf = buf }) (note_len (length buf) o)) [
      | none ↦ none
      | some r ↦ some (r.0, r.1, drop n ring)
    ]

pub record SerialStats : Type 0 where
  pub num_cmds : ℕ
  pub num_null_cmds : ℕ
  pub uart_rx : ℕ
  pub max_feedback_queue_len : ℕ
  pub net_invalid_msg_id : ℕ
  pub net_invalid_msg_len : ℕ
  pub uart_tx_busy : ℕ

-- `cmd` holds the `cmd_len` bytes of the last command from the network.
pub record SerialCtx : Type 0 where
  pub new_cmd : Bool
  pub cmd : List ℕ
  pub feedback_rx_queue : List (List ℕ)
  pub stats : SerialStats

abbrev pub msg_serial : ℕ
msg_serial = 2

-- A message of the type `msg_id` with the length `cmd_len` and the bytes `cmd`.
unfoldable pub serial_iodevice_net_receive : ℕ → ℕ → List ℕ → SerialCtx → SerialCtx
serial_iodevice_net_receive msg_id cmd_len cmd ctx =
    if not (msg_id == msg_serial)
    then record ctx {
      stats = record ctx.stats { net_invalid_msg_id = add32 ctx.stats.net_invalid_msg_id 1 };
    }
    else if cmd_len == 0
    then record ctx { stats = record ctx.stats { num_null_cmds = add32 ctx.stats.num_null_cmds 1 } }
    else if leb cmd_len max_serial_command_len
    then record ctx {
      new_cmd = true;
      cmd = take cmd_len cmd;
      stats = record ctx.stats { num_cmds = add32 ctx.stats.num_cmds 1 };
    }
    else record ctx {
      stats = record ctx.stats { net_invalid_msg_len = add32 ctx.stats.net_invalid_msg_len 1 };
    }

-- A pass of the device: the context, what is sent to the UART, and the bytes of the message that goes to
-- the network. `sent` tells whether the UART takes the command.
unfoldable pub serial_iodevice_loop : Bool → SerialCtx → SerialCtx × Option (List ℕ) × List ℕ
serial_iodevice_loop sent ctx =
    let busy =
      if ctx.new_cmd && not sent then add32 ctx.stats.uart_tx_busy 1 else ctx.stats.uart_tx_busy in
    let len = length ctx.feedback_rx_queue in
    let most =
      if ltb ctx.stats.max_feedback_queue_len len then len else ctx.stats.max_feedback_queue_len in
    let stats = record ctx.stats { uart_tx_busy = busy; max_feedback_queue_len = most } in
    let ctx' = record ctx { new_cmd = false; stats = stats } in
    let to_uart = if ctx.new_cmd then some ctx.cmd else none in
    elim ctx.feedback_rx_queue [
      | [] ↦ (ctx', to_uart, [])
      | feedback ∷ rest ↦ (
        record ctx' {
          feedback_rx_queue = rest;
          stats = record stats { uart_rx = add32 stats.uart_rx 1 };
        },
        to_uart,
        feedback,
      )
    ]

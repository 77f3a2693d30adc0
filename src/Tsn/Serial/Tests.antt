-- ===== src/Tsn/Serial/Tests.antt =====
-- A buffer with the bytes of an unfinished command, and the theorem at it.
use rtos_apps.Base.{ℕ, ◌≡◌, refl, Bool, true, ltb, some, [], ◌∷◌}
use rtos_apps.Tsn.Serial.{RxOut, uart_rx_round}
use rtos_apps.Tsn.Serial.Lines.{state_of}

abbrev granted : ℕ → Bool
granted n = true

abbrev second_fails : ℕ → Bool
second_fails n = ltb n 1

abbrev nothing : RxOut
nothing = record { feedback_rx_queue = []; tried = 0; uart_rx_err_alloc = 0; max_uart_buf_len = 1 }

two_lines :
    uart_rx_round granted 51 (66 ∷ 10 ∷ 67 ∷ 13 ∷ 68 ∷ []) (state_of (65 ∷ [])) nothing
    ≡ some (
      state_of (68 ∷ []),
      record {
        feedback_rx_queue = (65 ∷ 66 ∷ 10 ∷ []) ∷ (67 ∷ 13 ∷ []) ∷ [];
        tried = 2;
        uart_rx_err_alloc = 0;
        max_uart_buf_len = 6;
      },
      [],
    )
unfolding uart_rx_round
two_lines = refl

-- The second line is lost.
lost_line :
    uart_rx_round second_fails 51 (66 ∷ 10 ∷ 67 ∷ 13 ∷ 68 ∷ []) (state_of (65 ∷ [])) nothing
    ≡ some (
      state_of (68 ∷ []),
      record {
        feedback_rx_queue = (65 ∷ 66 ∷ 10 ∷ []) ∷ [];
        tried = 2;
        uart_rx_err_alloc = 1;
        max_uart_buf_len = 6;
      },
      [],
    )
unfolding uart_rx_round
lost_line = refl

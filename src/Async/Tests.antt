-- ===== src/Async/Tests.antt =====
-- A round whose clock wraps: it starts 4 ticks before 2 ^ 32 and waits 10.
use rtos_apps.Base.{ℕ, ◌+◌, ◌≡◌, refl, arith, List, [], ◌∷◌}
use rtos_apps.Async.{AsyncMsg, Delivery, async_call_process, until, async_call_process_lem}

abbrev call : ℕ → AsyncMsg
call n = record { func = n; arg = 0 }

abbrev deliveries : List Delivery
deliveries =
    (record { msg = call 1; done_at = 4294967295 })
    ∷ (record { msg = call 2; done_at = 4294967302 })
    ∷ (record { msg = call 3; done_at = 4294967303 })
    ∷ []

made : until (4294967292 + 10) deliveries ≡ call 1 ∷ call 2 ∷ []
made = refl

async_call_process_lem_example :
    async_call_process 10 4294967292 deliveries ≡ until (4294967292 + 10) deliveries
async_call_process_lem_example =
    async_call_process_lem 10 4294967292 deliveries (omega arith)
      (omega arith, omega arith, (omega arith, omega arith, (omega arith, omega arith, tt)))

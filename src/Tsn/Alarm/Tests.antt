-- ===== src/Tsn/Alarm/Tests.antt =====
-- A socket of one packet, and the theorems at it.
use rtos_apps.Base.{◌+◌, ◌<◌, ◌≡◌, ◌⊎◌, refl, arith, true, false, none, some, List, [], ◌∷◌}
use rtos_apps.Base.Int.{pos}
use rtos_apps.Tsn.Task.{NetSocket}
use rtos_apps.Tsn.Task.Tests.{two_packets}
use rtos_apps.Tsn.Alarm.{AlarmFrame, TransmitCalls, Reception, alarm_net_transmit, monitor_loop}
use rtos_apps.Tsn.Alarm.Frames.{received, transmit_lem, monitor_gives_back}

abbrev tagged : NetSocket
tagged = record two_packets { hdr_len = 18; tx_pending = true }

abbrev calls : TransmitCalls
calls = record { ready = pos 2; now = 77; sent = pos 2 }

transmit_lem_run :
    let r = alarm_net_transmit 5 100 calls 2 3 (1 ∷ 2 ∷ 3 ∷ []) tagged in
    ((r.1 ≡ none) × (r.2 ≡ false) × (r.0.stats ≡ tagged.stats))
    ⊎ ((f : AlarmFrame) × (r.1 ≡ some f)
        × (f.iov_len ≡ 37)
        × (3 + 16 < 100)
        × ((true ≡ false) ⊎ (pos 2 ≡ pos 2))
        × (r.2 ≡ true → (r.0.tx_pending ≡ true) × (pos 2 ≡ pos 2)))
transmit_lem_run =
    transmit_lem 5 100 calls 2 3 (1 ∷ 2 ∷ 3 ∷ []) tagged refl (omega arith) (omega arith)

abbrev alarm : AlarmFrame
alarm = record { msg_id = 2; src_id = 5; len = 0; sched_time = 7; payload = []; iov_len = 34 }

abbrev receptions : List Reception
receptions =
    (record { pkts = pos 2; stamp = none; frame = alarm })
    ∷ (record { pkts = pos 1; stamp = none; frame = alarm })
    ∷ []

monitor_gives_back_run : (monitor_loop false receptions two_packets).2 ≡ received 2 receptions
monitor_gives_back_run = monitor_gives_back false receptions two_packets refl

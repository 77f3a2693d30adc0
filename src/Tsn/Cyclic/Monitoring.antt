-- ===== src/Tsn/Cyclic/Monitoring.antt =====
-- The monitoring of tsn/cyclic_task.c, and the latencies that it writes.
use rtos_apps.Base.{ℕ, ◌+◌, ◌-◌, ◌≡◌, ◌≤◌, arith, List, [], ◌∷◌, length, min}
use rtos_apps.Tsn.Cyclic.{Socket, get_monitoring}

-- From the i-th socket on, up to the limit's own index, one latency per socket is written: one more than
-- the limit, if there are more sockets than it.
pub get_monitoring_count :
    (num i : ℕ) (ss : List Socket)
    → i ≤ num
    → length (get_monitoring num i ss).1 ≡ min (length ss) (num + 1 - i)
unfolding get_monitoring
get_monitoring_count num i [] h = omega arith
get_monitoring_count num i (s ∷ ss) h = ground (arith, get_monitoring_count num (i + 1) ss)

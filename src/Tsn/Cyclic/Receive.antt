-- ===== src/Tsn/Cyclic/Receive.antt =====
-- The frames that the cyclic task of tsn/cyclic_task.c receives.
use rtos_apps.Base.{
  ℕ, zero, suc, ◌+◌, ◌*◌, ◌/◌, ◌%◌, ◌^◌, ◌≡◌, ◌≢◌, ◌↔◌, ◌<◌, ◌∙◌, refl, sym, ap, arith, Bool, true,
  false, ◌&&◌, not, Option, none, some, List, [], ◌∷◌, length, ◌==◌, ==_iff, if◌then◌else◌, add32,
}
use native.Mathlib.Nat.{mul-div_cancel}
use rtos_apps.Tsn.Cyclic.{
  Frame, SocketStats, receive_rounds, count_valid, cyclic_task_start_check, nsecs_per_sec,
}

module _ {ℓ} {P : Type ℓ} (expected peer : ℕ) where
  abbrev pub is_valid : Frame P → Bool
  is_valid f = f.sched_time == expected && f.src_id == peer

  -- The first frame of this cycle from the peer.
  abbrev pub first_valid : List (Frame P) → Option (Frame P)
  first_valid [] = none
  first_valid (f ∷ fs) = if is_valid f then some f else first_valid fs

  -- The frames before it that are from another cycle, and those of this cycle that are not from the peer.
  abbrev pub stale_before : List (Frame P) → ℕ
  stale_before [] = 0
  stale_before (f ∷ fs) =
      if is_valid f then 0 else (if f.sched_time == expected then 0 else 1) + stale_before fs

  abbrev pub foreign_before : List (Frame P) → ℕ
  foreign_before [] = 0
  foreign_before (f ∷ fs) =
      if is_valid f then 0 else (if f.sched_time == expected then 1 else 0) + foreign_before fs

  -- The frame handed on is the first of this cycle from the peer, and the frames before it are counted, each under
  -- its error, modulo 32 bits.
  pub receive_rounds_lem :
      (no_frame rx_frame : Bool) (fs : List (Frame P)) (t : SocketStats)
      → t.err_ts < 2 ^ 32
      → t.err_id < 2 ^ 32
      → let (u, handed) = receive_rounds expected peer no_frame rx_frame fs t in
        (handed ≡ first_valid fs)
        × (u.err_ts ≡ (t.err_ts + stale_before fs) % 2 ^ 32)
        × (u.err_id ≡ (t.err_id + foreign_before fs) % 2 ^ 32)
  unfolding receive_rounds count_valid
  receive_rounds_lem no_frame rx_frame [] t a b = (refl, omega arith, omega arith)
  receive_rounds_lem no_frame rx_frame (f ∷ fs) t a b = ground (
    arith,
    ==_iff f.sched_time expected,
    receive_rounds_lem no_frame true fs (record t { err_ts = add32 t.err_ts 1 }) (omega arith) b,
    receive_rounds_lem no_frame true fs (record t { err_id = add32 t.err_id 1 }) a (omega arith),
  )

  link_lem :
      (no_frame rx_frame : Bool) (fs : List (Frame P)) (t : SocketStats)
      → let (u, handed) = receive_rounds expected peer no_frame rx_frame fs t in
        ((u.link_status ≡ 1) ↔ (handed ≢ none))
        × (u.err_underflow ≡ (
            if not rx_frame && no_frame && length fs == 0
            then add32 t.err_underflow 1
            else t.err_underflow))
  unfolding receive_rounds count_valid
  link_lem no_frame rx_frame [] t = ((λ h. cc, λ h. absurd (h refl)), ground arith)
  link_lem no_frame rx_frame (f ∷ fs) t = ground (
    arith,
    link_lem no_frame true fs (record t { err_ts = add32 t.err_ts 1 }),
    link_lem no_frame true fs (record t { err_id = add32 t.err_id 1 }),
  )

  -- The link is up after a cycle exactly when a frame was handed on, and an underflow is counted exactly when
  -- no frame at all arrived.
  pub receive_link :
      (no_frame : Bool) (fs : List (Frame P)) (t : SocketStats)
      → let (u, handed) = receive_rounds expected peer no_frame false fs t in
        ((u.link_status ≡ 1) ↔ (handed ≢ none))
        × (u.err_underflow
            ≡ (if no_frame && length fs == 0 then add32 t.err_underflow 1 else t.err_underflow))
  unfolding receive_rounds count_valid
  receive_link no_frame fs t = link_lem no_frame false fs t

start_check : (period k : ℕ) → k * period ≡ nsecs_per_sec → cyclic_task_start_check period ≡ true
unfolding cyclic_task_start_check
start_check zero k e = absurd (omega (arith, e))
start_check (suc p) k e =
    let quotient : nsecs_per_sec / suc p ≡ k =
      ap (λ n. n / suc p) (sym e) ∙ mul-div_cancel k (omega arith) in
    let whole : nsecs_per_sec / suc p * suc p ≡ nsecs_per_sec = ap (λ q. q * suc p) quotient ∙ e in
    ground (arith, whole)

-- A task starts exactly with a period that divides a second.
pub start_check_iff :
    (period : ℕ)
    → (cyclic_task_start_check period ≡ true) ↔ ((k : ℕ) × (k * period ≡ nsecs_per_sec))
unfolding cyclic_task_start_check
start_check_iff period =
    (λ h. (nsecs_per_sec / period, ground arith), λ (k, e). start_check period k e)

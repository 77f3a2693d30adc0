-- ===== src/Tsn/Strategy/Margin.antt =====
-- tsn/motor/control_strategies.c: the check of positions in front of the control of the synchronized
-- strategy. Whether a motor is within its margin is an input; the updates of its statistics are left out.
use rtos_apps.Base.{
  ℕ, zero, suc, ◌+◌, ◌-◌, ◌≤◌, ◌<◌, ◌≡◌, refl, arith, Bool, true, false, map, replicate, List, [],
  ◌∷◌, ltb, if◌then◌else◌, add32, dec_lt, lt→ltb,
}

-- The fields of `struct controlled_motor_ctx` that the check changes.
pub record MotorErrors : Type 0 where
  pub nb_errors : ℕ
  pub err_margin : ℕ
  pub err_margin_stop : ℕ

-- The motor's part of `check_margin_position`.
unfoldable pub check_margin_position : Bool → MotorErrors → MotorErrors
check_margin_position true m = m
check_margin_position false m = record m { err_margin = add32 m.err_margin 1 }

-- One round of the first loop of `strategy_synchronized_loop`; false is the jump to the error.
unfoldable pub check_motor : Bool → MotorErrors → MotorErrors × Bool
unfolding check_margin_position
check_motor true m =
    if ltb 0 m.nb_errors then (record m { nb_errors = m.nb_errors - 1 }, true) else (m, true)
check_motor false m =
    let n = add32 m.nb_errors 1 in
    let m' = record (check_margin_position false m) { nb_errors = n } in
    if ltb 3 n
    then (record m' { err_margin_stop = add32 m'.err_margin_stop 1 }, false)
    else (m', true)

-- The loop over the motors, each with whether it is within its margin.
unfoldable pub check_motors : List (Bool × MotorErrors) → List MotorErrors × Bool
unfolding check_motor
check_motors [] = ([], true)
check_motors ((within, m) ∷ ms) =
    let r = check_motor within m in
    let rest = check_motors ms in
    if r.1 then (r.0 ∷ rest.0, rest.1) else (r.0 ∷ map (λ p. p.1) ms, false)

-- The check of one motor in the cycles of the control, up to the first error.
pub check_cycles : List Bool → MotorErrors → MotorErrors × Bool
check_cycles [] m = (m, true)
check_cycles (within ∷ ws) m =
    let r = check_motor within m in
    let rest = check_cycles ws r.0 in if r.1 then rest else (r.0, false)

abbrev pub misses : List Bool → ℕ
misses [] = 0
misses (within ∷ ws) = (if within then 0 else 1) + misses ws

check_motor_step :
    (within : Bool) (m : MotorErrors)
    → m.nb_errors ≤ 3
    → ((check_motor within m).0.nb_errors ≤ m.nb_errors + (if within then 0 else 1))
      × (m.nb_errors + (if within then 0 else 1) ≤ 3 → (check_motor within m).1 ≡ true)
unfolding check_motor
check_motor_step within m le = ground arith

-- Cycles out of the margin do not stop the control while they are at most three together with the errors
-- that are counted already, whatever their order.
pub check_cycles_tolerates :
    (ws : List Bool) (m : MotorErrors) → m.nb_errors + misses ws ≤ 3 → (check_cycles ws m).1 ≡ true
unfolding check_cycles
check_cycles_tolerates [] m le = refl
check_cycles_tolerates (within ∷ ws) m le =
    let s = check_motor_step within m (omega arith) in
    let ih = check_cycles_tolerates ws (check_motor within m).0 (omega (arith, s.0)) in
    rw (s.1 (omega arith)) ih

le→ltb-false : (a b : ℕ) → ¬ (a < b) → ltb a b ≡ false
le→ltb-false a b h = ground arith

check_motor_miss :
    (m : MotorErrors)
    → m.nb_errors ≤ 3
    → ((check_motor false m).0.nb_errors ≡ m.nb_errors + 1)
      × ((check_motor false m).1 ≡ ltb m.nb_errors 3)
unfolding check_motor
check_motor_miss m le = (ground arith, ground arith)

-- The cycle that makes the errors four, with no cycle within the margin in between, stops the control.
pub check_cycles_stops :
    (k : ℕ) (m : MotorErrors)
    → m.nb_errors ≤ 3
    → 4 ≤ m.nb_errors + k
    → (check_cycles (replicate k false) m).1 ≡ false
unfolding check_cycles
check_cycles_stops zero m le four = absurd (omega arith)
check_cycles_stops (suc k) m le four =
    let s = check_motor_miss m le in
    elim (dec_lt m.nb_errors 3) [
      | yes lt ↦
          rw (s.1, lt→ltb m.nb_errors 3 lt)
            (check_cycles_stops k (check_motor false m).0 (omega (arith, s.0)) (omega (arith, s.0)))
      | no ge ↦ rw (s.1, le→ltb-false m.nb_errors 3 ge) refl
    ]

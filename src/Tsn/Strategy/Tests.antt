-- ===== src/Tsn/Strategy/Tests.antt =====
-- Strategies over motors of one number, whose operations all succeed, and the theorems at them.
use rtos_apps.Base.{ℕ, ◌+◌, ◌<◌, ◌≡◌, refl, arith, min, true, false, some, [], ◌∷◌, replicate}
use rtos_apps.Tsn.Controller.{ControllerCtx, controller_command, cmd_stop, cmd_go}
use rtos_apps.Tsn.Controller.Tests.{running}
use rtos_apps.Tsn.Strategy.{
  prepare, reset, ctrl_strat_ok, StrategyOps, StrategyCtx, StatsControlStrategy, ctrl_strat_stop,
  strategy_of, control_strategy_context_init, max_num_control_strategies,
}
use rtos_apps.Tsn.Strategy.States.{
  rank, runs, successes, rank-runs, go_resumes, Steps, Steps-IsValid,
}
use rtos_apps.Tsn.Strategy.Margin.{
  MotorErrors, check_cycles, check_cycles_tolerates, check_cycles_stops,
}

abbrev ready : ℕ → StrategyOps ℕ ℕ
ready strategy = record {
  prepare_op = λ m. (ctrl_strat_ok, m);
  startup_op = λ m. (ctrl_strat_ok, m);
  init_op = λ m. (ctrl_strat_ok, m);
  loop_op = λ m. (ctrl_strat_ok, m);
  reset_op = λ m. (ctrl_strat_ok, m);
}

abbrev stats : StatsControlStrategy
stats = record { pending = false; current_strategy = 0; old_strategy = 0; state = prepare }

abbrev following : StrategyCtx ℕ ℕ
following = record {
  motors = record { motor_list = 7 ∷ []; num_motors = 1; contexts = 0 };
  current_strategy = 1;
  old_strategy = 0;
  num_strategies = 6;
  net_stats_pending = false;
  state = reset;
  stats_snap = stats;
  stats = stats;
  err_cb = true;
}

abbrev commanded : ControllerCtx
commanded = record running { cmd_client = true }

abbrev two_errors : MotorErrors
two_errors = record { nb_errors = 2; err_margin = 5; err_margin_stop = 0 }

rank-runs_example :
    rank (runs ready true 5 following).state ≡ min 4 (0 + successes ready true 5 following)
rank-runs_example = rank-runs ready true 5 following

go_resumes_example :
    let st = strategy_of {F = ℕ} {G = ℕ} ready true (λ motor. 0) (λ k ms. k) (λ fb motor. fb) in
    let stop = controller_command st cmd_stop commanded following in
    let go = controller_command st cmd_go stop.0 (runs ready true 3 stop.1) in
    (stop.1.current_strategy ≡ ctrl_strat_stop)
    × (stop.1.state ≡ reset)
    × (go.1.current_strategy ≡ 1)
    × (go.1.state ≡ reset)
    × (go.0.stopped ≡ false)
go_resumes_example =
    go_resumes ready (λ motor. 0) (λ k ms. k) (λ fb motor. fb) true 3 commanded following refl refl
      (λ e. ground arith)

Steps-IsValid_run :
    (a : StrategyCtx ℕ ℕ) × (control_strategy_context_init true true 2 0 ≡ some a)
    × (Steps ready a following
        → (1 < max_num_control_strategies) × (0 < max_num_control_strategies))
Steps-IsValid_run = Steps-IsValid ready 2 0 following (omega arith)

check_cycles_tolerates_run : (check_cycles (true ∷ false ∷ true ∷ []) two_errors).1 ≡ true
check_cycles_tolerates_run =
    check_cycles_tolerates (true ∷ false ∷ true ∷ []) two_errors (omega arith)

check_cycles_stops_run : (check_cycles (replicate 2 false) two_errors).1 ≡ false
check_cycles_stops_run = check_cycles_stops 2 two_errors (omega arith) (omega arith)

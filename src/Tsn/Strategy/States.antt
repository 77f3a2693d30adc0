-- ===== src/Tsn/Strategy/States.antt =====
-- How the strategies of tsn/motor/control_strategies.c start up, and how they change.
use rtos_apps.Base.{
  ℕ, zero, suc, ◌+◌, ◌≤◌, ◌<◌, ◌≡◌, ◌≢◌, refl, arith, min, Bool, true, false, some, List, ==_ne,
  if◌then◌else◌, ◌∙◌,
}
use native.Mathlib.Nat.{mod-lt}
use rtos_apps.Tsn.Controller.{ControllerCtx, controller_command, cmd_stop, cmd_go}
use rtos_apps.Tsn.Strategy.{
  StrategyState, prepare, startup, init, control, reset, ReturnCode, StrategyOps, StrategyCtx,
  ctrl_strat_stop, is_ok, control_strategy_state_machine, control_strategy_reset_strategy,
  control_strategy_previous_strategy, control_strategy_next_strategy, control_strategy_set_strategy,
  control_strategy_context_init, control_strategy_register_motor, control_strategy_set_state,
  strategy_of, max_num_control_strategies,
}

-- The steps that a state is behind the reset.
abbrev pub rank : StrategyState → ℕ
rank reset = 0
rank prepare = 1
rank startup = 2
rank init = 3
rank control = 4

rank_le : (s : StrategyState) → rank s ≤ 4
rank_le s = ground arith

module _ {ℓ} {A X : Type ℓ} (ops : ℕ → StrategyOps A X) where
  -- The result of the operation that a call makes.
  pub code : StrategyCtx A X → ReturnCode
  code ctx =
      let op = ops ctx.current_strategy in
      elim ctx.state [
        | prepare ↦ (op.prepare_op ctx.motors).0
        | startup ↦ (op.startup_op ctx.motors).0
        | init ↦ (op.init_op ctx.motors).0
        | control ↦ (op.loop_op ctx.motors).0
        | reset ↦ (op.reset_op ctx.motors).0
      ]

  -- `n` calls of the state machine in a row, and how many of their operations succeed.
  pub runs : Bool → ℕ → StrategyCtx A X → StrategyCtx A X
  runs queued zero ctx = ctx
  runs queued (suc n) ctx = runs queued n (control_strategy_state_machine ops queued ctx).0

  pub successes : Bool → ℕ → StrategyCtx A X → ℕ
  successes queued zero ctx = 0
  successes queued (suc n) ctx =
      (if is_ok (code ctx) then 1 else 0)
      + successes queued n (control_strategy_state_machine ops queued ctx).0

  machine_rank :
      (queued : Bool) (ctx : StrategyCtx A X)
      → rank (control_strategy_state_machine ops queued ctx).0.state
        ≡ min 4 (rank ctx.state + (if is_ok (code ctx) then 1 else 0))
  unfolding control_strategy_state_machine code
  machine_rank queued ctx = ground arith

  machine_keeps :
      (queued : Bool) (ctx : StrategyCtx A X)
      → ((control_strategy_state_machine ops queued ctx).0.current_strategy ≡ ctx.current_strategy)
        × ((control_strategy_state_machine ops queued ctx).0.old_strategy ≡ ctx.old_strategy)
  unfolding control_strategy_state_machine
  machine_keeps queued ctx = (ground arith, ground arith)

  -- The state is that of the successes so far: it moves on by one with each operation that succeeds, up to
  -- the control, and is kept by all others. So the control runs from the fourth success after a reset on.
  pub rank-runs :
      (queued : Bool) (n : ℕ) (ctx : StrategyCtx A X)
      → rank (runs queued n ctx).state ≡ min 4 (rank ctx.state + successes queued n ctx)
  unfolding runs successes
  rank-runs queued zero ctx = let b = rank_le ctx.state in omega arith
  rank-runs queued (suc n) ctx =
      let m = machine_rank queued ctx in
      let ih = rank-runs queued n (control_strategy_state_machine ops queued ctx).0 in omega arith

  runs_keeps :
      (queued : Bool) (n : ℕ) (ctx : StrategyCtx A X)
      → ((runs queued n ctx).current_strategy ≡ ctx.current_strategy)
        × ((runs queued n ctx).old_strategy ≡ ctx.old_strategy)
  unfolding runs
  runs_keeps queued zero ctx = (refl, refl)
  runs_keeps queued (suc n) ctx =
      let m = machine_keeps queued ctx in
      let ih = runs_keeps queued n (control_strategy_state_machine ops queued ctx).0 in
      (ih.0 ∙ m.0, ih.1 ∙ m.1)

  -- A stop by the controller's command starts the STOP strategy, and the following go, after any number of
  -- calls of the state machine, restarts the strategy that was stopped, if that was not STOP itself.
  pub go_resumes :
      {F G : Type ℓ} (clear_iq : A → A) (get_iq : ℕ → List A → F) (set_fb : G → A → A)
      (queued : Bool) (n : ℕ) (c : ControllerCtx) (ctx : StrategyCtx A X)
      → c.cmd_client ≡ true
      → c.stopped ≡ false
      → ctx.current_strategy ≢ ctrl_strat_stop
      → let st = strategy_of {F = F} {G = G} ops queued clear_iq get_iq set_fb in
        let stop = controller_command st cmd_stop c ctx in
        let go = controller_command st cmd_go stop.0 (runs queued n stop.1) in
        (stop.1.current_strategy ≡ ctrl_strat_stop)
        × (stop.1.state ≡ reset)
        × (go.1.current_strategy ≡ ctx.current_strategy)
        × (go.1.state ≡ reset)
        × (go.0.stopped ≡ false)
  unfolding controller_command strategy_of control_strategy_set_strategy
      control_strategy_previous_strategy control_strategy_set_state
  go_resumes {F} {G} clear_iq get_iq set_fb queued n c ctx client running ne =
      let stopped : StrategyCtx A X =
        control_strategy_set_state reset (record ctx {
          current_strategy = ctrl_strat_stop;
          old_strategy = ctx.current_strategy;
        }) in
      rw (client, running, ==_ne ctx.current_strategy ctrl_strat_stop ne)
        (refl, refl, (runs_keeps queued n stopped).1, refl, refl)

  -- The strategies' numbers stay within the table.
  pub record IsValid (ctx : StrategyCtx A X) : Type 0 where
    pub num : ctx.num_strategies ≡ max_num_control_strategies
    pub current : ctx.current_strategy < max_num_control_strategies
    pub old : ctx.old_strategy < max_num_control_strategies

  -- The calls that other tasks and the controller make.
  pub data Step : StrategyCtx A X → StrategyCtx A X → Type ℓ where
    machine_step :
        {ctx : StrategyCtx A X}
        → (queued : Bool) → Step ctx (control_strategy_state_machine ops queued ctx).0
    next_step : {ctx : StrategyCtx A X} → Step ctx (control_strategy_next_strategy ctx)
    previous_step : {ctx : StrategyCtx A X} → Step ctx (control_strategy_previous_strategy ctx)
    reset_step : {ctx : StrategyCtx A X} → Step ctx (control_strategy_reset_strategy ctx)
    set_step :
        {ctx : StrategyCtx A X}
        → (new : ℕ) → new < max_num_control_strategies
        → Step ctx (control_strategy_set_strategy new ctx)
    register_step :
        {ctx : StrategyCtx A X} → (motor : A) → Step ctx (control_strategy_register_motor motor ctx)

  pub data Steps : StrategyCtx A X → StrategyCtx A X → Type ℓ where
    here : {ctx : StrategyCtx A X} → Steps ctx ctx
    next : {a b c : StrategyCtx A X} → Step a b → Steps b c → Steps a c

  machine-IsValid :
      (queued : Bool) (ctx : StrategyCtx A X)
      → IsValid ctx
      → IsValid (control_strategy_state_machine ops queued ctx).0
  unfolding control_strategy_state_machine
  machine-IsValid queued ctx v = ground arith

  Step-IsValid : {a b : StrategyCtx A X} → Step a b → IsValid a → IsValid b
  unfolding control_strategy_next_strategy control_strategy_previous_strategy
      control_strategy_reset_strategy control_strategy_set_strategy control_strategy_set_state
      control_strategy_register_motor
  Step-IsValid (machine_step {ctx} queued) v = machine-IsValid queued ctx v
  Step-IsValid (next_step {ctx}) v = record {
    num = v.num;
    current = rw v.num (mod-lt (ctx.current_strategy + 1) (omega arith));
    old = v.current;
  }
  Step-IsValid previous_step v = record { num = v.num; current = v.old; old = v.current }
  Step-IsValid reset_step v = record { num = v.num; current = v.current; old = v.old }
  Step-IsValid (set_step {ctx} new lt) v = ground arith
  Step-IsValid (register_step motor) v = record { num = v.num; current = v.current; old = v.old }

  keep : {a b : StrategyCtx A X} → Steps a b → IsValid a → IsValid b
  keep here v = v
  keep (next s ss) v = keep ss (Step-IsValid s v)

  -- From a set-up with a strategy of the table, no sequence of calls leaves the table of strategies.
  pub Steps-IsValid :
      (first : ℕ) (contexts : X) (ctx : StrategyCtx A X)
      → first < max_num_control_strategies
      → (a : StrategyCtx A X) × (control_strategy_context_init true true first contexts ≡ some a)
        × (Steps a ctx
            → (ctx.current_strategy < max_num_control_strategies)
              × (ctx.old_strategy < max_num_control_strategies))
  unfolding control_strategy_context_init
  Steps-IsValid first contexts ctx lt = (
    _,
    refl,
    λ steps.
        let v = keep steps (record { num = refl; current = lt; old = lt }) in (v.current, v.old),
  )

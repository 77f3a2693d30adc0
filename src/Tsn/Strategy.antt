-- ===== src/Tsn/Strategy.antt =====
-- tsn/motor/control_strategies.c: the states of a strategy, the changes of strategy, the motors' list and
-- the check of positions of the synchronized strategy. `A` is a motor's context, `X` the union of the
-- strategies' contexts; the operations of the strategies, which compute in floating point, are a parameter.
pub mod States
pub mod Margin
mod Tests
use rtos_apps.Base.{
  ℕ, zero, suc, ◌+◌, ◌-◌, ◌*◌, ◌/◌, ◌%◌, ◌^◌, Bool, true, false, Option, none, some, List, [], ◌∷◌,
  ◌++◌, map, ltb, ◌==◌, not, if◌then◌else◌, get_elem?,
}
use rtos_apps.Tsn.Controller.{Strategy}

-- `control_strategy_state_t`
pub data StrategyState : Type 0 where
  prepare startup init control reset : StrategyState

pub data ReturnCode : Type 0 where
  ctrl_strat_error ctrl_strat_wait ctrl_strat_ok : ReturnCode

-- `struct stats_control_strategy`
pub record StatsControlStrategy : Type 0 where
  pub pending : Bool
  pub current_strategy : ℕ
  pub old_strategy : ℕ
  pub state : StrategyState

-- What the operations work on: the motors, their number and the union.
pub record Motors {ℓ} (A X : Type ℓ) : Type ℓ where
  pub motor_list : List A
  pub num_motors : ℕ
  pub contexts : X

-- `struct control_strategy_ops`
pub record StrategyOps {ℓ} (A X : Type ℓ) : Type ℓ where
  pub prepare_op : Motors A X → ReturnCode × Motors A X
  pub startup_op : Motors A X → ReturnCode × Motors A X
  pub init_op : Motors A X → ReturnCode × Motors A X
  pub loop_op : Motors A X → ReturnCode × Motors A X
  pub reset_op : Motors A X → ReturnCode × Motors A X

-- `err_cb` tells whether there is an error callback.
pub record StrategyCtx {ℓ} (A X : Type ℓ) : Type ℓ where
  pub motors : Motors A X
  pub current_strategy : ℕ
  pub old_strategy : ℕ
  pub num_strategies : ℕ
  pub net_stats_pending : Bool
  pub state : StrategyState
  pub stats_snap : StatsControlStrategy
  pub stats : StatsControlStrategy
  pub err_cb : Bool

-- The numbers of `control_strategies_t`
abbrev pub ctrl_strat_stop : ℕ
ctrl_strat_stop = 4

abbrev pub max_num_control_strategies : ℕ
max_num_control_strategies = 6

abbrev pub is_ok : ReturnCode → Bool
is_ok ctrl_strat_error = false
is_ok ctrl_strat_wait = false
is_ok ctrl_strat_ok = true

abbrev pub is_error : ReturnCode → Bool
is_error ctrl_strat_error = true
is_error ctrl_strat_wait = false
is_error ctrl_strat_ok = false

module _ {ℓ} {A X : Type ℓ} where
  unfoldable pub control_strategy_set_state : StrategyState → StrategyCtx A X → StrategyCtx A X
  control_strategy_set_state s ctx = record ctx { state = s }

  -- The state after one of the operations, with the next state for its success, and whether the
  -- callback is called.
  unfoldable pub after_op :
      StrategyState → ReturnCode × Motors A X → StrategyCtx A X → StrategyCtx A X × Bool
  after_op next r ctx =
      let ctx' = record ctx { motors = r.1 } in
      (
        (if is_ok r.0 then record ctx' { state = next } else ctx'),
        (if is_error r.0 then ctx.err_cb else false),
      )

  -- The flag of `motor_stats_send`; the values that it copies are left out.
  unfoldable pub motor_stats_send : Bool → StrategyCtx A X → StrategyCtx A X
  motor_stats_send queued ctx =
      if ctx.net_stats_pending then ctx else record ctx { net_stats_pending = queued }

  -- `queued` tells whether the call of the sending is queued.
  unfoldable pub control_strategy_state_machine :
      (ℕ → StrategyOps A X) → Bool → StrategyCtx A X → StrategyCtx A X × Bool
  unfolding after_op motor_stats_send
  control_strategy_state_machine ops queued ctx =
      let op = ops ctx.current_strategy in
      elim ctx.state [
        | prepare ↦ after_op startup (op.prepare_op ctx.motors) ctx
        | startup ↦ after_op init (op.startup_op ctx.motors) ctx
        | init ↦ after_op control (op.init_op ctx.motors) ctx
        | control ↦ after_op control (op.loop_op ctx.motors) (motor_stats_send queued ctx)
        | reset ↦ after_op prepare (op.reset_op ctx.motors) ctx
      ]

  unfoldable pub control_strategy_reset_strategy : StrategyCtx A X → StrategyCtx A X
  unfolding control_strategy_set_state
  control_strategy_reset_strategy ctx = control_strategy_set_state reset ctx

  unfoldable pub control_strategy_previous_strategy : StrategyCtx A X → StrategyCtx A X
  unfolding control_strategy_set_state
  control_strategy_previous_strategy ctx =
      control_strategy_set_state reset
        (record ctx { current_strategy = ctx.old_strategy; old_strategy = ctx.current_strategy })

  unfoldable pub control_strategy_next_strategy : StrategyCtx A X → StrategyCtx A X
  unfolding control_strategy_set_state
  control_strategy_next_strategy ctx = control_strategy_set_state reset (record ctx {
    old_strategy = ctx.current_strategy;
    current_strategy = (ctx.current_strategy + 1) % ctx.num_strategies;
  })

  unfoldable pub control_strategy_set_strategy : ℕ → StrategyCtx A X → StrategyCtx A X
  unfolding control_strategy_set_state
  control_strategy_set_strategy new ctx =
      if ctx.current_strategy == new
      then ctx
      else control_strategy_set_state reset
          (record ctx { old_strategy = ctx.current_strategy; current_strategy = new })

  -- A fresh context with the first strategy, for the contents `contexts` of the union; `allocates` and
  -- `opens` are the results of the allocation and of the set-up of the network statistics.
  unfoldable pub control_strategy_context_init : Bool → Bool → ℕ → X → Option (StrategyCtx A X)
  control_strategy_context_init false opens first contexts = none
  control_strategy_context_init true false first contexts = none
  control_strategy_context_init true true first contexts =
      let stats : StatsControlStrategy = record {
        pending = false;
        current_strategy = 0;
        old_strategy = 0;
        state = prepare;
      } in
      some (record {
        motors = record { motor_list = []; num_motors = 0; contexts = contexts };
        current_strategy = first;
        old_strategy = first;
        num_strategies = max_num_control_strategies;
        net_stats_pending = false;
        state = reset;
        stats_snap = stats;
        stats = stats;
        err_cb = false;
      })

  unfoldable pub control_strategy_register_motor : A → StrategyCtx A X → StrategyCtx A X
  control_strategy_register_motor motor ctx = record ctx {
    motors = record ctx.motors {
      motor_list = motor ∷ ctx.motors.motor_list;
      num_motors = (ctx.motors.num_motors + 1) % 2 ^ 16;
    };
  }

  unfoldable pub control_strategy_reset_iq : (A → A) → StrategyCtx A X → StrategyCtx A X
  control_strategy_reset_iq clear_iq ctx = record ctx {
    motors = record ctx.motors { motor_list = map clear_iq ctx.motors.motor_list };
  }

  -- The strategy's part of the dump; the motors' part is left out.
  unfoldable pub control_strategy_stats_dump : Bool → StrategyCtx A X → StrategyCtx A X
  control_strategy_stats_dump queued ctx =
      let stats = record ctx.stats {
        state = ctx.state;
        old_strategy = ctx.old_strategy;
        current_strategy = ctx.current_strategy;
      } in
      if ctx.stats_snap.pending
      then ctx
      else record ctx { stats = stats; stats_snap = record stats { pending = queued } }

-- The rounds over the motors in front of the one at place `k`, that the feedback or the current is of.
abbrev pub update_at {ℓ} : {A : Type ℓ} → (A → A) → ℕ → List A → List A
update_at f k [] = []
update_at f zero (a ∷ as') = f a ∷ as'
update_at f (suc k) (a ∷ as') = a ∷ update_at f k as'

-- The functions that the controller calls, for the currents `F` and the feedback `G` of a motor, which
-- the controller knows by its place in the list.
unfoldable pub strategy_of {ℓ} :
    {A X F G : Type ℓ}
    → (ℕ → StrategyOps A X)
    → Bool
    → (A → A)
    → (ℕ → List A → F)
    → (G → A → A)
    → Strategy (StrategyCtx A X) F G
unfolding control_strategy_next_strategy control_strategy_previous_strategy
    control_strategy_set_strategy control_strategy_reset_strategy control_strategy_state_machine
    control_strategy_reset_iq control_strategy_stats_dump
strategy_of ops queued clear_iq get_iq set_fb = record {
  next_strategy = control_strategy_next_strategy;
  previous_strategy = control_strategy_previous_strategy;
  set_strategy_stop = control_strategy_set_strategy ctrl_strat_stop;
  reset_strategy = control_strategy_reset_strategy;
  state_machine = control_strategy_state_machine ops queued;
  reset_iq = control_strategy_reset_iq clear_iq;
  get_iq = λ k ctx. get_iq k ctx.motors.motor_list;
  set_feedback = λ k fb ctx. record ctx {
    motors = record ctx.motors { motor_list = update_at (set_fb fb) k ctx.motors.motor_list };
  };
  stats_dump = control_strategy_stats_dump queued;
}

-- ===== src/Tsn/Scenario.antt =====
-- tsn/motor/scenarios.c: the scenarios of the motors, which go round a table of blocks.
pub mod Blocks
pub mod Interlaced
pub mod Rounds
mod Tests
use rtos_apps.Base.{
  ℕ, zero, suc, ◌+◌, ◌*◌, ◌/◌, ◌%◌, ◌^◌, Bool, true, false, Option, none, some, List, [], ◌∷◌,
  length, get_elem?, ◌==◌, if◌then◌else◌, mul32,
}
use rtos_apps.Base.Int.{ℤ, pos, negsuc}
use rtos_apps.Tsn.Scenario.Blocks.{ScenarioBlock, blocks_0, blocks_0_rev, blocks_test}
use rtos_apps.Tsn.Scenario.Interlaced.{blocks_2}

-- `blocks` is `none` for the null pointer.
pub record ScenarioCtx : Type 0 where
  pub blocks : Option (List ScenarioBlock)
  pub blocks_iterator : ℕ
  pub scenario_size : ℕ
  pub app_period_ns : ℕ
  pub pos_target : ℤ
  pub time_to_reach : ℕ
  pub after_delay : ℕ
  pub speed_max : ℕ

abbrev pub app_period_250_us : ℕ
app_period_250_us = 250000

abbrev pub load : ScenarioBlock → ScenarioCtx → ScenarioCtx
load b ctx = record ctx {
  pos_target = b.pos_target;
  speed_max = b.speed_max;
  after_delay = mul32 b.after_delay app_period_250_us / ctx.app_period_ns;
}

abbrev pub load_read : Option ScenarioBlock → ScenarioCtx → Option ScenarioCtx
load_read none ctx = none
load_read (some b) ctx = if ctx.app_period_ns == 0 then none else some (load b ctx)

abbrev pub load_from : Option (List ScenarioBlock) → ScenarioCtx → Option ScenarioCtx
load_from none ctx = some ctx
load_from (some bs) ctx = load_read (get_elem? bs ctx.blocks_iterator) ctx

-- `none` is a read behind the table, or a division by 0.
unfoldable pub get_scenario_block : ScenarioCtx → Option ScenarioCtx
get_scenario_block ctx = load_from ctx.blocks ctx

-- `none` is a division by 0.
unfoldable pub next_block_scenario : ScenarioCtx → Option ScenarioCtx
next_block_scenario ctx =
    if ctx.scenario_size == 0
    then none
    else some
        (record ctx { blocks_iterator = (ctx.blocks_iterator + 1) % 2 ^ 16 % ctx.scenario_size })

-- The table of a scenario.
unfoldable pub blocks_of : ℕ → Option (List ScenarioBlock)
blocks_of id =
    if id == 0
    then some blocks_0
    else if id == 1
    then some blocks_0_rev
    else if id == 2
    then some blocks_2
    else if id == 3
    then some blocks_test
    else none

-- The context and whether the scenario exists (result 0, not -1).
unfoldable pub scenario_init : ScenarioCtx → ℕ → ℕ → ScenarioCtx × Bool
unfolding blocks_of
scenario_init ctx id_scenario app_period_ns =
    let ctx' = record ctx {
      blocks_iterator = 0;
      pos_target = pos 0;
      speed_max = 0;
      app_period_ns = app_period_ns;
    } in
    elim (blocks_of id_scenario) [
      | none ↦ (ctx', false)
      | some bs ↦ (record ctx' { blocks = some bs; scenario_size = length bs }, true)
    ]

unfoldable pub reset_scenario : ScenarioCtx → ScenarioCtx
reset_scenario ctx = record ctx {
  blocks = none;
  blocks_iterator = 0;
  pos_target = pos 0;
  speed_max = 0;
  after_delay = 0;
  time_to_reach = 0;
  scenario_size = 0;
}

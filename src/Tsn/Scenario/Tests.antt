-- ===== src/Tsn/Scenario/Tests.antt =====
-- The scenario of two motors in turns, and the theorems at it.
use rtos_apps.Base.{◌%◌, ◌≡◌, arith, none, some, List, [], ◌∷◌, length, get_elem?}
use rtos_apps.Base.Int.{pos}
use rtos_apps.Tsn.Scenario.Blocks.{ScenarioBlock}
use rtos_apps.Tsn.Scenario.{ScenarioCtx, blocks_of, scenario_init, get_scenario_block}
use rtos_apps.Tsn.Scenario.Rounds.{turns, Loads, turns_load, blocks_have_speed, resting}

abbrev fresh : ScenarioCtx
fresh = record {
  blocks = none;
  blocks_iterator = 0;
  scenario_size = 0;
  app_period_ns = 0;
  pos_target = pos 0;
  time_to_reach = 0;
  after_delay = 0;
  speed_max = 0;
}

turns_load_example :
    (bs : List ScenarioBlock) × (b : ScenarioBlock) × (c c' : ScenarioCtx) × (blocks_of 2 ≡ some bs)
    × (get_elem? bs (200 % length bs) ≡ some b)
    × (turns 200 (scenario_init fresh 2 125000).0 ≡ some c)
    × (get_scenario_block c ≡ some c')
    × Loads b 125000 c'
turns_load_example = turns_load fresh 2 125000 200 (omega arith) (omega arith)

blocks_have_speed_run :
    (bs : List ScenarioBlock) × (blocks_of 3 ≡ some bs) × (resting 0 bs ≡ 5 ∷ [])
blocks_have_speed_run = blocks_have_speed 3 (omega arith)

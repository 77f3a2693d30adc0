-- ===== src/Tsn/Scenario/Blocks.antt =====
-- The tables of tsn/motor/scenarios.c. Positions are in thousandths of a revolution, in which all the
-- floating-point numbers of the tables are whole.
use rtos_apps.Base.{ℕ, List, [], ◌∷◌, ◌++◌}
use rtos_apps.Base.Int.{ℤ, pos, negsuc}

-- `struct scenario_block`, less `time_to_reach`, which is 0 in all tables.
pub record ScenarioBlock : Type 0 where
  pub pos_target : ℤ
  pub after_delay : ℕ
  pub speed_max : ℕ

abbrev pub block : ℤ → ℕ → ℕ → ScenarioBlock
block p d v = record { pos_target = p; after_delay = d; speed_max = v }

-- `blocks_0`
abbrev pub blocks_0 : List ScenarioBlock
blocks_0 =
    block (negsuc 124) 1000 500
    ∷ block (negsuc 749) 1000 500
    ∷ block (negsuc 249) 1000 500
    ∷ block (pos 1875) 1000 200
    ∷ block (negsuc 624) 1000 200
    ∷ block (negsuc 374) 1000 500
    ∷ block (negsuc 249) 1000 500
    ∷ block (pos 20500) 1000 500
    ∷ block (pos 7250) 1000 500
    ∷ block (pos 1750) 1000 500
    ∷ block (pos 1625) 1000 5
    ∷ block (pos 0) 1000 500
    ∷ block (pos 250) 1000 10
    ∷ block (negsuc 249) 1000 10
    ∷ block (negsuc 124) 1000 500
    ∷ block (pos 125) 1000 500
    ∷ block (pos 250) 1000 500
    ∷ block (pos 250) 1000 500
    ∷ block (pos 0) 1000 500
    ∷ []

-- `blocks_0_rev`
abbrev pub blocks_0_rev : List ScenarioBlock
blocks_0_rev =
    block (pos 125) 1000 500
    ∷ block (pos 750) 1000 500
    ∷ block (pos 250) 1000 500
    ∷ block (negsuc 1874) 1000 200
    ∷ block (pos 625) 1000 200
    ∷ block (pos 375) 1000 500
    ∷ block (pos 250) 1000 500
    ∷ block (negsuc 20499) 1000 500
    ∷ block (negsuc 7249) 1000 500
    ∷ block (negsuc 1749) 1000 500
    ∷ block (negsuc 1624) 1000 5
    ∷ block (pos 0) 1000 500
    ∷ block (pos 250) 1000 10
    ∷ block (negsuc 249) 1000 10
    ∷ block (negsuc 124) 1000 500
    ∷ block (pos 125) 1000 500
    ∷ block (pos 250) 1000 500
    ∷ block (pos 250) 1000 500
    ∷ block (pos 0) 1000 500
    ∷ []

-- The blocks of `blocks_test` up to number 28; the gap is filled with zeros.
abbrev pub blocks_test_begin : List ScenarioBlock
blocks_test_begin =
    block (pos 125) 100 15
    ∷ block (pos 250) 100 15
    ∷ block (pos 375) 100 15
    ∷ block (pos 500) 100 15
    ∷ block (pos 625) 100 15
    ∷ block (pos 0) 0 0
    ∷ block (pos 750) 100 15
    ∷ block (pos 875) 100 15
    ∷ block (pos 1000) 100 15
    ∷ block (pos 1250) 100 15
    ∷ block (pos 1500) 100 15
    ∷ block (pos 1750) 100 15
    ∷ block (pos 2000) 100 15
    ∷ block (pos 2500) 100 15
    ∷ block (pos 3000) 100 15
    ∷ block (pos 3125) 100 100
    ∷ block (pos 3250) 100 100
    ∷ block (pos 3375) 100 100
    ∷ block (pos 3500) 0 100
    ∷ block (pos 3625) 100 100
    ∷ block (pos 3750) 100 100
    ∷ block (pos 3875) 100 100
    ∷ block (pos 4000) 100 100
    ∷ block (pos 4250) 100 100
    ∷ block (pos 4500) 100 100
    ∷ block (pos 4750) 100 100
    ∷ block (pos 5000) 100 100
    ∷ block (pos 5500) 100 100
    ∷ block (pos 6000) 100 100
    ∷ []

-- The blocks of `blocks_test` from number 29 on.
abbrev pub blocks_test_end : List ScenarioBlock
blocks_test_end =
    block (pos 6125) 100 500
    ∷ block (pos 6250) 100 500
    ∷ block (pos 6375) 100 500
    ∷ block (pos 6500) 100 500
    ∷ block (pos 6625) 100 500
    ∷ block (pos 6750) 100 500
    ∷ block (pos 6875) 100 500
    ∷ block (pos 7000) 100 500
    ∷ block (pos 7250) 100 500
    ∷ block (pos 7500) 100 500
    ∷ block (pos 7750) 100 500
    ∷ block (pos 8000) 100 500
    ∷ block (pos 8500) 100 500
    ∷ block (pos 9000) 1000 500
    ∷ block (pos 14000) 500 500
    ∷ block (pos 24000) 1000 1000
    ∷ block (pos 0) 1000 1000
    ∷ []

abbrev pub blocks_test : List ScenarioBlock
blocks_test = blocks_test_begin ++ blocks_test_end

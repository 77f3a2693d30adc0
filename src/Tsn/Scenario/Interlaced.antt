-- ===== src/Tsn/Scenario/Interlaced.antt =====
-- The table of the interlaced scenario of tsn/motor/scenarios.c, in parts of 24 blocks.
use rtos_apps.Base.{List, [], ◌∷◌, ◌++◌}
use rtos_apps.Base.Int.{pos}
use rtos_apps.Tsn.Scenario.Blocks.{ScenarioBlock, block}

-- The blocks 0 to 23 of `blocks_2`.
abbrev pub blocks_2_0 : List ScenarioBlock
blocks_2_0 =
    block (pos 125) 0 8
    ∷ block (pos 250) 0 8
    ∷ block (pos 375) 0 8
    ∷ block (pos 500) 0 16
    ∷ block (pos 625) 0 16
    ∷ block (pos 750) 0 16
    ∷ block (pos 875) 0 32
    ∷ block (pos 1000) 0 32
    ∷ block (pos 1125) 0 32
    ∷ block (pos 1250) 0 64
    ∷ block (pos 1375) 0 64
    ∷ block (pos 1500) 0 64
    ∷ block (pos 1625) 0 128
    ∷ block (pos 1750) 0 128
    ∷ block (pos 1875) 0 128
    ∷ block (pos 2000) 0 256
    ∷ block (pos 2125) 0 256
    ∷ block (pos 2250) 0 256
    ∷ block (pos 2375) 0 512
    ∷ block (pos 2500) 0 1024
    ∷ block (pos 2625) 0 1024
    ∷ block (pos 2750) 0 2048
    ∷ block (pos 2875) 0 2048
    ∷ block (pos 3000) 0 2048
    ∷ []

-- The blocks 24 to 47 of `blocks_2`.
abbrev pub blocks_2_1 : List ScenarioBlock
blocks_2_1 =
    block (pos 3125) 0 2048
    ∷ block (pos 3250) 0 2048
    ∷ block (pos 3375) 0 2048
    ∷ block (pos 3500) 0 2048
    ∷ block (pos 3625) 0 2048
    ∷ block (pos 3750) 0 2048
    ∷ block (pos 3875) 0 2048
    ∷ block (pos 4000) 0 2048
    ∷ block (pos 4125) 0 2048
    ∷ block (pos 4250) 0 2048
    ∷ block (pos 4375) 0 2048
    ∷ block (pos 4500) 0 2048
    ∷ block (pos 4625) 0 2048
    ∷ block (pos 4750) 0 2048
    ∷ block (pos 4875) 0 2048
    ∷ block (pos 5000) 0 2048
    ∷ block (pos 5125) 0 4000
    ∷ block (pos 5250) 0 4000
    ∷ block (pos 5375) 0 4000
    ∷ block (pos 5500) 0 4000
    ∷ block (pos 5625) 0 4000
    ∷ block (pos 5750) 0 4000
    ∷ block (pos 5875) 0 4000
    ∷ block (pos 6000) 0 4000
    ∷ []

-- The blocks 48 to 71 of `blocks_2`.
abbrev pub blocks_2_2 : List ScenarioBlock
blocks_2_2 =
    block (pos 6125) 0 4000
    ∷ block (pos 6250) 0 4000
    ∷ block (pos 6375) 0 4000
    ∷ block (pos 6500) 0 4000
    ∷ block (pos 6625) 0 4000
    ∷ block (pos 6750) 0 4000
    ∷ block (pos 6875) 0 4000
    ∷ block (pos 7000) 0 4000
    ∷ block (pos 7125) 0 4000
    ∷ block (pos 7250) 0 4000
    ∷ block (pos 7375) 0 4000
    ∷ block (pos 7500) 0 4000
    ∷ block (pos 7625) 0 4000
    ∷ block (pos 7750) 0 4000
    ∷ block (pos 7875) 0 4000
    ∷ block (pos 8000) 0 4000
    ∷ block (pos 8125) 0 4000
    ∷ block (pos 8250) 0 4000
    ∷ block (pos 8375) 0 4000
    ∷ block (pos 8500) 0 4000
    ∷ block (pos 8625) 0 4000
    ∷ block (pos 8750) 0 4000
    ∷ block (pos 8875) 0 4000
    ∷ block (pos 9000) 0 4000
    ∷ []

-- The blocks 72 to 95 of `blocks_2`.
abbrev pub blocks_2_3 : List ScenarioBlock
blocks_2_3 =
    block (pos 9125) 0 4000
    ∷ block (pos 9250) 0 4000
    ∷ block (pos 9375) 0 4000
    ∷ block (pos 9500) 0 4000
    ∷ block (pos 9625) 0 4000
    ∷ block (pos 9750) 0 4000
    ∷ block (pos 9875) 0 4000
    ∷ block (pos 10000) 0 4000
    ∷ block (pos 10125) 0 4000
    ∷ block (pos 10250) 0 4000
    ∷ block (pos 10375) 0 4000
    ∷ block (pos 10500) 0 4000
    ∷ block (pos 10625) 0 4000
    ∷ block (pos 10750) 0 4000
    ∷ block (pos 10875) 0 4000
    ∷ block (pos 11000) 0 4000
    ∷ block (pos 11125) 0 4000
    ∷ block (pos 11250) 0 4000
    ∷ block (pos 11375) 0 4000
    ∷ block (pos 11500) 0 4000
    ∷ block (pos 11625) 0 4000
    ∷ block (pos 11750) 0 4000
    ∷ block (pos 11875) 0 4000
    ∷ block (pos 12000) 0 4000
    ∷ []

-- The blocks 96 to 119 of `blocks_2`.
abbrev pub blocks_2_4 : List ScenarioBlock
blocks_2_4 =
    block (pos 12125) 0 4000
    ∷ block (pos 12250) 0 4000
    ∷ block (pos 12375) 0 4000
    ∷ block (pos 12500) 0 4000
    ∷ block (pos 12625) 0 4000
    ∷ block (pos 12750) 0 4000
    ∷ block (pos 12875) 0 4000
    ∷ block (pos 13000) 0 4000
    ∷ block (pos 13125) 0 4000
    ∷ block (pos 13250) 0 4000
    ∷ block (pos 13375) 0 4000
    ∷ block (pos 13500) 0 4000
    ∷ block (pos 13625) 0 4000
    ∷ block (pos 13750) 0 4000
    ∷ block (pos 13875) 0 4000
    ∷ block (pos 14000) 0 4000
    ∷ block (pos 14125) 0 4000
    ∷ block (pos 14250) 0 4000
    ∷ block (pos 14375) 0 4000
    ∷ block (pos 14500) 0 4000
    ∷ block (pos 14625) 0 4000
    ∷ block (pos 14750) 0 4000
    ∷ block (pos 14875) 0 4000
    ∷ block (pos 15000) 0 4000
    ∷ []

-- The blocks 120 to 143 of `blocks_2`.
abbrev pub blocks_2_5 : List ScenarioBlock
blocks_2_5 =
    block (pos 15125) 0 4000
    ∷ block (pos 15250) 0 4000
    ∷ block (pos 15375) 0 4000
    ∷ block (pos 15500) 0 4000
    ∷ block (pos 15625) 0 4000
    ∷ block (pos 15750) 0 4000
    ∷ block (pos 15875) 0 4000
    ∷ block (pos 16000) 0 4000
    ∷ block (pos 16125) 0 4000
    ∷ block (pos 16250) 0 4000
    ∷ block (pos 16375) 0 4000
    ∷ block (pos 16500) 0 4000
    ∷ block (pos 16625) 0 4000
    ∷ block (pos 16750) 0 4000
    ∷ block (pos 16875) 0 4000
    ∷ block (pos 17000) 0 4000
    ∷ block (pos 17125) 0 4000
    ∷ block (pos 17250) 0 4000
    ∷ block (pos 17375) 0 4000
    ∷ block (pos 17500) 0 4000
    ∷ block (pos 17625) 0 4000
    ∷ block (pos 17750) 0 4000
    ∷ block (pos 17875) 0 4000
    ∷ block (pos 18000) 0 4000
    ∷ []

-- The blocks 144 to 167 of `blocks_2`.
abbrev pub blocks_2_6 : List ScenarioBlock
blocks_2_6 =
    block (pos 17000) 0 4000
    ∷ block (pos 16250) 0 4000
    ∷ block (pos 16125) 0 4000
    ∷ block (pos 15500) 0 4000
    ∷ block (pos 15000) 0 4000
    ∷ block (pos 14750) 0 4000
    ∷ block (pos 14375) 0 4000
    ∷ block (pos 14000) 0 4000
    ∷ block (pos 13500) 0 4000
    ∷ block (pos 13000) 0 4000
    ∷ block (pos 12000) 0 4000
    ∷ block (pos 11500) 0 4000
    ∷ block (pos 11250) 0 4000
    ∷ block (pos 11000) 0 4000
    ∷ block (pos 10625) 0 4000
    ∷ block (pos 10500) 0 4000
    ∷ block (pos 10000) 0 4000
    ∷ block (pos 9500) 0 4000
    ∷ block (pos 9250) 0 4000
    ∷ block (pos 8750) 0 4000
    ∷ block (pos 8250) 0 4000
    ∷ block (pos 8000) 0 4000
    ∷ block (pos 7625) 0 4000
    ∷ block (pos 7500) 0 4000
    ∷ []

-- The blocks 168 to 191 of `blocks_2`.
abbrev pub blocks_2_7 : List ScenarioBlock
blocks_2_7 =
    block (pos 7000) 0 4000
    ∷ block (pos 6500) 0 4000
    ∷ block (pos 5500) 0 4000
    ∷ block (pos 5250) 0 4000
    ∷ block (pos 5125) 0 4000
    ∷ block (pos 4250) 0 4000
    ∷ block (pos 3875) 0 4000
    ∷ block (pos 3625) 0 4000
    ∷ block (pos 3500) 0 4000
    ∷ block (pos 3250) 0 4000
    ∷ block (pos 3125) 0 4000
    ∷ block (pos 3000) 0 4000
    ∷ block (pos 2500) 0 4000
    ∷ block (pos 3000) 0 4000
    ∷ block (pos 2500) 0 4000
    ∷ block (pos 2000) 0 4000
    ∷ block (pos 1750) 0 4000
    ∷ block (pos 1500) 0 4000
    ∷ block (pos 1250) 0 4000
    ∷ block (pos 1000) 0 4000
    ∷ block (pos 750) 0 4000
    ∷ block (pos 500) 0 4000
    ∷ block (pos 250) 0 4000
    ∷ block (pos 0) 5000 4000
    ∷ []

abbrev pub blocks_2 : List ScenarioBlock
blocks_2 =
    blocks_2_0 ++ blocks_2_1 ++ blocks_2_2 ++ blocks_2_3 ++ blocks_2_4 ++ blocks_2_5 ++ blocks_2_6
    ++ blocks_2_7

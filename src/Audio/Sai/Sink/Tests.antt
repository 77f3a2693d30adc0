-- ===== src/Audio/Sai/Sink/Tests.antt =====
-- A line of two channels with the FIFO 100 and a line of one channel with the FIFO 200, and a period of two samples.
use rtos_apps.Base.{
  ℕ, ◌+◌, ◌*◌, ◌≤◌, ◌≡◌, refl, arith, false, true, Bool, Option, some, none, List, [], ◌∷◌, Memory,
}
use rtos_apps.Base.Int.{pos}
use rtos_apps.Stats.{Stats, highest, lowest}
use rtos_apps.Stats.Hist.{hist_update}
use rtos_apps.Audio.Pipeline.Config.{ElementConfig}
use rtos_apps.Audio.Pipeline.Table.{Element}
use rtos_apps.Audio.Routing.{Buffers}
use rtos_apps.Audio.Avtp.Defs.{Cells}
use rtos_apps.Audio.Sai.Config.{LineConfig, SaiConfig}
use rtos_apps.Audio.Sai.Source.{SaiLine}
use rtos_apps.Audio.Sai.Sink.{SinkMap, SaiSink, Fifos, write_frames}
use rtos_apps.Audio.Sai.Sink.Frames.{write_frames_lem}
use rtos_apps.Audio.Sai.Sink.Room.{fifo_room}
use rtos_apps.Audio.Sai.Sink.Run.{World, sai_sink_element_run, sai_sink_element_check_config}
use rtos_apps.Audio.Sai.Sink.Setup.{init_tx_line}

abbrev buffers : Buffers
buffers p = record {
  base = p * 10;
  read = 2;
  write = 6;
  size = 8;
  size_mask = 7;
  silence = 0;
  flags = 0;
  shared_id = 0;
  input_type = 0;
  input_id = 0;
  input_element_id = 0;
  output_type = 0;
  output_id = 0;
  output_element_id = 0;
}

abbrev words_only : Cells ℕ
words_only = record {
  low = λ a. a;
  set_low = λ w a. w;
  of_int32 = λ w. w;
  to_int32 = λ a. a;
  silent = 0;
}

abbrev maps : List SinkMap
maps =
    (record { tx_fifo = 100; input = 3 })
    ∷ (record { tx_fifo = 100; input = 4 })
    ∷ (record { tx_fifo = 200; input = 5 })
    ∷ []

abbrev fifos : Fifos
fifos = record { given = λ a. 6; words = λ a n. 0 }

abbrev cells : Memory ℕ
cells a = a + 1000

-- The word 9 of the FIFO 100 is the second sample of the second channel, at the address 43.
write_frames_lem_example :
    ((write_frames words_only buffers cells maps 2 0 fifos).words 100 (6 + 1 * 2 + 1) ≡ 1043)
    × ((write_frames words_only buffers cells maps 2 0 fifos).given 100 ≡ 6 + 2 * 2)
write_frames_lem_example =
    write_frames_lem words_only buffers cells maps 1 2 1 (record { tx_fifo = 100; input = 4 }) fifos
      refl (omega arith)

abbrev first_line : LineConfig
first_line = record { id = 0; channel_n = 2 }

abbrev interface : SaiConfig
interface = record { id = 1; line = first_line ∷ (record { id = 1; channel_n = 1 }) ∷ [] }

abbrev config : ElementConfig
config = record {
  type = 9;
  inputs = 3;
  input = 3 ∷ 4 ∷ 5 ∷ [];
  outputs = 0;
  output = [];
  period = 2;
  sample_rate = 48000;
}

abbrev element : Element
element = record { type = 9; sample_rate = 48000; period = 2; element_id = 0 }

abbrev latency : Stats
latency = record {
  log2_size = 2;
  current_count = 0;
  current_min = highest;
  current_max = lowest;
  current_mean = pos 0;
  current_ms = 0;
  min = pos 0;
  max = pos 0;
  mean = pos 0;
  ms = 0;
  variance = 0;
  abs_min = highest;
  abs_max = lowest;
  name = 0;
  func = false;
}

abbrev line : SaiLine
line = record {
  base = 50;
  id = 0;
  sai_id = 1;
  min = 0;
  max = 4;
  underflow = 0;
  overflow = 0;
  latency = latency;
  latency_hist = record { slots = 0 ∷ 0 ∷ 0 ∷ []; n_slots = 2; slot_size = 1 };
}

abbrev sink : SaiSink
sink = record { map = maps; inputs = []; line = line ∷ []; base = 50 ∷ []; started = true }

abbrev world : World ℕ
world = record { enabled = λ b. true; fifos = fifos; bufs = buffers; memory = cells }

abbrev outcome : Option (Bool × SaiSink × World ℕ) → SaiSink × World ℕ
outcome none = (sink, world)
outcome (some (ok, s, w)) = (s, w)

abbrev after_run : SaiSink × World ℕ
unfolding sai_sink_element_run
after_run = outcome (sai_sink_element_run words_only (λ b l. 3) 2 sink world)

-- A FIFO of 16 words, and a level of 3.
fifo_room_example : after_run.1.fifos.given 100 + 3 ≤ 6 + 16
unfolding sai_sink_element_check_config init_tx_line sai_sink_element_run hist_update
fifo_room_example =
    fifo_room words_only (λ k. 16) config (interface ∷ []) 0 0 0 100 50 interface first_line element
      line line (λ b l. 3) sink after_run.0 world after_run.1 refl refl refl refl (omega arith) refl
      refl refl refl

-- A FIFO of 6 words has no room for two periods of two channels.
small_fifo_run : sai_sink_element_check_config (λ a. 6) config (interface ∷ []) ≡ false
unfolding sai_sink_element_check_config
small_fifo_run = refl

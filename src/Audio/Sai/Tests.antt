-- ===== src/Audio/Sai/Tests.antt =====
-- A line of two channels with the FIFO 100 and a line of one channel with the FIFO 200, and a period of two samples.
use rtos_apps.Base.{ℕ, ◌+◌, ◌*◌, ◌≡◌, inl, refl, arith, List, [], ◌∷◌, Memory}
use rtos_apps.Audio.Buffer.Places.{writer}
use rtos_apps.Audio.Routing.{Buffers}
use rtos_apps.Audio.Avtp.Defs.{Cells}
use rtos_apps.Audio.Sai.Config.{SaiConfig, sai_source_map_size, sai_source_line_size}
use rtos_apps.Audio.Sai.Source.{SaiMap, fill_frames}
use rtos_apps.Audio.Sai.Source.Fill.{fill_frames_lem}

abbrev buffers : Buffers
buffers p = record {
  base = p * 10;
  read = 0;
  write = 2;
  size = 8;
  size_mask = 7;
  silence = 0;
  flags = 0;
  shared_id = 0;
  input_type = 0;
  input_id = 0;
  input_element_id = 0;
  output_type = 0;
  output_id = 0;
  output_element_id = 0;
}

abbrev words_only : Cells ℕ
words_only = record {
  low = λ a. a;
  set_low = λ w a. w;
  of_int32 = λ w. w;
  to_int32 = λ a. a;
  silent = 0;
}

abbrev maps : List SaiMap
maps =
    (record { rx_fifo = 100; out = 3 })
    ∷ (record { rx_fifo = 100; out = 4 })
    ∷ (record { rx_fifo = 200; out = 5 })
    ∷ []

abbrev nth_word : ℕ → ℕ → ℕ
nth_word a n = a * 1000 + n

abbrev taken : ℕ → ℕ
taken a = 6

abbrev zeros : Memory ℕ
zeros a = 0

fill_frames_lem_example :
    ((fill_frames words_only nth_word maps 2 0 buffers (taken, zeros)).1 (writer buffers 4 + 1)
      ≡ nth_word 100 (6 + 1 * 2 + 1))
    × ((fill_frames words_only nth_word maps 2 0 buffers (taken, zeros)).0 100 ≡ 6 + 2 * 2)
fill_frames_lem_example =
    fill_frames_lem words_only (λ w a. refl) nth_word 2 buffers maps 1 1
      (record { rx_fifo = 100; out = 4 }) taken zeros refl
      (
        omega arith,
        ((omega arith, inl (omega arith)), ((omega arith, inl (omega arith)), tt)),
        (omega arith, ((omega arith, inl (omega arith)), tt), (omega arith, tt, tt)),
      )
      (omega arith)

abbrev config : List SaiConfig
config =
    (record {
      id = 1;
      line = (record { id = 0; channel_n = 2 }) ∷ (record { id = 1; channel_n = 1 }) ∷ [];
    })
    ∷ []

map_size_run : sai_source_map_size config ≡ 3
unfolding sai_source_map_size
map_size_run = refl

line_size_run : sai_source_line_size config ≡ 2
unfolding sai_source_line_size
line_size_run = refl

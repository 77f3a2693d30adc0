-- ===== src/Audio/Sai/Config.antt =====
-- audio/audio_element_sai_source.c and rtos_apps/audio/audio_element_sai_source.h: the configuration of a source,
-- its checks and its sizes.
use rtos_apps.Base.{
  ℕ, ◌+◌, ◌*◌, ◌%◌, ◌^◌, Bool, true, not, ◌&&◌, List, [], ◌∷◌, length, add32, mul32, ltb, ◌==◌,
}
use rtos_apps.Audio.Pipeline.Config.{ElementConfig}

-- `struct sai_rx_line_config` and `struct sai_rx_config`, whose `line_n` is the length of the list.
pub record LineConfig : Type 0 where
  pub id : ℕ
  pub channel_n : ℕ

pub record SaiConfig : Type 0 where
  pub id : ℕ
  pub line : List LineConfig

-- SAI_RX_MAX_INSTANCE, SAI_RX_MAX_ID, SAI_RX_INSTANCE_MAX_LINE and SAI_RX_INSTANCE_MAX_CHANNELS
abbrev pub sai_rx_max_instance : ℕ
sai_rx_max_instance = 6

abbrev pub sai_rx_max_id : ℕ
sai_rx_max_id = 8

abbrev pub sai_rx_instance_max_line : ℕ
sai_rx_instance_max_line = 8

abbrev pub sai_rx_instance_max_channels : ℕ
sai_rx_instance_max_channels = 8

abbrev add_channels : ℕ → List LineConfig → ℕ
add_channels size [] = size
add_channels size (l ∷ ls) = add_channels (add32 size l.channel_n) ls

abbrev add_sais : ℕ → List SaiConfig → ℕ
add_sais size [] = size
add_sais size (s ∷ ss) = add_sais (add_channels size s.line) ss

unfoldable pub sai_source_map_size : List SaiConfig → ℕ
sai_source_map_size sais = add_sais 0 sais

abbrev add_lines : ℕ → List SaiConfig → ℕ
add_lines size [] = size
add_lines size (s ∷ ss) = add_lines (add32 size (length s.line)) ss

unfoldable pub sai_source_line_size : List SaiConfig → ℕ
sai_source_line_size sais = add_lines 0 sais

-- `fifo_count` gives the size of the FIFO of an instance, and `periods` is SAI_RX_FIFO_PERIODS.
unfoldable pub check_lines_config : (ℕ → ℕ) → ℕ → ℕ → ℕ → List LineConfig → Bool
check_lines_config fifo_count periods period sai [] = true
check_lines_config fifo_count periods period sai (l ∷ ls) =
    ltb l.id sai_rx_instance_max_line
    && not (ltb sai_rx_instance_max_channels l.channel_n)
    && not (ltb (fifo_count sai) (mul32 (mul32 periods l.channel_n) period))
    && check_lines_config fifo_count periods period sai ls

unfoldable pub check_sais_config : (ℕ → ℕ) → ℕ → ℕ → List SaiConfig → Bool
unfolding check_lines_config
check_sais_config fifo_count periods period [] = true
check_sais_config fifo_count periods period (s ∷ ss) =
    ltb s.id sai_rx_max_id
    && not (ltb sai_rx_instance_max_line (length s.line))
    && check_lines_config fifo_count periods period s.id s.line
    && check_sais_config fifo_count periods period ss

unfoldable pub sai_source_element_check_config : (ℕ → ℕ) → ℕ → ElementConfig → List SaiConfig → Bool
unfolding sai_source_map_size check_sais_config
sai_source_element_check_config fifo_count periods c sais =
    c.inputs == 0
    && c.outputs == sai_source_map_size sais
    && not (ltb sai_rx_max_instance (length sais))
    && check_sais_config fifo_count periods c.period sais

-- Over the sizes of the structures and of a pointer.
unfoldable pub sai_source_element_size : ℕ → ℕ → ℕ → ℕ → ℕ → List SaiConfig → ℕ
unfolding sai_source_map_size sai_source_line_size
sai_source_element_size element map output line pointer sais =
    (element
      + sai_source_map_size sais * (map + output)
      + sai_source_line_size sais * line
      + length sais * pointer)
    % 2 ^ 32

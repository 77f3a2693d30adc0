-- ===== src/Audio/Sai/Sink/Run.antt =====
-- audio/audio_element_sai_sink.c: the run of a sink, its reset, and the checks and the size of its configuration.
use rtos_apps.Base.{
  ℕ, ◌+◌, ◌%◌, ◌^◌, ◌*◌, Bool, true, false, not, ◌&&◌, Option, none, some, List, [], ◌∷◌, length,
  ltb, ◌==◌, if◌then◌else◌, Memory,
}
use rtos_apps.Audio.Pipeline.Config.{ElementConfig}
use rtos_apps.Audio.Routing.{Buffers}
use rtos_apps.Audio.Avtp.Defs.{Cells}
use rtos_apps.Audio.Sai.Config.{
  SaiConfig, sai_rx_max_instance, check_sais_config, sai_source_map_size, sai_source_line_size,
}
use rtos_apps.Audio.Sai.Source.{SaiLine}
use rtos_apps.Audio.Sai.Sink.{
  SaiSink, Fifos, sai_sink_element_fifo_write, silence_inputs, check_tx_levels,
}

-- The interfaces that send, the FIFOs, the buffers and the memory.
pub record World (A : Type 0) : Type 0 where
  pub enabled : ℕ → Bool
  pub fifos : Fifos
  pub bufs : Buffers
  pub memory : Memory A

-- `__sai_enable_tx` and `__sai_disable_tx` for each interface.
unfoldable pub set_tx_enabled : Bool → List ℕ → (ℕ → Bool) → (ℕ → Bool)
set_tx_enabled on [] enabled = enabled
set_tx_enabled on (b ∷ bs) enabled = set_tx_enabled on bs (λ q. if q == b then on else enabled q)

module _ {A : Type 0} (cells : Cells A) where
  abbrev pub written : ℕ → SaiSink → World A → World A
  written period s w =
      let (t, bufs, m) = sai_sink_element_fifo_write cells period s (w.fifos, w.bufs, w.memory) in
      record w { fifos = t; bufs = bufs; memory = m }

  abbrev pub silenced : ℕ → SaiSink → World A → World A
  silenced period s w =
      let (bufs, m) = silence_inputs cells period s.inputs (w.bufs, w.memory) in
      record w { bufs = bufs; memory = m }

  -- A run of an element that has started, by the levels of its lines.
  unfoldable pub run_started :
      ℕ → SaiSink → World A → Option (List SaiLine × Bool) → Option (Bool × SaiSink × World A)
  unfolding sai_sink_element_fifo_write
  run_started period s w none = none
  run_started period s w (some (lines, false)) = some (false, record s { line = lines }, w)
  run_started period s w (some (lines, true)) =
      some (true, record s { line = lines }, written period s w)

  -- The interfaces are enabled after two writes, the first one of silence.
  unfoldable pub run_first : ℕ → SaiSink → World A → Bool × SaiSink × World A
  unfolding sai_sink_element_fifo_write silence_inputs set_tx_enabled
  run_first period s w =
      let w' = written period s (written period s (silenced period s w)) in
      (
        true,
        record s { started = true },
        record w' { enabled = set_tx_enabled true s.base w'.enabled },
      )

  -- `level` is `__sai_tx_level`. The result is false where that of the code is -1, and `none` a fault.
  unfoldable pub sai_sink_element_run :
      (ℕ → ℕ → ℕ) → ℕ → SaiSink → World A → Option (Bool × SaiSink × World A)
  unfolding run_started run_first check_tx_levels
  sai_sink_element_run level period s w =
      if s.started
      then run_started period s w (check_tx_levels level s.line)
      else some (run_first period s w)

  unfoldable pub sai_sink_element_reset : SaiSink → World A → SaiSink × World A
  unfolding set_tx_enabled
  sai_sink_element_reset s w =
      (record s { started = false }, record w { enabled = set_tx_enabled false s.base w.enabled })

-- `fifo_count` gives the size of the FIFO of an instance. SAI_TX_FIFO_PERIODS is 2; the loop over the interfaces and the
-- limits are as in the source's check.
unfoldable pub sai_sink_element_check_config : (ℕ → ℕ) → ElementConfig → List SaiConfig → Bool
unfolding sai_source_map_size check_sais_config
sai_sink_element_check_config fifo_count c sais =
    c.outputs == 0
    && c.inputs == sai_source_map_size sais
    && not (ltb sai_rx_max_instance (length sais))
    && check_sais_config fifo_count 2 c.period sais

-- Over the sizes of the structures and of a pointer.
unfoldable pub sai_sink_element_size : ℕ → ℕ → ℕ → ℕ → ℕ → List SaiConfig → ℕ
unfolding sai_source_map_size sai_source_line_size
sai_sink_element_size element map input line pointer sais =
    (element
      + sai_source_map_size sais * (map + input)
      + sai_source_line_size sais * line
      + length sais * pointer)
    % 2 ^ 32

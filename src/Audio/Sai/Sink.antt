-- ===== src/Audio/Sai/Sink.antt =====
-- audio/audio_element_sai_sink.c: the element that writes the samples of buffers to the FIFOs of the audio interface.
-- A FIFO is known by its address. The lines and the configuration are those of the source, whose structures and limits
-- the sink's are like.
pub mod Frames
pub mod Room
pub mod Run
pub mod Setup
mod Tests
use rtos_apps.Base.{
  ℕ, zero, suc, ◌+◌, ◌%◌, ◌^◌, ◌*◌, Bool, true, false, not, ◌&&◌, Option, none, some, List, [], ◌∷◌,
  length, add32, sub32, ltb, leb, ◌==◌, if◌then◌else◌, Memory,
}
use rtos_apps.Base.Int.{pos}
use rtos_apps.Stats.{stats_update, to_int32}
use rtos_apps.Stats.Hist.{hist_update}
use rtos_apps.Audio.Buffer.{
  AudioBuffer, audio_buf_write_head, audio_buf_read_update, audio_buf_read_addr,
}
use rtos_apps.Audio.Pipeline.Config.{ElementConfig}
use rtos_apps.Audio.Routing.{Buffers, put}
use rtos_apps.Audio.Avtp.Defs.{Cells, Conversion, convert_span, sample_to}
use rtos_apps.Audio.Sai.Config.{
  SaiConfig, sai_rx_max_instance, check_sais_config, sai_source_map_size, sai_source_line_size,
}
use rtos_apps.Audio.Sai.Source.{SaiLine, set_enabled}

-- `struct sai_sink_map`; the buffer is an address.
pub record SinkMap : Type 0 where
  pub tx_fifo : ℕ
  pub input : ℕ

-- `struct sai_input`
pub record SaiInput : Type 0 where
  pub buf : ℕ
  pub convert : Bool
  pub conversion : Conversion

-- `struct sai_sink_element`, with lists for its arrays.
pub record SaiSink : Type 0 where
  pub map : List SinkMap
  pub inputs : List SaiInput
  pub line : List SaiLine
  pub base : List ℕ
  pub started : Bool

-- What the FIFOs were given: how many words, and the `n`-th word of the FIFO `a`.
pub record Fifos : Type 0 where
  pub given : ℕ → ℕ
  pub words : ℕ → ℕ → ℕ

-- A store to the address of a FIFO.
unfoldable pub give : ℕ → ℕ → Fifos → Fifos
give a w t = record {
  given = λ q. if q == a then t.given q + 1 else t.given q;
  words = λ q n. if q == a && n == t.given a then w else t.words q n;
}

module _ {A : Type 0} (cells : Cells A) (bufs : Buffers) (m : Memory A) where
  -- `__audio_buf_read_uint32`
  abbrev pub sample_word : ℕ → ℕ → ℕ
  sample_word p i = cells.low (m (audio_buf_read_addr (bufs p) i))

  -- One frame: a word to the FIFO of each channel, in the order of the map.
  unfoldable pub write_frame : List SinkMap → ℕ → Fifos → Fifos
  unfolding give
  write_frame [] i t = t
  write_frame (p ∷ ps) i t = write_frame ps i (give p.tx_fifo (sample_word p.input i) t)

  -- `n` frames from the frame `i` on.
  unfoldable pub write_frames : List SinkMap → ℕ → ℕ → Fifos → Fifos
  unfolding write_frame
  write_frames ps zero i t = t
  write_frames ps (suc n) i t = write_frames ps n (i + 1) (write_frame ps i t)

module _ {A : Type 0} (cells : Cells A) (period : ℕ) where
  -- The first loop of `sai_sink_element_fifo_write`.
  unfoldable pub convert_inputs : List SaiInput → Buffers → Memory A → Memory A
  convert_inputs [] bufs m = m
  convert_inputs (i ∷ is) bufs m =
      let converted =
        convert_span (sample_to cells i.conversion) period (audio_buf_read_addr (bufs i.buf) 0) m in
      convert_inputs is bufs (if i.convert then converted else m)

  -- Its last loop.
  unfoldable pub update_inputs : List SaiInput → Buffers → Buffers
  update_inputs [] bufs = bufs
  update_inputs (i ∷ is) bufs =
      update_inputs is (put bufs i.buf (audio_buf_read_update (bufs i.buf) period))

  unfoldable pub sai_sink_element_fifo_write :
      SaiSink → Fifos × Buffers × Memory A → Fifos × Buffers × Memory A
  unfolding convert_inputs write_frames update_inputs
  sai_sink_element_fifo_write s (t, bufs, m) =
      let m' = convert_inputs s.inputs bufs m in
      (write_frames cells bufs m' s.map period 0 t, update_inputs s.inputs bufs, m')

  -- `n` samples of silence at the head of a buffer.
  unfoldable pub silence_head : ℕ → AudioBuffer → Memory A → AudioBuffer × Memory A
  silence_head zero b m = (b, m)
  silence_head (suc n) b m =
      let (b', m') = audio_buf_write_head b m (cells.silent ∷ []) 1 in silence_head n b' m'

  unfoldable pub silence_inputs : List SaiInput → Buffers × Memory A → Buffers × Memory A
  unfolding silence_head
  silence_inputs [] s = s
  silence_inputs (i ∷ is) (bufs, m) =
      let (b, m') = silence_head period (bufs i.buf) m in silence_inputs is (put bufs i.buf b, m')

-- The round of a line, by the level of its FIFO, with whether the level is in range. `none` is a fault in the histogram.
unfoldable pub check_tx_level : SaiLine → ℕ → Option (SaiLine × Bool)
check_tx_level l level =
    let sent = sub32 l.max level in
    elim (hist_update l.latency_hist sent) [
      | none ↦ none
      | some h ↦
          let l' = record l {
            latency = (stats_update l.latency (to_int32 (pos sent))).0;
            latency_hist = h;
          } in
          if leb level l.min
          then some (record l' { underflow = add32 l.underflow 1 }, false)
          else if ltb l.max level
          then some (record l' { overflow = add32 l.overflow 1 }, false)
          else some (l', true)
    ]

-- The loop over the lines ends at the first whose level is out of range; `level` is `__sai_tx_level`.
unfoldable pub check_tx_levels : (ℕ → ℕ → ℕ) → List SaiLine → Option (List SaiLine × Bool)
unfolding check_tx_level
check_tx_levels level [] = some ([], true)
check_tx_levels level (l ∷ ls) =
    let rest = check_tx_levels level ls in
    elim (check_tx_level l (level l.base l.id)) [
      | none ↦ none
      | some (l', true) ↦ elim rest [ none ↦ none | some (ls', ok) ↦ some (l' ∷ ls', ok) ]
      | some (l', false) ↦ some (l' ∷ ls, false)
    ]

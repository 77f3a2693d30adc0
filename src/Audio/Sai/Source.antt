-- ===== src/Audio/Sai/Source.antt =====
-- audio/audio_element_sai_source.c: the element that reads the FIFOs of the audio interface into buffers. A FIFO is
-- known by its address; `word a n` is the word that the FIFO `a` gives as its `n`-th.
pub mod Fill
pub mod Setup
use rtos_apps.Base.{
  ℕ, zero, suc, ◌+◌, ◌-◌, ◌*◌, ◌%◌, ◌^◌, Bool, true, false, Option, none, some, List, [], ◌∷◌, ◌++◌,
  add32, sub32, mul32, ltb, leb, ◌==◌, if◌then◌else◌, Memory, store,
}
use rtos_apps.Base.Int.{pos}
use rtos_apps.Stats.{Stats, stats_init, stats_update, to_int32}
use rtos_apps.Stats.Hist.{Hist, hist_init, hist_update}
use rtos_apps.Audio.Buffer.{
  AudioBuffer, audio_buf_reset, audio_buf_write_silence, audio_buf_write_update,
  audio_buf_write_addr,
}
use rtos_apps.Audio.Pipeline.Table.{Element}
use rtos_apps.Audio.Routing.{Buffers, put}
use rtos_apps.Audio.Avtp.Defs.{Cells, Conversion, convert_span, sample_from}
use rtos_apps.Audio.Sai.Config.{LineConfig, SaiConfig}

-- `struct sai_source_map`; the buffer is an address.
pub record SaiMap : Type 0 where
  pub rx_fifo : ℕ
  pub out : ℕ

-- `struct sai_output`
pub record SaiOutput : Type 0 where
  pub buf : ℕ
  pub convert : Bool
  pub conversion : Conversion

-- `struct sai_line`
pub record SaiLine : Type 0 where
  pub base : ℕ
  pub id : ℕ
  pub sai_id : ℕ
  pub min : ℕ
  pub max : ℕ
  pub underflow : ℕ
  pub overflow : ℕ
  pub latency : Stats
  pub latency_hist : Hist

-- `struct sai_source_element`, with lists for its arrays.
pub record SaiSource : Type 0 where
  pub map : List SaiMap
  pub out : List SaiOutput
  pub line : List SaiLine
  pub base : List ℕ
  pub started : Bool

-- The hardware: the words that were taken from each FIFO, and the interfaces that receive.
pub record Hardware : Type 0 where
  pub taken : ℕ → ℕ
  pub enabled : ℕ → Bool

-- The round of a line, by the level of its FIFO, with whether the level is in range. `none` is a fault in the histogram.
unfoldable pub check_level : SaiLine → ℕ → Option (SaiLine × Bool)
check_level l level =
    let over = sub32 level l.min in
    elim (hist_update l.latency_hist over) [
      | none ↦ none
      | some h ↦
          let l' = record l {
            latency = (stats_update l.latency (to_int32 (pos over))).0;
            latency_hist = h;
          } in
          if ltb level l.min
          then some (record l' { underflow = add32 l.underflow 1 }, false)
          else if leb l.max level
          then some (record l' { overflow = add32 l.overflow 1 }, false)
          else some (l', true)
    ]

-- The loop over the lines ends at the first whose level is out of range; `level` is `__sai_rx_level`.
unfoldable pub check_levels : (ℕ → ℕ → ℕ) → List SaiLine → Option (List SaiLine × Bool)
unfolding check_level
check_levels level [] = some ([], true)
check_levels level (l ∷ ls) =
    let rest = check_levels level ls in
    elim (check_level l (level l.base l.id)) [
      | none ↦ none
      | some (l', true) ↦ elim rest [ none ↦ none | some (ls', ok) ↦ some (l' ∷ ls', ok) ]
      | some (l', false) ↦ some (l' ∷ ls, false)
    ]

module _ {A : Type 0} (cells : Cells A) (word : ℕ → ℕ → ℕ) where
  -- One frame: a word from the FIFO of each channel, in the order of the map.
  unfoldable pub fill_frame : List SaiMap → ℕ → Buffers → (ℕ → ℕ) × Memory A → (ℕ → ℕ) × Memory A
  fill_frame [] i bufs s = s
  fill_frame (p ∷ ps) i bufs (taken, m) =
      let a = audio_buf_write_addr (bufs p.out) i in
      let n = taken p.rx_fifo in
      fill_frame ps i bufs (
        λ q. if q == p.rx_fifo then taken q + 1 else taken q,
        store m a (cells.set_low (word p.rx_fifo n) (m a)),
      )

  -- `n` frames from the frame `i` on.
  unfoldable pub fill_frames :
      List SaiMap → ℕ → ℕ → Buffers → (ℕ → ℕ) × Memory A → (ℕ → ℕ) × Memory A
  unfolding fill_frame
  fill_frames ps zero i bufs s = s
  fill_frames ps (suc n) i bufs s = fill_frames ps n (i + 1) bufs (fill_frame ps i bufs s)

  -- The loop over the outputs, which converts a period of samples and moves the writer on.
  unfoldable pub finish_outputs : ℕ → List SaiOutput → Buffers × Memory A → Buffers × Memory A
  finish_outputs period [] s = s
  finish_outputs period (o ∷ os) (bufs, m) =
      let converted =
        convert_span (sample_from cells o.conversion) period (audio_buf_write_addr (bufs o.buf) 0)
          m in
      finish_outputs period os (
        put bufs o.buf (audio_buf_write_update (bufs o.buf) period),
        if o.convert then converted else m,
      )

  unfoldable pub silence_outputs : ℕ → List SaiOutput → Buffers × Memory A → Buffers × Memory A
  silence_outputs period [] s = s
  silence_outputs period (o ∷ os) (bufs, m) =
      let (b, m') = audio_buf_write_silence cells.silent (bufs o.buf) period m in
      silence_outputs period os (put bufs o.buf b, m')

  unfoldable pub reset_outputs : List SaiOutput → Buffers × Memory A → Buffers × Memory A
  reset_outputs [] s = s
  reset_outputs (o ∷ os) (bufs, m) =
      let (b, m') = audio_buf_reset cells.silent (bufs o.buf) m in
      reset_outputs os (put bufs o.buf b, m')

-- `__sai_enable_rx` and `__sai_disable_rx` for each interface.
unfoldable pub set_enabled : Bool → List ℕ → Hardware → Hardware
set_enabled on [] hw = hw
set_enabled on (b ∷ bs) hw =
    set_enabled on bs (record hw { enabled = λ q. if q == b then on else hw.enabled q })

module _ {A : Type 0} (cells : Cells A) (word : ℕ → ℕ → ℕ) where
  -- A run of an element that has started, by the levels of its lines.
  unfoldable pub run_started :
      ℕ
      → SaiSource
      → Hardware
      → Buffers
      → Memory A
      → Option (List SaiLine × Bool)
      → Option (Bool × SaiSource × Hardware × Buffers × Memory A)
  unfolding fill_frames finish_outputs
  run_started period s hw bufs m none = none
  run_started period s hw bufs m (some (lines, false)) =
      some (false, record s { line = lines }, hw, bufs, m)
  run_started period s hw bufs m (some (lines, true)) =
      let (taken, filled) = fill_frames cells word s.map period 0 bufs (hw.taken, m) in
      let (bufs', m') = finish_outputs cells word period s.out (bufs, filled) in
      some (true, record s { line = lines }, record hw { taken = taken }, bufs', m')

  -- The result is false where that of the code is -1, and `none` a fault.
  unfoldable pub sai_source_element_run :
      (ℕ → ℕ → ℕ)
      → ℕ
      → SaiSource
      → Hardware
      → Buffers
      → Memory A
      → Option (Bool × SaiSource × Hardware × Buffers × Memory A)
  unfolding run_started check_levels silence_outputs set_enabled
  sai_source_element_run level period s hw bufs m =
      let (bufs', m') = silence_outputs cells word period s.out (bufs, m) in
      if s.started
      then run_started period s hw bufs m (check_levels level s.line)
      else some (true, record s { started = true }, set_enabled true s.base hw, bufs', m')

  unfoldable pub sai_source_element_reset :
      SaiSource → Hardware → Buffers → Memory A → SaiSource × Hardware × Buffers × Memory A
  unfolding reset_outputs set_enabled
  sai_source_element_reset s hw bufs m =
      let (bufs', m') = reset_outputs cells word s.out (bufs, m) in
      (record s { started = false }, set_enabled false s.base hw, bufs', m')

-- ===== src/Audio/Avtp/Source/Run.antt =====
-- audio/audio_element_avtp_source.c: the run of a source, with the loops over a stream's channels.
use rtos_apps.Base.{
  ltb, ◌*◌, ℕ, zero, suc, ◌+◌, Bool, true, false, Option, none, some, List, [], ◌∷◌, get_or, add32,
  mul32, if◌then◌else◌, Memory, store,
}
use rtos_apps.Audio.Buffer.{
  audio_buf_reset, audio_buf_write_silence, audio_buf_write_update, audio_buf_write_addr,
}
use rtos_apps.Audio.Routing.{Buffers, put}
use rtos_apps.Audio.Avtp.Defs.{period_max, Cells, Conversion, convert_all, sample_from}
use rtos_apps.Audio.Avtp.Source.{AvtpStream, avtp_rx_channel_n}
use rtos_apps.Audio.Avtp.Source.Receive.{Reading, Timing, start_stream, continue_stream}

module _ {A : Type 0} (cells : Cells A) where
  -- One frame of the batch: `data[k]` and the words behind it, one for each channel.
  unfoldable pub write_frame : List ℕ → ℕ → ℕ → List ℕ → Buffers → Memory A → Memory A
  write_frame [] j k words bufs m = m
  write_frame (p ∷ ps) j k words bufs m =
      let a = audio_buf_write_addr (bufs p) j in
      write_frame ps j (k + 1) words bufs (store m a (cells.set_low (get_or words k 0) (m a)))

  -- `n` frames from the frame `j` and the word `k` on.
  unfoldable pub write_frames : List ℕ → ℕ → ℕ → ℕ → List ℕ → Buffers → Memory A → Memory A
  unfolding write_frame
  write_frames ps zero j k words bufs m = m
  write_frames ps (suc n) j k words bufs m =
      write_frames ps n (j + 1) (k + avtp_rx_channel_n) words bufs (write_frame ps j k words bufs m)

  unfoldable pub convert_channels : Conversion → ℕ → List ℕ → Buffers → Memory A → Memory A
  unfolding convert_all
  convert_channels c period ps bufs =
      convert_all (sample_from cells c) (λ p. audio_buf_write_addr (bufs p) 0) period ps

  unfoldable pub reset_channels : List ℕ → Buffers × Memory A → Buffers × Memory A
  reset_channels [] s = s
  reset_channels (p ∷ ps) (bufs, m) =
      let (b, m') = audio_buf_reset cells.silent (bufs p) m in reset_channels ps (put bufs p b, m')

  unfoldable pub silence_channels : ℕ → List ℕ → Buffers × Memory A → Buffers × Memory A
  silence_channels len [] s = s
  silence_channels len (p ∷ ps) (bufs, m) =
      let (b, m') = audio_buf_write_silence cells.silent (bufs p) len m in
      silence_channels len ps (put bufs p b, m')

  unfoldable pub update_channels : ℕ → List ℕ → Buffers → Buffers
  update_channels len [] bufs = bufs
  update_channels len (p ∷ ps) bufs =
      update_channels len ps (put bufs p (audio_buf_write_update (bufs p) len))

  -- `listener_receive` from the count of `received` on.
  unfoldable pub take_batch : ℕ → AvtpStream → List ℕ → Buffers → Memory A → Memory A
  unfolding write_frames convert_channels
  take_batch period st words bufs m =
      let m' = write_frames st.channel_buf period 0 0 words bufs m in
      if st.convert then convert_channels st.conversion period st.channel_buf bufs m' else m'

  -- A first start, after its checks, and any other reception; the result is true where that of the code is 0. `none` is
  -- a read of a word behind the array of the batch.
  unfoldable pub first_batch :
      ℕ
      → List ℕ
      → Buffers × Memory A
      → AvtpStream × Option ℕ
      → Option (AvtpStream × Bool × Buffers × Memory A)
  unfolding reset_channels silence_channels take_batch
  first_batch period words (bufs, m) (st, none) = some (st, false, bufs, m)
  first_batch period words (bufs, m) (st, some n) =
      let (bufs', m') =
        silence_channels (mul32 n period) st.channel_buf
          (reset_channels st.channel_buf (bufs, m)) in
      if ltb period_max period
      then none
      else some (
        record st { received = add32 st.received 1 },
        true,
        bufs',
        take_batch period st words bufs' m',
      )

  unfoldable pub next_batch :
      ℕ
      → List ℕ
      → Buffers × Memory A
      → AvtpStream × Bool
      → Option (AvtpStream × Bool × Buffers × Memory A)
  unfolding take_batch
  next_batch period words (bufs, m) (st, false) = some (st, false, bufs, m)
  next_batch period words (bufs, m) (st, true) =
      if ltb period_max period
      then none
      else some (
        record st { received = add32 st.received 1 },
        true,
        bufs,
        take_batch period st words bufs m,
      )

  -- The bytes of the array, and whether the stack has written more.
  abbrev pub data_bytes : ℕ
  data_bytes = avtp_rx_channel_n * period_max * 4

  abbrev pub overruns : Option ℕ → Bool
  overruns none = false
  overruns (some n) = ltb data_bytes n

  -- `none` is a write or a read behind the array.
  unfoldable pub listener_receive :
      Timing
      → ℕ
      → AvtpStream
      → Reading
      → Buffers × Memory A
      → Option (AvtpStream × Bool × Buffers × Memory A)
  unfolding start_stream continue_stream first_batch next_batch
  listener_receive t period st r s =
      if overruns r.read_bytes
      then none
      else if st.first_start
      then first_batch period r.words s (start_stream t period st r)
      else next_batch period r.words s (continue_stream st r)

  -- What follows the reception in the loop of `avtp_source_element_run`.
  unfoldable pub after_receive :
      ℕ → Option (AvtpStream × Bool × Buffers × Memory A) → Option (AvtpStream × Buffers × Memory A)
  unfolding update_channels silence_channels
  after_receive period none = none
  after_receive period (some (st, true, bufs, m)) =
      some (st, update_channels period st.channel_buf bufs, m)
  after_receive period (some (st, false, bufs, m)) =
      let (bufs', m') = silence_channels period st.channel_buf (bufs, m) in some (st, bufs', m')

  -- A stream's round of the loop.
  unfoldable pub run_stream :
      Timing
      → ℕ
      → AvtpStream
      → Reading
      → Buffers × Memory A
      → Option (AvtpStream × Buffers × Memory A)
  unfolding listener_receive after_receive silence_channels
  run_stream t period st r s =
      let (bufs, m) = silence_channels period st.channel_buf s in
      if st.connected
      then after_receive period (listener_receive t period st r s)
      else some (st, bufs, m)

  -- The streams of the configuration, each with its reading.
  unfoldable pub run_streams :
      Timing
      → ℕ
      → List (AvtpStream × Reading)
      → Buffers × Memory A
      → Option (List AvtpStream × Buffers × Memory A)
  unfolding run_stream
  run_streams t period [] (bufs, m) = some ([], bufs, m)
  run_streams t period ((st, r) ∷ rest) s = elim (run_stream t period st r s) [
    | none ↦ none
    | some (st', bufs, m) ↦ elim (run_streams t period rest (bufs, m)) [
      | none ↦ none
      | some (sts, bufs', m') ↦ some (st' ∷ sts, bufs', m')
    ]
  ]

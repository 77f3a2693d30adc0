-- ===== src/Audio/Avtp/Sink/Send.antt =====
-- audio/audio_element_avtp_sink.c: the run of a sink, and the words that it sends.
use rtos_apps.Base.{
  ℕ, zero, suc, ◌+◌, Option, none, some, List, [], ◌∷◌, ◌++◌, add32, ltb, if◌then◌else◌, Memory,
}
use rtos_apps.Audio.Buffer.{audio_buf_reset, audio_buf_read_update, audio_buf_read_addr}
use rtos_apps.Audio.Routing.{Buffers, put}
use rtos_apps.Audio.Avtp.Defs.{period_max, Cells, convert_all, sample_to}
use rtos_apps.Audio.Avtp.Sink.{SinkStream}

module _ {A : Type 0} (cells : Cells A) where
  -- The words of a frame, one for each channel, and of `n` frames from the frame `j` on.
  unfoldable pub frame_words : List ℕ → ℕ → Buffers → Memory A → List ℕ
  frame_words [] j bufs m = []
  frame_words (p ∷ ps) j bufs m =
      cells.low (m (audio_buf_read_addr (bufs p) j)) ∷ frame_words ps j bufs m

  unfoldable pub batch_words : List ℕ → ℕ → ℕ → Buffers → Memory A → List ℕ
  unfolding frame_words
  batch_words ps zero j bufs m = []
  batch_words ps (suc n) j bufs m = frame_words ps j bufs m ++ batch_words ps n (j + 1) bufs m

  -- `talker_send` up to the call of `genavb_stream_send`: the words that are handed on, and the memory. `none` is a write
  -- behind the array for the words.
  unfoldable pub prepare_batch : ℕ → SinkStream → Buffers → Memory A → Option (List ℕ × Memory A)
  unfolding convert_all batch_words
  prepare_batch period st bufs m =
      let m' =
        if st.convert
        then convert_all (sample_to cells st.conversion) (λ p. audio_buf_read_addr (bufs p) 0)
            period st.channel_buf m
        else m in
      if ltb period_max period then none else some (batch_words st.channel_buf period 0 bufs m', m')

  -- What the stream counts, by the bytes that the call has written, none for an error.
  unfoldable pub count_sent : SinkStream → Option ℕ → SinkStream
  count_sent st none = record st { err = add32 st.err 1 }
  count_sent st (some written) =
      if ltb written st.cur_batch_size
      then record st { overflow = add32 st.overflow 1 }
      else record st { sent = add32 st.sent 1 }

  -- The stack's answer to the words of a stream with a handle.
  abbrev pub Answer : Type 0
  Answer = Option ℕ → List ℕ → Option ℕ

  unfoldable pub read_channels : ℕ → List ℕ → Buffers → Buffers
  read_channels period [] bufs = bufs
  read_channels period (p ∷ ps) bufs =
      read_channels period ps (put bufs p (audio_buf_read_update (bufs p) period))

  -- The call, and what follows it in the loop of `avtp_sink_element_run`.
  unfoldable pub after_prepare :
      Answer
      → ℕ
      → SinkStream
      → Buffers
      → Option (List ℕ × Memory A)
      → Option (SinkStream × Buffers × Memory A)
  unfolding count_sent read_channels
  after_prepare answer period st bufs none = none
  after_prepare answer period st bufs (some (words, m)) =
      some (count_sent st (answer st.handle words), read_channels period st.channel_buf bufs, m)

  -- A stream's round of the loop.
  unfoldable pub run_stream :
      Answer → ℕ → SinkStream → Buffers × Memory A → Option (SinkStream × Buffers × Memory A)
  unfolding prepare_batch after_prepare read_channels
  run_stream answer period st (bufs, m) =
      if st.connected
      then after_prepare answer period st bufs (prepare_batch period st bufs m)
      else some (st, read_channels period st.channel_buf bufs, m)

  unfoldable pub run_streams :
      Answer
      → ℕ
      → List SinkStream
      → Buffers × Memory A
      → Option (List SinkStream × Buffers × Memory A)
  unfolding run_stream
  run_streams answer period [] (bufs, m) = some ([], bufs, m)
  run_streams answer period (st ∷ rest) s = elim (run_stream answer period st s) [
    | none ↦ none
    | some (st', bufs, m) ↦ elim (run_streams answer period rest (bufs, m)) [
      | none ↦ none
      | some (sts, bufs', m') ↦ some (st' ∷ sts, bufs', m')
    ]
  ]

  -- The buffers of `avtp_sink_element_reset`.
  unfoldable pub reset_inputs : List ℕ → Buffers × Memory A → Buffers × Memory A
  reset_inputs [] s = s
  reset_inputs (p ∷ ps) (bufs, m) =
      let (b, m') = audio_buf_reset cells.silent (bufs p) m in reset_inputs ps (put bufs p b, m')

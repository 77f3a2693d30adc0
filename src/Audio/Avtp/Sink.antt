-- ===== src/Audio/Avtp/Sink.antt =====
-- audio/audio_element_avtp_sink.c: the element that sends the samples of buffers in AVB streams. What the AVB stack
-- gives in a call is a parameter.
pub mod Send
use rtos_apps.Base.{
  ℕ, zero, suc, ◌+◌, ◌*◌, Bool, true, false, not, ◌&&◌, Option, none, some, List, [], ◌∷◌, ◌++◌,
  map, take, drop, add32, mul32, ltb, leb, ◌==◌, if◌then◌else◌, Memory,
}
use rtos_apps.Audio.Buffer.{
  AudioBuffer, audio_buf_reset, audio_buf_read_update, audio_buf_read_addr,
}
use rtos_apps.Audio.Pipeline.Config.{ElementConfig}
use rtos_apps.Audio.Response.{Response, resp_avtp, respond}
use rtos_apps.Audio.Pipeline.Table.{Element}
use rtos_apps.Audio.Routing.{Buffers, put}
use rtos_apps.Audio.Avtp.Defs.{
  Avdecc, StreamParams, Conversion, conversion_of, batch_of, change_at, Cells, convert_all,
  sample_to,
}

-- AVTP_TX_STREAM_N and AVTP_TX_CHANNEL_N
abbrev pub avtp_tx_stream_n : ℕ
avtp_tx_stream_n = 2

abbrev pub avtp_tx_channel_n : ℕ
avtp_tx_channel_n = 2

-- `struct avtp_stream`
pub record SinkStream : Type 0 where
  pub connected : Bool
  pub handle : Option ℕ
  pub cur_batch_size : ℕ
  pub channel_buf : List ℕ
  pub err : ℕ
  pub overflow : ℕ
  pub sent : ℕ
  pub convert : Bool
  pub conversion : Conversion

-- `struct avtp_sink_element`, but for the mutex; `ins` are the addresses of the inputs.
pub record AvtpSink : Type 0 where
  pub stream_n : ℕ
  pub stream : List SinkStream
  pub ins : List ℕ
  pub genavb_h : Option ℕ
  pub clock_domain : ℕ

-- `avtp_sink_connect` from the assignment of `convert` on. Of the stack's stream only the handle matters here.
unfoldable pub create_stream :
    Avdecc
    → (ℕ → StreamParams → ℕ → Option ℕ)
    → AvtpSink
    → ℕ
    → Conversion
    → StreamParams
    → Element
    → SinkStream
    → SinkStream
unfolding batch_of
create_stream av create avtp genavb_h c params element st =
    let params' = record params {
      clock_domain = if avtp.clock_domain == 0 then params.clock_domain else avtp.clock_domain;
    } in
    let st' = record st {
      convert = true;
      conversion = c;
      cur_batch_size = mul32 element.period (av.sample_size params.format);
    } in
    elim (create genavb_h params' (batch_of av element.period params)) [
      | none ↦ record st' { cur_batch_size = 0 }
      | some h ↦ record st' { handle = some h; connected = true }
    ]

unfoldable pub connect_stream :
    Avdecc
    → (ℕ → StreamParams → ℕ → Option ℕ)
    → AvtpSink
    → StreamParams
    → Element
    → SinkStream
    → SinkStream
unfolding create_stream conversion_of
connect_stream av create avtp params element st = if st.connected then st else elim avtp.genavb_h [
  | none ↦ st
  | some g ↦ elim (conversion_of av params.format) [
    | none ↦ st
    | some c ↦
        if ltb avtp_tx_channel_n (av.channels_per_sample params.format)
        then st
        else if av.sample_rate params.format == element.sample_rate
        then create_stream av create avtp g c params element st
        else st
  ]
]

unfoldable pub avtp_sink_connect :
    Avdecc → (ℕ → StreamParams → ℕ → Option ℕ) → ℕ → StreamParams → Element → AvtpSink → AvtpSink
unfolding connect_stream
avtp_sink_connect av create index params element avtp = record avtp {
  stream = change_at (connect_stream av create avtp params element) index avtp.stream;
}

unfoldable pub disconnect_stream : SinkStream → SinkStream
disconnect_stream st = if st.connected then record st { connected = false; handle = none } else st

unfoldable pub avtp_sink_disconnect : ℕ → AvtpSink → AvtpSink
unfolding disconnect_stream
avtp_sink_disconnect index avtp = record avtp {
  stream = change_at disconnect_stream index avtp.stream;
}

-- The commands of `struct audio_cmd_element_avtp` to a sink.
pub data SinkCmd : Type 0 where
  connect : ℕ → StreamParams → SinkCmd
  disconnect : ℕ → SinkCmd
  set_handle : Option ℕ → SinkCmd
  unknown : SinkCmd

-- `avtp_sink_element_ctrl` up to the responses, on the data of an element, none for NULL, that is a sink or not; `len_ok` tells whether the
-- length is that of the command. `none` goes to the label `err`.
unfoldable pub avtp_sink_command :
    Avdecc
    → (ℕ → StreamParams → ℕ → Option ℕ)
    → Option (Element × AvtpSink)
    → Bool
    → SinkCmd
    → Bool
    → Option AvtpSink
unfolding avtp_sink_connect avtp_sink_disconnect
avtp_sink_command av create none is_sink cmd len_ok = none
avtp_sink_command av create (some (element, avtp)) is_sink cmd len_ok =
    if is_sink && len_ok
    then (elim cmd [
      | connect index params ↦
          if leb (avtp.stream_n + 1) index
          then none
          else some (avtp_sink_connect av create index params element avtp)
      | disconnect index ↦
          if leb (avtp.stream_n + 1) index then none else some (avtp_sink_disconnect index avtp)
      | set_handle h ↦ some (record avtp { genavb_h = h })
      | unknown ↦ none
    ])
    else none

-- The result is none where that of the code is -1, with the responses.
unfoldable pub avtp_sink_element_ctrl :
    Avdecc
    → (ℕ → StreamParams → ℕ → Option ℕ)
    → Option (Element × AvtpSink)
    → Bool
    → SinkCmd
    → Bool
    → Bool
    → Option AvtpSink × List Response
unfolding avtp_sink_command respond
avtp_sink_element_ctrl av create element is_sink cmd len_ok handle =
    elim (avtp_sink_command av create element is_sink cmd len_ok) [
      | none ↦ (none, respond handle (resp_avtp false))
      | some a ↦ (some a, respond handle (resp_avtp true))
    ]

-- `n` rounds of the loop of `avtp_sink_element_exit`, from the stream `i` on.
unfoldable pub exit_loop : ℕ → ℕ → AvtpSink → AvtpSink
unfolding avtp_sink_disconnect
exit_loop zero i avtp = avtp
exit_loop (suc n) i avtp = exit_loop n (i + 1) (avtp_sink_disconnect i avtp)

unfoldable pub avtp_sink_element_exit : AvtpSink → AvtpSink
unfolding exit_loop
avtp_sink_element_exit avtp = exit_loop avtp.stream_n 0 avtp

-- `stream_n` is that of the configuration.
unfoldable pub avtp_sink_element_check_config : ElementConfig → ℕ → Bool
avtp_sink_element_check_config c stream_n =
    c.outputs == 0
    && c.inputs == avtp_tx_stream_n * avtp_tx_channel_n
    && not (ltb avtp_tx_stream_n stream_n)

-- The channels of a stream in the set-up, of which `k` is the number over all streams.
unfoldable pub mark_channels : Element → ℕ → List ℕ → Buffers → Buffers
mark_channels e k [] bufs = bufs
mark_channels e k (p ∷ ps) bufs = mark_channels e (k + 1) ps (
    put bufs p
      (record (bufs p) { output_type = e.type; output_element_id = e.element_id; output_id = k }))

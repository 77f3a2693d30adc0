-- ===== src/Audio/Avtp/Source.antt =====
-- audio/audio_element_avtp_source.c: the element that receives AVB streams into buffers. A buffer is known by
-- its address. What the AVB stack and the clock give in a call is a parameter, and floating point too.
pub mod Receive
pub mod Run
pub mod Setup
pub mod Frames
pub mod Batches
pub mod Streams
use rtos_apps.Base.{
  ℕ, zero, suc, ◌+◌, ◌-◌, ◌*◌, ◌/◌, ◌%◌, ◌^◌, Bool, true, false, not, ◌&&◌, Option, none, some,
  List, [], ◌∷◌, map, take, length, get_elem?, set, ltb, leb, ◌==◌, if◌then◌else◌, Memory, mul32,
}
use rtos_apps.Audio.Buffer.{AudioBuffer, audio_buf_reset}
use rtos_apps.Audio.Pipeline.Config.{ElementConfig, outputs_of}
use rtos_apps.Audio.Response.{Response, resp_avtp, respond}
use rtos_apps.Audio.Pipeline.Table.{Element}
use rtos_apps.Audio.Routing.{Buffers, put}
use rtos_apps.Audio.Avtp.Defs.{Avdecc, StreamParams, Conversion, conversion_of, batch_of, change_at}

-- AVTP_RX_STREAM_N and AVTP_RX_CHANNEL_N
abbrev pub avtp_rx_stream_n : ℕ
avtp_rx_stream_n = 2

abbrev pub avtp_rx_channel_n : ℕ
avtp_rx_channel_n = 2

-- `struct avtp_stream`; `sample_dt`, a float, is the sample rate that it is computed from.
pub record AvtpStream : Type 0 where
  pub connected : Bool
  pub connection_flags : ℕ
  pub sr_class : ℕ
  pub handle : Option ℕ
  pub cur_batch_size : ℕ
  pub sample_size : ℕ
  pub channel_buf : List ℕ
  pub err : ℕ
  pub clock_err : ℕ
  pub sync_err : ℕ
  pub ts_err : ℕ
  pub event_err : ℕ
  pub start_underflow : ℕ
  pub underflow : ℕ
  pub received : ℕ
  pub first_start : Bool
  pub sample_dt : ℕ
  pub convert : Bool
  pub conversion : Conversion

-- `struct avtp_source_element`, but for the mutex; `out` are the addresses of the outputs.
pub record AvtpSource : Type 0 where
  pub stream_n : ℕ
  pub stream : List AvtpStream
  pub out : List ℕ
  pub genavb_h : Option ℕ
  pub clock_domain : ℕ

-- `genavb_stream_create` with the stack's handle, the parameters and the batch: a stream's handle, if it succeeds.
abbrev pub Create : Type 0
Create = ℕ → StreamParams → ℕ → Option ℕ

-- The parameters that a connection hands on; 0 is GENAVB_CLOCK_DOMAIN_DEFAULT.
abbrev pub params_for : AvtpSource → AvtpStream → StreamParams → StreamParams
params_for avtp st params = record params {
  flags = st.connection_flags;
  clock_domain = if avtp.clock_domain == 0 then params.clock_domain else avtp.clock_domain;
}

-- `avtp_source_connect` from the assignment of `convert` on, where the parameters are accepted.
unfoldable pub create_stream :
    Avdecc → Create → AvtpSource → ℕ → Conversion → StreamParams → Element → AvtpStream → AvtpStream
unfolding batch_of
create_stream av create avtp genavb_h c params element st =
    let size = av.sample_size params.format in
    let st' = record st {
      convert = true;
      conversion = c;
      sample_dt = element.sample_rate;
      sample_size = size;
      cur_batch_size = mul32 element.period size;
      sr_class = params.stream_class;
    } in
    elim (create genavb_h (params_for avtp st params) (batch_of av element.period params)) [
      | none ↦ record st' { cur_batch_size = 0 }
      | some h ↦ record st' { handle = some h; first_start = true; connected = true }
    ]

unfoldable pub connect_stream :
    Avdecc → Create → AvtpSource → StreamParams → Element → AvtpStream → AvtpStream
unfolding create_stream conversion_of
connect_stream av create avtp params element st = if st.connected then st else elim avtp.genavb_h [
  | none ↦ st
  | some g ↦ elim (conversion_of av params.format) [
    | none ↦ st
    | some c ↦
        if ltb avtp_rx_channel_n (av.channels_per_sample params.format)
        then st
        else if av.sample_rate params.format == element.sample_rate
        then create_stream av create avtp g c params element st
        else st
  ]
]

-- A stream is changed at its place in the array.
abbrev pub change_stream : (AvtpStream → AvtpStream) → ℕ → AvtpSource → AvtpSource
change_stream f index avtp = record avtp { stream = change_at f index avtp.stream }

unfoldable pub avtp_source_connect :
    Avdecc → Create → ℕ → StreamParams → Element → AvtpSource → AvtpSource
unfolding connect_stream
avtp_source_connect av create index params element avtp =
    change_stream (connect_stream av create avtp params element) index avtp

-- A stream that is connected is destroyed.
unfoldable pub disconnect_stream : AvtpStream → AvtpStream
disconnect_stream st = if st.connected then record st { connected = false; handle = none } else st

unfoldable pub avtp_source_disconnect : ℕ → AvtpSource → AvtpSource
unfolding disconnect_stream
avtp_source_disconnect index avtp = change_stream disconnect_stream index avtp

-- The commands of `struct audio_cmd_element_avtp` to a source.
pub data SourceCmd : Type 0 where
  connect : ℕ → StreamParams → SourceCmd
  disconnect : ℕ → SourceCmd
  set_handle : Option ℕ → SourceCmd
  unknown : SourceCmd

-- `avtp_source_element_ctrl` up to the responses, on the data of an element, none for NULL, that is a source or not; `len_ok` tells whether
-- the length is that of the command. `none` goes to the label `err`.
unfoldable pub avtp_source_command :
    Avdecc → Create → Option (Element × AvtpSource) → Bool → SourceCmd → Bool → Option AvtpSource
unfolding avtp_source_connect avtp_source_disconnect
avtp_source_command av create none is_source cmd len_ok = none
avtp_source_command av create (some (element, avtp)) is_source cmd len_ok =
    if is_source && len_ok
    then (elim cmd [
      | connect index params ↦
          if leb (avtp.stream_n + 1) index
          then none
          else some (avtp_source_connect av create index params element avtp)
      | disconnect index ↦
          if leb (avtp.stream_n + 1) index then none else some (avtp_source_disconnect index avtp)
      | set_handle h ↦ some (record avtp { genavb_h = h })
      | unknown ↦ none
    ])
    else none

-- The result is none where that of the code is -1, with the responses.
unfoldable pub avtp_source_element_ctrl :
    Avdecc
    → Create
    → Option (Element × AvtpSource)
    → Bool
    → SourceCmd
    → Bool
    → Bool
    → Option AvtpSource × List Response
unfolding avtp_source_command respond
avtp_source_element_ctrl av create element is_source cmd len_ok handle =
    elim (avtp_source_command av create element is_source cmd len_ok) [
      | none ↦ (none, respond handle (resp_avtp false))
      | some a ↦ (some a, respond handle (resp_avtp true))
    ]

-- `n` rounds of the loop of `avtp_source_element_exit`, from the stream `i` on.
unfoldable pub exit_loop : ℕ → ℕ → AvtpSource → AvtpSource
unfolding avtp_source_disconnect
exit_loop zero i avtp = avtp
exit_loop (suc n) i avtp = exit_loop n (i + 1) (avtp_source_disconnect i avtp)

unfoldable pub avtp_source_element_exit : AvtpSource → AvtpSource
unfolding exit_loop
avtp_source_element_exit avtp = exit_loop avtp.stream_n 0 avtp

-- `stream_n` is that of the configuration.
unfoldable pub avtp_source_element_check_config : ElementConfig → ℕ → Bool
avtp_source_element_check_config c stream_n =
    c.inputs == 0
    && c.outputs == avtp_rx_stream_n * avtp_rx_channel_n
    && not (ltb avtp_rx_stream_n stream_n)

-- ===== src/Audio/Avtp/Source/Receive.antt =====
-- audio/audio_element_avtp_source.c: what a stream's reception makes of a batch.
use rtos_apps.Base.{
  ℕ, ◌-◌, ◌/◌, ◌%◌, ◌^◌, Bool, true, false, ◌&&◌, Option, none, some, List, [], ◌∷◌, add32, sub32,
  mul32, ltb, leb, if◌then◌else◌,
}
use rtos_apps.Audio.Avtp.Source.{AvtpStream}

-- `struct genavb_event`
pub record Event : Type 0 where
  pub event_mask : ℕ
  pub index : ℕ
  pub ts : ℕ

-- What `genavb_stream_receive` gives, the number of bytes being none for an error, and the time, if the clock can be read.
pub record Reading : Type 0 where
  pub read_bytes : Option ℕ
  pub words : List ℕ
  pub events : List Event
  pub now : Option ℕ

-- The comparison of timestamps, the classes of streams and the marks of events, which the AVB stack defines; the cast
-- of `sample_dt` to an integer, and the periods to wait from the float computation in front of `ceilf`. That is given the delay to
-- the timestamp, the index of its event, and the stream's sample size, the period and the sample rate.
pub record Timing : Type 0 where
  pub avtp_after : ℕ → ℕ → Bool
  pub avtp_before : ℕ → ℕ → Bool
  pub max_transit_time : ℕ → ℕ
  pub max_timing_uncertainty : ℕ → ℕ
  pub is_uncertain : ℕ → Bool
  pub sample_ns : ℕ → ℕ
  pub periods_to_wait : ℕ → ℕ → ℕ → ℕ → ℕ → ℕ

-- GENAVB_PROCESSING_TIME_NS
abbrev pub genavb_processing_time_ns : ℕ
genavb_processing_time_ns = 1000000

-- AUDIO_PIPELINE_AVB_MAX_BUFFER_SIZE
abbrev pub avb_max_buffer_size : ℕ
avb_max_buffer_size = 256

unfoldable pub listener_timestamp_accept : Timing → ℕ → ℕ → ℕ → Bool
listener_timestamp_accept t ts now sr_class =
    t.avtp_after (add32 ts genavb_processing_time_ns) now
    && t.avtp_before ts
        (add32 (add32 now (t.max_transit_time sr_class)) (t.max_timing_uncertainty sr_class))

-- The time of the first sample of a batch, from an event in it.
abbrev pub batch_ts : Timing → AvtpStream → Event → ℕ
batch_ts t st e = sub32 e.ts (mul32 (e.index / st.sample_size) (t.sample_ns st.sample_dt))

-- The loop over the events, with the first certain one so far: `none` is a timestamp that is not accepted.
unfoldable pub first_event :
    Timing → AvtpStream → ℕ → Option Event → List Event → Option (Option Event)
unfolding listener_timestamp_accept
first_event t st now found [] = some found
first_event t st now found (e ∷ es) =
    let skip = first_event t st now found es in
    let keep = first_event t st now (elim found [ none ↦ some e | some f ↦ some f ]) es in
    if t.is_uncertain e.event_mask
    then skip
    else if listener_timestamp_accept t (batch_ts t st e) (now % 2 ^ 32) st.sr_class
    then keep
    else none

-- The part of `listener_receive` for a first start: the periods of silence, if the stream is in time.
unfoldable pub start_stream : Timing → ℕ → AvtpStream → Reading → AvtpStream × Option ℕ
unfolding first_event
start_stream t period st r = elim r.read_bytes [
  | none ↦ (record st { sync_err = add32 st.sync_err 1; first_start = true }, none)
  | some n ↦
      if ltb n st.cur_batch_size
      then (record st { start_underflow = add32 st.start_underflow 1; first_start = true }, none)
      else elim r.now [
        | none ↦ (record st { clock_err = add32 st.clock_err 1 }, none)
        | some now ↦ elim (first_event t st now none r.events) [
          | none ↦ (record st { ts_err = add32 st.ts_err 1 }, none)
          | some found ↦ elim found [
            | none ↦ (record st { event_err = add32 st.event_err 1 }, none)
            | some e ↦
                let wait =
                  t.periods_to_wait (sub32 (add32 e.ts genavb_processing_time_ns) now) e.index
                    st.sample_size period st.sample_dt in
                if leb (avb_max_buffer_size - 2) wait
                then (record st { sync_err = add32 st.sync_err 1 }, none)
                else (record st { first_start = false }, some wait)
          ]
        ]
      ]
]

-- The part for a stream that has started, with whether a batch was read.
unfoldable pub continue_stream : AvtpStream → Reading → AvtpStream × Bool
continue_stream st r = elim r.read_bytes [
  | none ↦ (record st { err = add32 st.err 1; first_start = true }, false)
  | some n ↦
      if ltb n st.cur_batch_size
      then (record st { underflow = add32 st.underflow 1; first_start = true }, false)
      else (st, true)
]

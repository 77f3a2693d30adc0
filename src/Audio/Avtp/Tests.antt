-- ===== src/Audio/Avtp/Tests.antt =====
-- Streams of two channels of 61883-6, with a period of two samples, into and out of the buffers at the addresses 3 and 4.
use rtos_apps.Base.{
  ℕ, ◌-◌, ◌*◌, ◌%◌, ◌≡◌, refl, arith, Bool, true, false, none, some, [], ◌∷◌, get_elem?, Memory,
}
use mathlib.Core.Option
use rtos_apps.Audio.Pipeline.Table.{Element}
use rtos_apps.Audio.Routing.{Buffers}
use rtos_apps.Audio.Avtp.Defs.{Avdecc, StreamParams, Cells, word_from, word_to}
use rtos_apps.Audio.Avtp.Words.{am824, word_to-from}
use rtos_apps.Audio.Avtp.Source.{
  AvtpStream, AvtpSource, Create, connect_stream, avtp_source_element_ctrl,
  avtp_source_element_exit, connect,
}
use rtos_apps.Audio.Avtp.Source.Receive.{Timing, Reading}
use rtos_apps.Audio.Avtp.Source.Run.{listener_receive}
use rtos_apps.Audio.Avtp.Source.Streams.{connect_behind_stays}
use rtos_apps.Audio.Avtp.Sink.{SinkStream}

word_to-from_example : word_to am824 (word_from am824 0x56341240) ≡ 0x56341240 - 0x56341240 % 256
word_to-from_example = word_to-from 0x56341240 (omega arith)

abbrev buffers : Buffers
buffers p = record {
  base = p * 10;
  read = 4;
  write = 2;
  size = 8;
  size_mask = 7;
  silence = 0;
  flags = 0;
  shared_id = 0;
  input_type = 0;
  input_id = 0;
  input_element_id = 0;
  output_type = 0;
  output_id = 0;
  output_element_id = 0;
}

-- Samples that are the words.
abbrev words_only : Cells ℕ
words_only = record {
  low = λ a. a;
  set_low = λ w a. w;
  of_int32 = λ w. w;
  to_int32 = λ a. a;
  silent = 0;
}

abbrev stack : Avdecc
stack = record {
  is_aaf_pcm = λ f. false;
  is_61883_6 = λ f. true;
  channels_per_sample = λ f. 2;
  sample_rate = λ f. 48000;
  sample_size = λ f. 8;
  samples_per_packet = λ f c. 6;
}

abbrev params : StreamParams
params = record { format = 1; stream_class = 0; flags = 0; clock_domain = 0 }

abbrev stream : Bool → AvtpStream
stream connected = record {
  connected = connected;
  connection_flags = 0;
  sr_class = 0;
  handle = none;
  cur_batch_size = 16;
  sample_size = 8;
  channel_buf = 3 ∷ 4 ∷ [];
  err = 0;
  clock_err = 0;
  sync_err = 0;
  ts_err = 0;
  event_err = 0;
  start_underflow = 0;
  underflow = 0;
  received = 0;
  first_start = false;
  sample_dt = 48000;
  convert = true;
  conversion = am824;
}

abbrev source : AvtpSource
source = record {
  stream_n = 1;
  stream = stream false ∷ stream false ∷ [];
  out = 3 ∷ 4 ∷ 5 ∷ 6 ∷ [];
  genavb_h = some 1;
  clock_domain = 0;
}

abbrev element : Element
element = record { type = 6; sample_rate = 48000; period = 2; element_id = 0 }

abbrev always : Create
always g p batch = some 70

connect_behind_stays_example :
    (after : AvtpSource) × ((avtp_source_element_ctrl stack always
        (some (element, source))
        true
        (connect 1 params)
        true
        true).0
      ≡ some after)
    × (get_elem? (avtp_source_element_exit after).stream 1
        ≡ Option.map (connect_stream stack always source params element) (some (stream false)))
connect_behind_stays_example = connect_behind_stays stack always element source params true

-- The stream that is left is connected, and its handle is that of the stack.
connect_behind_run :
    connect_stream stack always source params element (stream false)
    ≡ record (stream true) { handle = some 70; first_start = true }
unfolding connect_stream
connect_behind_run = refl

abbrev clock : Timing
clock = record {
  avtp_after = λ a b. true;
  avtp_before = λ a b. true;
  max_transit_time = λ c. 0;
  max_timing_uncertainty = λ c. 0;
  is_uncertain = λ m. false;
  sample_ns = λ r. 20833;
  periods_to_wait = λ d i s p r. 1;
}

abbrev reading : Reading
reading = record {
  read_bytes = some 16;
  words = 0x100 ∷ 0x200 ∷ 0x300 ∷ 0x400 ∷ [];
  events = [];
  now = some 0;
}

abbrev zeros : Memory ℕ
zeros a = 0

-- A period of 33 samples reads behind the array.
long_period_run : listener_receive words_only clock 33 (stream true) reading (buffers, zeros) ≡ none
unfolding listener_receive
long_period_run = refl

abbrev sending : SinkStream
sending = record {
  connected = true;
  handle = some 9;
  cur_batch_size = 16;
  channel_buf = 3 ∷ 4 ∷ [];
  err = 0;
  overflow = 0;
  sent = 0;
  convert = true;
  conversion = am824;
}

abbrev numbers : Memory ℕ
numbers a = a * 256

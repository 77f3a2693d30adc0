-- ===== src/Audio/Avtp/Defs.antt =====
-- audio/audio_format.h and what audio/audio_element_avtp_source.c and audio/audio_element_avtp_sink.c share: the
-- formats of AVB streams, and the words of samples in the buffers. The AVB stack is a parameter.
use rtos_apps.Base.{
  ℕ, zero, suc, ◌+◌, ◌-◌, ◌*◌, ◌/◌, ◌%◌, ◌^◌, Bool, true, Option, none, some, List, [], ◌∷◌,
  bit_and, ltb, if◌then◌else◌, Memory, store, mul32,
}

-- One entry of an array is changed; past its end nothing is.
abbrev pub change_at {ℓ} : {A : Type ℓ} → (A → A) → ℕ → List A → List A
change_at f i [] = []
change_at f zero (x ∷ xs) = f x ∷ xs
change_at f (suc i) (x ∷ xs) = x ∷ change_at f i xs

-- What the functions `avdecc_*` tell of a format.
pub record Avdecc : Type 0 where
  pub is_aaf_pcm : ℕ → Bool
  pub is_61883_6 : ℕ → Bool
  pub channels_per_sample : ℕ → ℕ
  pub sample_rate : ℕ → ℕ
  pub sample_size : ℕ → ℕ
  pub samples_per_packet : ℕ → ℕ → ℕ

-- `struct genavb_stream_params`, as far as the elements use it.
pub record StreamParams : Type 0 where
  pub format : ℕ
  pub stream_class : ℕ
  pub flags : ℕ
  pub clock_domain : ℕ

-- The format conversion of a stream.
pub record Conversion : Type 0 where
  pub invert : Bool
  pub shift : ℕ
  pub mask : ℕ

-- The branches on the format that a connection takes; `none` is an unsupported one.
unfoldable pub conversion_of : Avdecc → ℕ → Option Conversion
conversion_of av f =
    if av.is_aaf_pcm f
    then some (record { invert = true; shift = 0; mask = 0xffffff00 })
    else if av.is_61883_6 f
    then some (record { invert = true; shift = 8; mask = 0x00ffffff })
    else none

-- The batch that the stack is asked for.
unfoldable pub batch_of : Avdecc → ℕ → StreamParams → ℕ
batch_of av period params =
    let per_packet = av.samples_per_packet params.format params.stream_class in
    if ltb period per_packet
    then mul32 per_packet (av.sample_size params.format)
    else mul32 period (av.sample_size params.format)

-- `__REV` reverses the bytes of a word.
unfoldable pub rev : ℕ → ℕ
rev w = w % 256 * 2 ^ 24 + w / 256 % 256 * 2 ^ 16 + w / 2 ^ 16 % 256 * 256 + w / 2 ^ 24 % 256

-- A sample in memory: its low word is the 32-bit value at its address.
pub record Cells (A : Type 0) : Type 0 where
  pub low : A → ℕ
  pub set_low : ℕ → A → A
  pub of_int32 : ℕ → A
  pub to_int32 : A → ℕ
  pub silent : A

-- PERIOD_MAX: the local arrays of both elements have as many words for each channel.
abbrev pub period_max : ℕ
period_max = 32

-- The word of a round of `audio_convert_from`.
unfoldable pub word_from : Conversion → ℕ → ℕ
unfolding rev
word_from c w = bit_and (if c.invert then rev w else w) c.mask * 2 ^ c.shift % 2 ^ 32

-- The word of a round of `audio_convert_to`. The value is shifted as a signed one: copies of its sign come from the left.
unfoldable pub word_to : Conversion → ℕ → ℕ
unfolding rev
word_to c w =
    let sign = if ltb w (2 ^ 31) then 0 else 2 ^ 32 - 2 ^ (32 - c.shift) in
    let v = bit_and (w / 2 ^ c.shift + sign) c.mask in if c.invert then rev v else v

module _ {A : Type 0} where
  -- `len` rounds of a conversion in place, from the address on.
  unfoldable pub convert_span : (A → A) → ℕ → ℕ → Memory A → Memory A
  convert_span f zero a m = m
  convert_span f (suc len) a m = convert_span f len (a + 1) (store m a (f (m a)))

  -- The loop over the buffers of a stream's channels.
  unfoldable pub convert_all : (A → A) → (ℕ → ℕ) → ℕ → List ℕ → Memory A → Memory A
  unfolding convert_span
  convert_all f start len [] m = m
  convert_all f start len (p ∷ ps) m = convert_all f start len ps (convert_span f len (start p) m)

module _ {A : Type 0} (cells : Cells A) (c : Conversion) where
  -- The rounds of `audio_convert_from` and `audio_convert_to`.
  abbrev pub sample_from : A → A
  sample_from v = cells.of_int32 (word_from c (cells.low v))

  abbrev pub sample_to : A → A
  sample_to v = cells.set_low (word_to c (cells.to_int32 v)) v

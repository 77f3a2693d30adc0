-- ===== src/Audio/Buffer.antt =====
-- audio/audio_buffer.h and audio/audio_buffer.c: circular buffers of samples with one writer and one
-- reader. Samples are an abstract type, since the code only moves them; memory is counted in samples.
pub mod Index
pub mod Window
pub mod Fifo
pub mod Head
pub mod Silence
pub mod Setup
pub mod Places
mod Tests
use rtos_apps.Base.{
  ℕ, zero, suc, ◌+◌, ◌-◌, ◌/◌, ◌^◌, List, [], ◌∷◌, Bool, true, false, add32, sub32, bit_and, ltb,
  ◌==◌, if◌then◌else◌, Memory, store,
}

-- `struct audio_buffer`
pub record AudioBuffer : Type 0 where
  pub base : ℕ
  pub read : ℕ
  pub write : ℕ
  pub size : ℕ
  pub size_mask : ℕ
  pub silence : ℕ
  pub flags : ℕ
  pub shared_id : ℕ
  pub input_type : ℕ
  pub input_id : ℕ
  pub input_element_id : ℕ
  pub output_type : ℕ
  pub output_id : ℕ
  pub output_element_id : ℕ

abbrev pub audio_buf_write_addr : AudioBuffer → ℕ → ℕ
audio_buf_write_addr buf offset = buf.base + add32 buf.write offset

abbrev pub audio_buf_read_addr : AudioBuffer → ℕ → ℕ
audio_buf_read_addr buf offset = buf.base + add32 buf.read offset

unfoldable pub audio_buf_write_update : AudioBuffer → ℕ → AudioBuffer
audio_buf_write_update buf len = record buf { write = bit_and (add32 buf.write len) buf.size_mask }

unfoldable pub audio_buf_read_update : AudioBuffer → ℕ → AudioBuffer
audio_buf_read_update buf len = record buf { read = bit_and (add32 buf.read len) buf.size_mask }

unfoldable pub audio_buf_avail : AudioBuffer → ℕ
audio_buf_avail buf =
    if ltb buf.write buf.read
    then sub32 (add32 buf.write buf.size) buf.read
    else sub32 buf.write buf.read

unfoldable pub audio_buf_free : AudioBuffer → ℕ
audio_buf_free buf = sub32 (sub32 buf.size (audio_buf_avail buf)) 1

unfoldable pub audio_buf_full : AudioBuffer → Bool
audio_buf_full buf = buf.read == sub32 buf.write 1

unfoldable pub audio_buf_empty : AudioBuffer → Bool
audio_buf_empty buf = buf.read == buf.write

-- `while ((size >>= 1)) size_mask++`: an `unsigned int` is shifted to 0 by 32 rounds at most.
pub log2_loop : ℕ → ℕ → ℕ → ℕ
log2_loop zero size n = n
log2_loop (suc fuel) size n =
    let rest = log2_loop fuel (size / 2) (n + 1) in if size / 2 == 0 then n else rest

module _ {ℓ} {A : Type ℓ} where
  -- The list is what `samples` points to, and its length is `len`.
  unfoldable pub audio_buf_write : AudioBuffer → Memory A → List A → AudioBuffer × Memory A
  audio_buf_write buf m [] = (buf, m)
  audio_buf_write buf m (x ∷ xs) =
      audio_buf_write (record buf { write = bit_and (add32 buf.write 1) buf.size_mask })
        (store m (buf.base + buf.write) x) xs

  -- The loop of `audio_buf_write_head`, over its local `read`.
  pub write_head_loop : AudioBuffer → ℕ → Memory A → List A → Memory A
  write_head_loop buf read m [] = m
  write_head_loop buf read m (x ∷ xs) =
      write_head_loop buf (bit_and (add32 read 1) buf.size_mask) (store m (buf.base + read) x) xs

  unfoldable pub audio_buf_write_head : AudioBuffer → Memory A → List A → ℕ → AudioBuffer × Memory A
  unfolding write_head_loop
  audio_buf_write_head buf m xs len =
      let read = bit_and (sub32 buf.read len) buf.size_mask in
      (record buf { read = read }, write_head_loop buf read m xs)

  unfoldable pub audio_buf_read : AudioBuffer → Memory A → ℕ → AudioBuffer × List A
  audio_buf_read buf m zero = (buf, [])
  audio_buf_read buf m (suc n) =
      let (buf', xs) =
        audio_buf_read (record buf { read = bit_and (add32 buf.read 1) buf.size_mask }) m n in
      (buf', m (buf.base + buf.read) ∷ xs)

  -- `for (i = 0; i < len; i++) dst[i] = src[i]`, `n` rounds from `i` on, in one memory.
  unfoldable pub copy_loop : ℕ → ℕ → ℕ → ℕ → Memory A → Memory A
  copy_loop zero i dst src m = m
  copy_loop (suc n) i dst src m = copy_loop n (i + 1) dst src (store m (dst + i) (m (src + i)))

  -- One assignment `dst[i] = src[i]` of the unrolled copies.
  abbrev pub copy_one : ℕ → ℕ → ℕ → Memory A → Memory A
  copy_one i dst src m = store m (dst + i) (m (src + i))

  abbrev copy_two : ℕ → ℕ → ℕ → Memory A → Memory A
  copy_two i dst src m = copy_one (i + 1) dst src (copy_one i dst src m)

  abbrev copy_four : ℕ → ℕ → ℕ → Memory A → Memory A
  copy_four i dst src m = copy_two (i + 2) dst src (copy_two i dst src m)

  unfoldable pub audio_memcpy : ℕ → ℕ → ℕ → Memory A → Memory A
  unfolding copy_loop
  audio_memcpy dst src len m =
      if len == 1
      then copy_one 0 dst src m
      else if len == 2
      then copy_two 0 dst src m
      else if len == 4
      then copy_four 0 dst src m
      else if len == 8
      then copy_four 4 dst src (copy_four 0 dst src m)
      else copy_loop len 0 dst src m

  unfoldable pub audio_buf_copy : AudioBuffer → AudioBuffer → ℕ → Memory A → Memory A
  unfolding audio_memcpy
  audio_buf_copy dst src len m = audio_memcpy (dst.base + dst.write) (src.base + src.read) len m

  -- The rounds `i, …, i + n - 1` of the loop of `audio_buf_write_silence`; `s` is the silent sample.
  pub silence_loop : A → AudioBuffer → ℕ → ℕ → Memory A → Memory A
  silence_loop s buf zero i m = m
  silence_loop s buf (suc n) i m =
      silence_loop s buf n (i + 1) (store m (audio_buf_write_addr buf i) s)

  unfoldable pub audio_buf_write_silence : A → AudioBuffer → ℕ → Memory A → AudioBuffer × Memory A
  unfolding silence_loop audio_buf_write_update
  audio_buf_write_silence s buf len m = (audio_buf_write_update buf len, silence_loop s buf len 0 m)

  unfoldable pub audio_buf_reset : A → AudioBuffer → Memory A → AudioBuffer × Memory A
  unfolding audio_buf_write_silence
  audio_buf_reset s buf m =
      audio_buf_write_silence s (record buf { read = 0; write = 0 }) buf.silence m

  unfoldable pub audio_buf_init : A → ℕ → ℕ → ℕ → ℕ → ℕ → Memory A → AudioBuffer × Memory A
  unfolding audio_buf_write_silence log2_loop
  audio_buf_init s base size silence flags shared_id m =
      audio_buf_write_silence s
        (record {
          base = base;
          read = 0;
          write = 0;
          size = size;
          size_mask = sub32 (2 ^ log2_loop 32 size 0) 1;
          silence = silence;
          flags = flags;
          shared_id = shared_id;
          input_type = 0;
          input_id = 0;
          input_element_id = 0;
          output_type = 0;
          output_id = 0;
          output_element_id = 0;
        })
        silence m

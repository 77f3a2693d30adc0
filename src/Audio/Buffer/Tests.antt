-- ===== src/Audio/Buffer/Tests.antt =====
-- Runs of the buffer's operations at concrete inputs, and the theorems at such inputs.
use rtos_apps.Base.{
  ℕ, ◌+◌, ◌≤◌, ◌<◌, ◌≡◌, ◌↔◌, inr, refl, true, arith, [], ◌∷◌, ◌++◌, Memory, store,
}
use rtos_apps.Audio.Buffer.{
  AudioBuffer, audio_buf_avail, audio_buf_free, audio_buf_full, audio_buf_empty, audio_buf_write,
  audio_buf_read, audio_buf_write_head, audio_buf_write_silence, audio_buf_write_update,
  audio_buf_copy, audio_buf_reset, audio_buf_init, audio_memcpy, copy_loop,
}
use rtos_apps.Audio.Buffer.Index.{IsValid, IsValid-InRange, avail-add-free, full_iff, empty_iff}
use rtos_apps.Audio.Buffer.Fifo.{
  contents, Wrote, audio_buf_write_lem, audio_buf_read_lem, read-write_lem,
}
use rtos_apps.Audio.Buffer.Head.{audio_buf_write_head_lem}
use rtos_apps.Audio.Buffer.Silence.{write_silence-eq-write, copy-eq-write, memcpy-eq-loop}
use rtos_apps.Audio.Buffer.Setup.{Fresh, audio_buf_reset_lem, audio_buf_init_lem}

-- Each address holds its own number.
abbrev numbers : Memory ℕ
numbers a = a

-- Four samples at address 20, of which 23 and 20 are stored.
abbrev wrapped : AudioBuffer
wrapped = record {
  base = 20;
  read = 3;
  write = 1;
  size = 4;
  size_mask = 3;
  silence = 2;
  flags = 0;
  shared_id = 0;
  input_type = 0;
  input_id = 0;
  input_element_id = 0;
  output_type = 0;
  output_id = 0;
  output_element_id = 0;
}

abbrev source : AudioBuffer
source = record wrapped { base = 40; read = 0; write = 0 }

wrapped-IsValid : IsValid wrapped
wrapped-IsValid = record {
  order = 2;
  order_le = omega arith;
  size_pow = refl;
  mask_pow = refl;
  read_in = omega arith;
  write_in = omega arith;
}

counts : (audio_buf_avail wrapped ≡ 2) × (audio_buf_free wrapped ≡ 1)
unfolding audio_buf_avail audio_buf_free
counts = (refl, refl)

room : 1 ≤ audio_buf_free wrapped
room = omega (arith, counts.1)

written :
    contents
      (audio_buf_write wrapped numbers (7 ∷ [])).0
      (audio_buf_write wrapped numbers (7 ∷ [])).1
    ≡ 23 ∷ 20 ∷ 7 ∷ []
unfolding audio_buf_write audio_buf_avail store
written = refl

avail-add-free_run : audio_buf_avail wrapped + audio_buf_free wrapped + 1 ≡ 4
avail-add-free_run = avail-add-free (IsValid-InRange wrapped-IsValid)

full_iff_run : (audio_buf_full wrapped ≡ true) ↔ ((audio_buf_avail wrapped ≡ 1) × (3 < 1))
full_iff_run = full_iff (IsValid-InRange wrapped-IsValid)

audio_buf_write_lem_example :
    let (b, m) = audio_buf_write wrapped numbers (7 ∷ []) in Wrote wrapped numbers (7 ∷ []) b m
audio_buf_write_lem_example = audio_buf_write_lem numbers (7 ∷ []) wrapped-IsValid room

audio_buf_read_lem_example :
    let (b, xs) = audio_buf_read wrapped numbers 1 in
    (xs ≡ 23 ∷ [])
    × (contents b numbers ≡ 20 ∷ [])
    × (audio_buf_avail b + 1 ≡ audio_buf_avail wrapped)
    × IsValid b
unfolding audio_buf_avail
audio_buf_read_lem_example = audio_buf_read_lem numbers 1 wrapped-IsValid (omega arith)

read-write_lem_run :
    let (b, m) = audio_buf_write wrapped numbers (7 ∷ []) in
    (audio_buf_read b m (audio_buf_avail b)).1 ≡ contents wrapped numbers ++ 7 ∷ []
read-write_lem_run = read-write_lem numbers (7 ∷ []) wrapped-IsValid room

audio_buf_write_head_lem_run :
    let (b, m) = audio_buf_write_head wrapped numbers (7 ∷ []) 1 in
    (contents b m ≡ 7 ∷ contents wrapped numbers)
    × (audio_buf_free b + 1 ≡ audio_buf_free wrapped)
    × IsValid b
audio_buf_write_head_lem_run = audio_buf_write_head_lem wrapped-IsValid numbers (7 ∷ []) room

write_silence-eq-write_run :
    audio_buf_write_silence 0 wrapped 3 numbers ≡ audio_buf_write wrapped numbers (0 ∷ 0 ∷ 0 ∷ [])
write_silence-eq-write_run = write_silence-eq-write 0 3 numbers wrapped-IsValid (omega arith)

copy-eq-write_run :
    (audio_buf_write_update wrapped 2, audio_buf_copy wrapped source 2 numbers)
    ≡ audio_buf_write wrapped numbers (40 ∷ 41 ∷ [])
copy-eq-write_run = copy-eq-write source 2 numbers wrapped-IsValid (omega arith) (inr (omega arith))

audio_buf_reset_lem_run :
    let (b, m) = audio_buf_reset 0 wrapped numbers in Fresh 0 20 4 2 b numbers m
audio_buf_reset_lem_run = audio_buf_reset_lem 0 numbers wrapped-IsValid (omega arith)

audio_buf_init_lem_run :
    let (b, m) = audio_buf_init 0 20 8 3 1 5 numbers in Fresh 0 20 8 3 b numbers m
audio_buf_init_lem_run = audio_buf_init_lem 0 20 3 3 1 5 numbers (omega arith) (omega arith)

memcpy-eq-loop_run : audio_memcpy 40 50 8 numbers ≡ copy_loop 8 0 40 50 numbers
memcpy-eq-loop_run = memcpy-eq-loop 40 50 8 numbers

empty_iff_run : (audio_buf_empty wrapped ≡ true) ↔ (audio_buf_avail wrapped ≡ 0)
empty_iff_run = empty_iff (IsValid-InRange wrapped-IsValid)

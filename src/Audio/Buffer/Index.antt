-- ===== src/Audio/Buffer/Index.antt =====
-- The indices of a buffer, its invariant and its masks.
use rtos_apps.Base.{
  ℕ, ◌+◌, ◌-◌, ◌%◌, ◌^◌, ◌≤◌, ◌<◌, ◌≡◌, arith, bit_and, bit_and_mask, ltb, if◌then◌else◌, true, ◌↔◌,
  mod_pow-mod_pow, sub-mod_pow, ◌∙◌, add32, sub32,
}
use native.Mathlib.Nat.{pow-le-pow_right, mod-eq_of_lt, add-mod_right}
use rtos_apps.Audio.Buffer.{
  AudioBuffer, audio_buf_avail, audio_buf_free, audio_buf_full, audio_buf_empty,
}

-- The size is a power of two, the mask is its predecessor, and both indices are below the size.
pub record IsValid (b : AudioBuffer) : Type 0 where
  pub order : ℕ
  pub order_le : order ≤ 31
  pub size_pow : b.size ≡ 2 ^ order
  pub mask_pow : b.size_mask ≡ 2 ^ order - 1
  pub read_in : b.read < b.size
  pub write_in : b.write < b.size

module _ {b : AudioBuffer} (v : IsValid b) where
  pub size_le : b.size ≤ 2 ^ 31
  size_le = rw v.size_pow (pow-le-pow_right {n = 2} (omega arith) v.order_le)

  -- The mask wraps an index at the size, also where the sum of 32 bits has wrapped before.
  pub mask-add : (x y : ℕ) → bit_and (add32 x y) b.size_mask ≡ (x + y) % b.size
  mask-add x y =
      rw (v.mask_pow, v.size_pow, bit_and_mask)
        (mod_pow-mod_pow v.order 32 (omega (arith, v.order_le)) (x + y))

  pub mask-sub :
      (x y : ℕ)
      → x < b.size
      → y ≤ b.size
      → bit_and (sub32 x y) b.size_mask ≡ (x + b.size - y) % b.size
  mask-sub x y h k =
      rw (v.mask_pow, v.size_pow, bit_and_mask, mod-eq_of_lt wide)
        (mod_pow-mod_pow v.order 32 fits (x + 2 ^ 32 - y)
          ∙ sub-mod_pow v.order 32 fits x y (rw v.size_pow at k))
    where
      fits : v.order ≤ 32
      fits = omega (arith, v.order_le)

      wide : y < 2 ^ 32
      wide = omega (arith, size_le)

-- What the size and the indices satisfy, without the width.
pub record InRange (b : AudioBuffer) : Type 0 where
  pub size_small : b.size ≤ 2 ^ 31
  pub read_in : b.read < b.size
  pub write_in : b.write < b.size

pub IsValid-InRange : {b : AudioBuffer} → IsValid b → InRange b
IsValid-InRange v = record { size_small = size_le v; read_in = v.read_in; write_in = v.write_in }

-- The two counts without the 32-bit arithmetic, which does not wrap here.
pub avail_lem :
    {b : AudioBuffer}
    → InRange b
    → audio_buf_avail b
      ≡ (if ltb b.write b.read then b.write + b.size - b.read else b.write - b.read)
unfolding audio_buf_avail
avail_lem r = ground arith

-- The free space and the stored samples make up all of the storage but one sample.
pub avail-add-free :
    {b : AudioBuffer} → InRange b → audio_buf_avail b + audio_buf_free b + 1 ≡ b.size
unfolding audio_buf_free audio_buf_avail
avail-add-free r = ground arith

-- `audio_buf_empty` tells whether no sample is stored.
pub empty_iff : {b : AudioBuffer} → InRange b → (audio_buf_empty b ≡ true) ↔ (audio_buf_avail b ≡ 0)
unfolding audio_buf_empty audio_buf_avail
empty_iff r = ground arith

-- `audio_buf_full` tells whether exactly one sample is stored, in front of a writer that has not wrapped.
pub full_iff :
    {b : AudioBuffer}
    → InRange b
    → (audio_buf_full b ≡ true) ↔ ((audio_buf_avail b ≡ 1) × (b.read < b.write))
unfolding audio_buf_full audio_buf_avail
full_iff r = ground arith

-- The writer stands the stored samples behind the reader.
pub write_lem : {b : AudioBuffer} → InRange b → b.write ≡ (b.read + audio_buf_avail b) % b.size
write_lem {b} r = ground (arith, avail_lem r, mod-eq_of_lt r.write_in, add-mod_right b.write b.size)

-- ===== src/Audio/Buffer/Setup.antt =====
-- `audio_buf_init` and `audio_buf_reset`.
use rtos_apps.Base.{
  ℕ, zero, suc, ◌+◌, ◌-◌, ◌/◌, ◌^◌, ◌≤◌, ◌<◌, ◌≡◌, ◌⊎◌, ◌∙◌, refl, ap, arith, ◌++◌, replicate,
  length-replicate, Memory, sub32, ==_ne,
}
use rtos_apps.Audio.Buffer.{
  AudioBuffer, audio_buf_avail, log2_loop, audio_buf_write_silence, audio_buf_write,
  audio_buf_reset, audio_buf_init,
}
use rtos_apps.Audio.Buffer.Index.{IsValid, IsValid-InRange, avail_lem, avail-add-free}
use rtos_apps.Audio.Buffer.Window.{window}
use rtos_apps.Audio.Buffer.Fifo.{contents, Wrote, audio_buf_write_lem}
use rtos_apps.Audio.Buffer.Silence.{write_silence-eq-write}
use native.Mathlib.Nat.{zero-add, pow-suc, one-le-pow, pow-le-pow_right}

-- The shift loop counts the exponent of a power of two.
log2_loop-pow : (fuel k n : ℕ) → k < fuel → log2_loop fuel (2 ^ k) n ≡ n + k
unfolding log2_loop
log2_loop-pow zero k n h = absurd (omega arith)
log2_loop-pow (suc fuel) zero n h = omega arith
log2_loop-pow (suc fuel) (suc k) n h =
    rw (halved, ==_ne (2 ^ k) 0 (omega (arith, one-le-pow k 2)))
      (log2_loop-pow fuel k (n + 1) (omega arith) ∙ omega arith)
  where
    halved : 2 ^ suc k / 2 ≡ 2 ^ k
    halved = omega (arith, pow-suc 2 k)

-- A buffer that is set up anew: valid, and holding as many silent samples as asked.
pub record Fresh {ℓ} {A : Type ℓ} (s : A) (base size silence : ℕ) (b : AudioBuffer)
    (m m' : Memory A) : Type ℓ where
  pub valid : IsValid b
  pub placed : (b.base ≡ base) × (b.size ≡ size)
  pub silent : contents b m' ≡ replicate silence s
  pub elsewhere : (a : ℕ) → (a < base) ⊎ (base + size ≤ a) → m' a ≡ m a

module _ {ℓ} {A : Type ℓ} (s : A) where
  -- Silence in a buffer whose indices are both 0.
  silence-Fresh :
      {b : AudioBuffer} (v : IsValid b) (n : ℕ) (m : Memory A)
      → b.read ≡ 0
      → b.write ≡ 0
      → n < b.size
      → let (b', m') = audio_buf_write_silence s b n m in Fresh s b.base b.size n b' m m'
  silence-Fresh {b} v n m r w h = rw (write_silence-eq-write s n m v (omega arith)) (record {
    valid = done.valid;
    placed = done.storage_kept;
    silent =
        done.appended ∙ ap (λ (k : ℕ). window b.base b.size m b.read k ++ replicate n s) nothing;
    elsewhere = done.elsewhere;
  })
    where
      nothing : audio_buf_avail b ≡ 0
      nothing = ground (arith, avail_lem (IsValid-InRange v))

      done : let (b', m') = audio_buf_write b m (replicate n s) in Wrote b m (replicate n s) b' m'
      done =
          audio_buf_write_lem m (replicate n s) v
            (omega (arith, length-replicate n s, nothing, avail-add-free (IsValid-InRange v)))

  rewound-IsValid : {b : AudioBuffer} → IsValid b → IsValid (record b { read = 0; write = 0 })
  rewound-IsValid v = record {
    order = v.order;
    order_le = v.order_le;
    size_pow = v.size_pow;
    mask_pow = v.mask_pow;
    read_in = omega (arith, v.read_in);
    write_in = omega (arith, v.read_in);
  }

  -- A reset leaves a valid buffer that holds exactly its initial run of silence, whatever it held
  -- before, and writes to no address outside its storage.
  pub audio_buf_reset_lem :
      {b : AudioBuffer} (m : Memory A)
      → IsValid b
      → b.silence < b.size
      → let (b', m') = audio_buf_reset s b m in Fresh s b.base b.size b.silence b' m m'
  unfolding audio_buf_reset
  audio_buf_reset_lem {b} m v h = silence-Fresh (rewound-IsValid v) b.silence m refl refl h

  -- A buffer of a power of two of samples, 2 ^ 31 at most, is set up valid and holds exactly the
  -- given run of silence, if that is shorter than the buffer.
  pub audio_buf_init_lem :
      (base k silence flags shared_id : ℕ) (m : Memory A)
      → k ≤ 31
      → silence < 2 ^ k
      → let (b', m') = audio_buf_init s base (2 ^ k) silence flags shared_id m in
        Fresh s base (2 ^ k) silence b' m m'
  unfolding audio_buf_init
  audio_buf_init_lem base k silence flags shared_id m h hs = rw mask (
      silence-Fresh
        (record {
          order = k;
          order_le = h;
          size_pow = refl;
          mask_pow = refl;
          read_in = omega arith;
          write_in = omega arith;
        })
        silence m refl refl hs)
    where
      below : 2 ^ k ≤ 2 ^ 31
      below = pow-le-pow_right {n = 2} (omega arith) h

      mask : sub32 (2 ^ log2_loop 32 (2 ^ k) 0) 1 ≡ 2 ^ k - 1
      mask =
          ap (λ e. sub32 (2 ^ e) 1) (log2_loop-pow 32 k 0 (omega arith) ∙ zero-add k)
          ∙ omega (arith, below, one-le-pow k 2)

-- ===== src/Audio/Buffer/Fifo.antt =====
-- A buffer as a queue of samples: `audio_buf_write` and `audio_buf_read`.
use rtos_apps.Base.{
  ℕ, zero, suc, ◌+◌, ◌≤◌, ◌<◌, ◌≡◌, ◌⊎◌, ◌∙◌, sym, refl, ap, arith, List, [], ◌∷◌, ◌++◌, length,
  take, take_all, drop, Memory, store, store_ne, add32, bit_and,
}
use mathlib.Core.List.{append-nil, append_assoc}
use native.Mathlib.Nat.{mod-lt}
use rtos_apps.Audio.Buffer.{
  AudioBuffer, audio_buf_avail, audio_buf_free, audio_buf_write, audio_buf_read,
}
use rtos_apps.Audio.Buffer.Index.{
  IsValid, IsValid-InRange, mask-add, avail_lem, avail-add-free, write_lem,
}
use rtos_apps.Audio.Buffer.Window.{window, length-window, window-store_end, next_lem}

module _ {ℓ} {A : Type ℓ} where
  -- The samples that a buffer holds, the next one to be read first.
  abbrev pub contents : AudioBuffer → Memory A → List A
  contents b m = window b.base b.size m b.read (audio_buf_avail b)

-- The buffer after a write of one sample, and after a read of one.
abbrev wrote : AudioBuffer → AudioBuffer
wrote b = record b { write = bit_and (add32 b.write 1) b.size_mask }

abbrev took : AudioBuffer → AudioBuffer
took b = record b { read = bit_and (add32 b.read 1) b.size_mask }

wrote-IsValid : {b : AudioBuffer} → IsValid b → IsValid (wrote b)
wrote-IsValid {b} v = record {
  order = v.order;
  order_le = v.order_le;
  size_pow = v.size_pow;
  mask_pow = v.mask_pow;
  read_in = v.read_in;
  write_in = rw (mask-add v b.write 1) (mod-lt (b.write + 1) (omega (arith, v.write_in)));
}

took-IsValid : {b : AudioBuffer} → IsValid b → IsValid (took b)
took-IsValid {b} v = record {
  order = v.order;
  order_le = v.order_le;
  size_pow = v.size_pow;
  mask_pow = v.mask_pow;
  read_in = rw (mask-add v b.read 1) (mod-lt (b.read + 1) (omega (arith, v.read_in)));
  write_in = v.write_in;
}

avail-wrote :
    {b : AudioBuffer}
    → IsValid b
    → 0 < audio_buf_free b
    → (audio_buf_avail (wrote b) ≡ audio_buf_avail b + 1)
      × (audio_buf_free (wrote b) + 1 ≡ audio_buf_free b)
avail-wrote {b} v h = ground (
  arith,
  avail_lem (IsValid-InRange v),
  avail-add-free (IsValid-InRange v),
  avail_lem (IsValid-InRange (wrote-IsValid v)),
  avail-add-free (IsValid-InRange (wrote-IsValid v)),
  mask-add v b.write 1,
  next_lem v.write_in,
)

avail-took :
    {b : AudioBuffer}
    → IsValid b
    → 0 < audio_buf_avail b
    → audio_buf_avail (took b) + 1 ≡ audio_buf_avail b
avail-took {b} v h = ground (
  arith,
  avail_lem (IsValid-InRange v),
  avail_lem (IsValid-InRange (took-IsValid v)),
  mask-add v b.read 1,
  next_lem v.read_in,
)

module _ {ℓ} {A : Type ℓ} where
  contents-wrote :
      {b : AudioBuffer} (m : Memory A) (x : A)
      → IsValid b
      → 0 < audio_buf_free b
      → contents (wrote b) (store m (b.base + b.write) x) ≡ contents b m ++ x ∷ []
  contents-wrote {b} m x v h =
      let more : audio_buf_avail (wrote b) ≡ suc (audio_buf_avail b) =
        omega (arith, avail-wrote v h) in
      rw more (
        window-store_end b.base b.size m b.write x b.read (audio_buf_avail b) v.read_in
          (omega (arith, avail-add-free (IsValid-InRange v))) (write_lem (IsValid-InRange v)))

  -- What a run of writes of `xs` from the state `b`, `m` has done.
  pub record Wrote (b : AudioBuffer) (m : Memory A) (xs : List A) (b' : AudioBuffer) (m' : Memory A)
      : Type ℓ where
    pub valid : IsValid b'
    pub room : audio_buf_free b' + length xs ≡ audio_buf_free b
    pub appended : contents b' m' ≡ contents b m ++ xs
    pub storage_kept : (b'.base ≡ b.base) × (b'.size ≡ b.size)
    pub elsewhere : (a : ℕ) → (a < b.base) ⊎ (b.base + b.size ≤ a) → m' a ≡ m a

  -- A write that fits appends the samples in order, takes their number from the free space, keeps the
  -- invariant and writes to no address outside the storage.
  pub audio_buf_write_lem :
      {b : AudioBuffer} (m : Memory A) (xs : List A)
      → IsValid b
      → length xs ≤ audio_buf_free b
      → let (b', m') = audio_buf_write b m xs in Wrote b m xs b' m'
  unfolding audio_buf_write
  audio_buf_write_lem {b} m [] v h = record {
    valid = v;
    room = omega arith;
    appended = sym (append-nil (contents b m));
    storage_kept = (refl, refl);
    elsewhere = λ a out. refl;
  }
  audio_buf_write_lem {b} m (x ∷ xs) v h =
      let step = avail-wrote v (omega arith) in
      let rest =
        audio_buf_write_lem {b = wrote b} (store m (b.base + b.write) x) xs (wrote-IsValid v)
          (omega arith) in
      record {
        valid = rest.valid;
        room = omega (arith, rest.room);
        appended =
            rest.appended
            ∙ ap (λ l. l ++ xs) (contents-wrote m x v (omega arith))
            ∙ append_assoc (contents b m) (x ∷ []) xs;
        storage_kept = rest.storage_kept;
        elsewhere = λ a out. rest.elsewhere a out ∙ store_ne m x (omega (arith, v.write_in));
      }

  contents-took :
      {b : AudioBuffer} (m : Memory A)
      → IsValid b
      → 0 < audio_buf_avail b
      → contents b m ≡ m (b.base + b.read) ∷ contents (took b) m
  contents-took {b} m v h =
      let more : audio_buf_avail b ≡ suc (audio_buf_avail (took b)) =
        omega (arith, avail-took v h) in
      rw (more, mask-add v b.read 1) refl

  -- A read of samples that are there returns the first ones in order, and leaves the others.
  pub audio_buf_read_lem :
      {b : AudioBuffer} (m : Memory A) (n : ℕ)
      → IsValid b
      → n ≤ audio_buf_avail b
      → let (b', xs) = audio_buf_read b m n in
        (xs ≡ take n (contents b m))
        × (contents b' m ≡ drop n (contents b m))
        × (audio_buf_avail b' + n ≡ audio_buf_avail b)
        × IsValid b'
  unfolding audio_buf_read
  audio_buf_read_lem {b} m zero v h = (refl, refl, omega arith, v)
  audio_buf_read_lem {b} m (suc n) v h =
      let rest =
        audio_buf_read_lem {b = took b} m n (took-IsValid v)
          (omega (arith, avail-took v (omega arith))) in
      rw (contents-took m v (omega arith)) (
        ap (◌∷◌ (m (b.base + b.read))) rest.0,
        rest.1,
        omega (arith, rest.2, avail-took v (omega arith)),
        rest.3,
      )

  -- A run of writes followed by a read of all that the buffer then holds returns what it held before,
  -- and behind it what was written.
  pub read-write_lem :
      {b : AudioBuffer} (m : Memory A) (xs : List A)
      → IsValid b
      → length xs ≤ audio_buf_free b
      → let (b', m') = audio_buf_write b m xs in
        (audio_buf_read b' m' (audio_buf_avail b')).1 ≡ contents b m ++ xs
  read-write_lem {b} m xs v h =
      let w = audio_buf_write_lem m xs v h in
      (audio_buf_read_lem (audio_buf_write b m xs).1 (audio_buf_avail (audio_buf_write b m xs).0)
        w.valid (omega arith)).0
      ∙ take_all (audio_buf_avail (audio_buf_write b m xs).0) _ (
          omega (
            arith,
            length-window (audio_buf_write b m xs).0.base (audio_buf_write b m xs).0.size
                (audio_buf_write b m xs).1 (audio_buf_write b m xs).0.read
                (audio_buf_avail (audio_buf_write b m xs).0),
          ))
      ∙ w.appended

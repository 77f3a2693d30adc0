-- ===== src/Audio/Buffer/Head.antt =====
-- `audio_buf_write_head`, and the samples that a buffer holds.
use rtos_apps.Base.{
  ℕ, suc, ◌+◌, ◌-◌, ◌%◌, ◌≤◌, ◌<◌, ◌≡◌, ◌≢◌, ◌∙◌, refl, ap, ap₂, arith, List, [], ◌∷◌, ◌++◌, length,
  Memory, store, store_ne, store_self, sub32, bit_and,
}
use native.Mathlib.Nat.{mod-lt, mod-eq_of_lt, mod-add-mod, add-mod_right, add-zero}
use rtos_apps.Audio.Buffer.{
  AudioBuffer, audio_buf_avail, audio_buf_free, write_head_loop, audio_buf_write_head,
}
use rtos_apps.Audio.Buffer.Index.{
  IsValid, IsValid-InRange, mask-add, mask-sub, avail_lem, avail-add-free,
}
use rtos_apps.Audio.Buffer.Window.{window, window-store_ne, round-ne, round_step, prev_lem}
use rtos_apps.Audio.Buffer.Fifo.{contents}

-- The buffer after its reader has gone back by `len`.
abbrev back : AudioBuffer → ℕ → AudioBuffer
back b len = record b { read = bit_and (sub32 b.read len) b.size_mask }

back-IsValid : {b : AudioBuffer} (v : IsValid b) {n : ℕ} → n ≤ b.size → IsValid (back b n)
back-IsValid {b} v {n} h = record {
  order = v.order;
  order_le = v.order_le;
  size_pow = v.size_pow;
  mask_pow = v.mask_pow;
  read_in =
      rw (mask-sub v b.read n v.read_in h)
        (mod-lt (b.read + b.size - n) (omega (arith, v.read_in)));
  write_in = v.write_in;
}

avail-back :
    {b : AudioBuffer} (v : IsValid b) {n : ℕ}
    → n ≤ audio_buf_free b
    → (audio_buf_avail (back b n) ≡ n + audio_buf_avail b)
      × (audio_buf_free (back b n) + n ≡ audio_buf_free b)
avail-back {b} v {n} h = ground (
  arith,
  avail_lem (IsValid-InRange v),
  avail-add-free (IsValid-InRange v),
  avail_lem (IsValid-InRange (back-IsValid v fits)),
  avail-add-free (IsValid-InRange (back-IsValid v fits)),
  mask-sub v b.read n v.read_in fits,
  prev_lem v.read_in fits,
)
  where
    fits : n ≤ b.size
    fits = omega (arith, avail-add-free (IsValid-InRange v))

module _ {ℓ} {A : Type ℓ} {b : AudioBuffer} (v : IsValid b) where
  loop-cons :
      (r : ℕ) (m : Memory A) (x : A) (xs : List A)
      → write_head_loop b r m (x ∷ xs)
        ≡ write_head_loop b ((r + 1) % b.size) (store m (b.base + r) x) xs
  unfolding write_head_loop
  loop-cons r m x xs = rw (mask-add v r 1)

  loop-nil : (r : ℕ) (m : Memory A) → write_head_loop b r m [] ≡ m
  unfolding write_head_loop
  loop-nil r m = refl

  -- The loop writes the indices from `r` on, as many as there are samples, and no other.
  loop_other :
      (r i : ℕ) (m : Memory A) (xs : List A)
      → r < b.size
      → ((k : ℕ) → k < length xs → (r + k) % b.size ≢ i)
      → write_head_loop b r m xs (b.base + i) ≡ m (b.base + i)
  unfolding write_head_loop
  loop_other r i m [] hr ne = refl
  loop_other r i m (x ∷ xs) hr ne = rw (mask-add v r 1) (
      loop_other ((r + 1) % b.size) i (store m (b.base + r) x) xs (mod-lt (r + 1) (omega arith))
        (λ k lt. rw round_step (ne (suc k) (omega arith)))
      ∙ store_ne m x λ (e : b.base + i ≡ b.base + r).
        ne 0 (omega arith) (rw (add-zero, mod-eq_of_lt hr) (omega arith)))

  -- The samples, then `c` samples that were behind the place where they went.
  loop_window :
      (r c : ℕ) (m : Memory A) (xs : List A)
      → r < b.size
      → length xs + c ≤ b.size
      → window b.base b.size (write_head_loop b r m xs) r (length xs + c)
        ≡ xs ++ window b.base b.size m ((r + length xs) % b.size) c
  loop_window r c m [] hr fits =
      let e : 0 + c ≡ c = omega arith in rw (e, loop-nil, add-zero, mod-eq_of_lt hr)
  loop_window r c m (x ∷ xs) hr fits =
      let e : suc (length xs) + c ≡ suc (length xs + c) = omega arith in
      ap (λ k. window b.base b.size k r (suc (length xs) + c)) (loop-cons r m x xs)
      ∙ ap
          (window b.base b.size (write_head_loop b ((r + 1) % b.size) (store m (b.base + r) x) xs)
            r)
          e
      ∙ ap₂ ◌∷◌
          (loop_other ((r + 1) % b.size) r (store m (b.base + r) x) xs next
              (λ k lt. rw round_step (round-ne hr (omega arith) (omega arith)))
            ∙ store_self m (b.base + r) x)
          (loop_window ((r + 1) % b.size) c (store m (b.base + r) x) xs next (omega arith)
            ∙ rw round_step (
                ap (λ l. xs ++ l)
                  (window-store_ne b.base b.size m r x ((r + suc (length xs)) % b.size) c
                    (mod-lt (r + suc (length xs)) (omega arith))
                    (λ k lt. rw mod-add-mod (past k lt)))))
    where
      next : (r + 1) % b.size < b.size
      next = mod-lt (r + 1) (omega arith)

      past : (k : ℕ) → k < c → (r + suc (length xs) + k) % b.size ≢ r
      past k lt =
          let e : r + suc (length xs) + k ≡ r + suc (length xs + k) = omega arith in
          rw e (round-ne hr (omega arith) (omega arith))

  -- The reader goes back by as many samples, which are then the first of the buffer: those that were
  -- there follow. The invariant holds, and the free space falls by the number of samples.
  pub audio_buf_write_head_lem :
      (m : Memory A) (xs : List A)
      → length xs ≤ audio_buf_free b
      → let (b', m') = audio_buf_write_head b m xs (length xs) in
        (contents b' m' ≡ xs ++ contents b m)
        × (audio_buf_free b' + length xs ≡ audio_buf_free b)
        × IsValid b'
  unfolding audio_buf_write_head
  audio_buf_write_head_lem m xs h = (
    rw (moved.0, mask-sub v b.read (length xs) v.read_in fits) front,
    moved.1,
    back-IsValid v fits,
  )
    where
      fits : length xs ≤ b.size
      fits = omega (arith, avail-add-free (IsValid-InRange v))

      moved :
          (audio_buf_avail (back b (length xs)) ≡ length xs + audio_buf_avail b)
          × (audio_buf_free (back b (length xs)) + length xs ≡ audio_buf_free b)
      moved = avail-back v h

      gather : (b.read + b.size - length xs + length xs) % b.size ≡ b.read
      gather =
          let e : b.read + b.size - length xs + length xs ≡ b.read + b.size = omega (arith, fits) in
          rw (e, add-mod_right, mod-eq_of_lt v.read_in)

      again : ((b.read + b.size - length xs) % b.size + length xs) % b.size ≡ b.read
      again = mod-add-mod (b.read + b.size - length xs) b.size (length xs) ∙ gather

      front :
          window b.base b.size
            (write_head_loop b ((b.read + b.size - length xs) % b.size) m xs)
            ((b.read + b.size - length xs) % b.size)
            (length xs + audio_buf_avail b)
          ≡ xs ++ contents b m
      front =
          loop_window ((b.read + b.size - length xs) % b.size) (audio_buf_avail b) m xs
            (mod-lt _ (omega (arith, v.read_in)))
            (omega (arith, avail-add-free (IsValid-InRange v)))
          ∙ ap (λ k. xs ++ window b.base b.size m k (audio_buf_avail b)) again

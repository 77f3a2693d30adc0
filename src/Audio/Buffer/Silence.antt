-- ===== src/Audio/Buffer/Silence.antt =====
-- Linear writes at the writer's place: the unrolled copies, runs of silence and copies between buffers.
use rtos_apps.Base.{
  ℕ, zero, suc, ◌+◌, ◌%◌, ◌^◌, ◌≤◌, ◌<◌, ◌≡◌, ◌⊎◌, ◌∙◌, sym, refl, ap, ap₂, arith, List, [], ◌∷◌,
  length, replicate, Memory, store, store_ne, store_eq, ℕ_discrete, add32, ==_ne,
}
use rtos_apps.Audio.Buffer.{
  AudioBuffer, audio_memcpy, copy_loop, silence_loop, audio_buf_write_silence,
  audio_buf_write_update, audio_buf_write, audio_buf_copy,
}
use rtos_apps.Audio.Buffer.Index.{IsValid, mask-add, size_le}
use native.Mathlib.Nat.{mod-eq_of_lt, mod-add-mod, add-zero, zero-add, add_assoc}

-- The buffer after its writer has gone on by `i`.
abbrev ahead : AudioBuffer → ℕ → AudioBuffer
ahead b i = record b { write = (b.write + i) % b.size }

ahead-zero : {b : AudioBuffer} → IsValid b → ahead b 0 ≡ b
ahead-zero {b} v =
    let e : (b.write + 0) % b.size ≡ b.write = rw add-zero (mod-eq_of_lt v.write_in) in
    ap (λ w. record b { write = w }) e

module _ {ℓ} {A : Type ℓ} where
  -- The unrolled copies of 1, 2, 4 and 8 samples do what the loop does, also where the two stretches overlap.
  pub memcpy-eq-loop :
      (dst src len : ℕ) (m : Memory A) → audio_memcpy dst src len m ≡ copy_loop len 0 dst src m
  unfolding audio_memcpy
  memcpy-eq-loop dst src zero m = refl
  memcpy-eq-loop dst src (suc zero) m = refl
  memcpy-eq-loop dst src (suc (suc zero)) m = refl
  memcpy-eq-loop dst src (suc (suc (suc zero))) m = refl
  memcpy-eq-loop dst src (suc (suc (suc (suc zero)))) m = refl
  memcpy-eq-loop dst src (suc (suc (suc (suc (suc zero))))) m = refl
  memcpy-eq-loop dst src (suc (suc (suc (suc (suc (suc zero)))))) m = refl
  memcpy-eq-loop dst src (suc (suc (suc (suc (suc (suc (suc zero))))))) m = refl
  memcpy-eq-loop dst src (suc (suc (suc (suc (suc (suc (suc (suc zero)))))))) m = refl
  memcpy-eq-loop dst src (suc (suc (suc (suc (suc (suc (suc (suc (suc n))))))))) m =
      let len = suc (suc (suc (suc (suc (suc (suc (suc (suc n)))))))) in
      rw (
        ==_ne len 1 (omega arith),
        ==_ne len 2 (omega arith),
        ==_ne len 4 (omega arith),
        ==_ne len 8 (omega arith),
      )

  -- `n` samples from the address `a` on.
  abbrev pub span : Memory A → ℕ → ℕ → List A
  span m a zero = []
  span m a (suc n) = m a ∷ span m (a + 1) n

  length-span : (m : Memory A) (a n : ℕ) → length (span m a n) ≡ n
  length-span m a zero = refl
  length-span m a (suc n) = ap suc (length-span m (a + 1) n)

  span-store_ne :
      (m : Memory A) (p : ℕ) (x : A) (a n : ℕ)
      → (p < a) ⊎ (a + n ≤ p)
      → span (store m p x) a n ≡ span m a n
  span-store_ne m p x a zero h = refl
  span-store_ne m p x a (suc n) h =
      ap₂ ◌∷◌ (store_ne m x (omega arith)) (span-store_ne m p x (a + 1) n (omega arith))

  write_step :
      {b : AudioBuffer} (v : IsValid b) (i : ℕ) (m : Memory A) (x : A) (xs : List A)
      → b.write + i < b.size
      → audio_buf_write (ahead b i) m (x ∷ xs)
        ≡ audio_buf_write (ahead b (i + 1)) (store m (b.base + (b.write + i)) x) xs
  unfolding audio_buf_write
  write_step {b} v i m x xs h =
      rw (mask-add v ((b.write + i) % b.size) 1, mod-add-mod, mod-eq_of_lt h, add_assoc b.write i 1)

  write_nothing : (b : AudioBuffer) (m : Memory A) → audio_buf_write b m [] ≡ (b, m)
  unfolding audio_buf_write
  write_nothing b m = refl

  -- The rounds of the silence loop from the `i`-th on are writes from that place on.
  silence_rounds :
      (s : A) {b : AudioBuffer} (v : IsValid b) (n i : ℕ) (m : Memory A)
      → b.write + i + n ≤ b.size
      → audio_buf_write (ahead b i) m (replicate n s) ≡ (ahead b (i + n), silence_loop s b n i m)
  unfolding silence_loop
  silence_rounds s {b} v zero i m h = rw (write_nothing, add-zero)
  silence_rounds s {b} v (suc n) i m h =
      write_step v i m s (replicate n s) (omega arith)
      ∙ silence_rounds s v n (i + 1) (store m (b.base + (b.write + i)) s) (omega arith)
      ∙ ap₂ (λ k a. (ahead b k, silence_loop s b n (i + 1) (store m (b.base + a) s))) (omega arith)
          (sym (mod-eq_of_lt (omega (arith, size_le v))))

  -- The rounds of the copy loop from the `i`-th on are writes of the source, which they do not touch.
  copy_rounds :
      {b : AudioBuffer} (v : IsValid b) (n i src : ℕ) (m : Memory A)
      → b.write + i + n ≤ b.size
      → (src + i + n ≤ b.base) ⊎ (b.base + b.size ≤ src + i)
      → audio_buf_write (ahead b i) m (span m (src + i) n)
        ≡ (ahead b (i + n), copy_loop n i (b.base + b.write) src m)
  unfolding copy_loop
  copy_rounds {b} v zero i src m h out = rw (write_nothing, add-zero)
  copy_rounds {b} v (suc n) i src m h out =
      write_step v i m (m (src + i)) (span m (src + i + 1) n) (omega arith)
      ∙ ap (audio_buf_write (ahead b (i + 1)) (store m (b.base + (b.write + i)) (m (src + i)))) (
          sym (span-store_ne m (b.base + (b.write + i)) (m (src + i)) (src + i + 1) n (omega arith))
          ∙ ap (λ a. span (store m (b.base + (b.write + i)) (m (src + i))) a n) (add_assoc src i 1))
      ∙ copy_rounds v n (i + 1) src (store m (b.base + (b.write + i)) (m (src + i))) (omega arith)
          (omega arith)
      ∙ ap₂
          (λ k a. (ahead b k, copy_loop n (i + 1) (b.base + b.write) src (store m a (m (src + i)))))
          (omega arith) (omega arith)

  -- A run of silence in front of the storage's end is the writing of silent samples.
  pub write_silence-eq-write :
      (s : A) {b : AudioBuffer} (len : ℕ) (m : Memory A)
      → IsValid b
      → b.write + len ≤ b.size
      → audio_buf_write_silence s b len m ≡ audio_buf_write b m (replicate len s)
  unfolding audio_buf_write_silence audio_buf_write_update
  write_silence-eq-write s {b} len m v h =
      ap (λ w. (record b { write = w }, silence_loop s b len 0 m)) (mask-add v b.write len)
      ∙ sym (
          silence_rounds s v len 0 m (omega arith)
          ∙ ap (λ k. (ahead b k, silence_loop s b len 0 m)) (zero-add len))
      ∙ ap (λ c. audio_buf_write c m (replicate len s)) (ahead-zero v)

  -- A copy in front of the storage's end from outside of it, followed by the update of the writer, is
  -- the writing of the source's samples.
  pub copy-eq-write :
      {b : AudioBuffer} (src : AudioBuffer) (len : ℕ) (m : Memory A)
      → IsValid b
      → b.write + len ≤ b.size
      → (src.base + src.read + len ≤ b.base) ⊎ (b.base + b.size ≤ src.base + src.read)
      → (audio_buf_write_update b len, audio_buf_copy b src len m)
        ≡ audio_buf_write b m (span m (src.base + src.read) len)
  unfolding audio_buf_write_update audio_buf_copy
  copy-eq-write {b} src len m v h out =
      ap₂ (λ w a. (record b { write = w }, a)) (mask-add v b.write len)
        (memcpy-eq-loop (b.base + b.write) (src.base + src.read) len m)
      ∙ sym (
          copy_rounds v len 0 (src.base + src.read) m (omega arith) (omega arith)
          ∙ ap (λ k. (ahead b k, copy_loop len 0 (b.base + b.write) (src.base + src.read) m))
              (zero-add len))
      ∙ ap₂ (λ c a. audio_buf_write c m (span m a len)) (ahead-zero v)
          (add-zero (src.base + src.read))

  -- Every address that a run of silence covers holds the silent sample.
  pub silence_rounds_lem :
      (s : A) (b : AudioBuffer) (n i k : ℕ) (m : Memory A)
      → b.write + i + n ≤ 2 ^ 32
      → k < i + n
      → ((j : ℕ) → j < i → m (b.base + (b.write + j)) ≡ s)
      → silence_loop s b n i m (b.base + (b.write + k)) ≡ s
  unfolding silence_loop
  silence_rounds_lem s b zero i k m h lt done = done k (omega arith)
  silence_rounds_lem s b (suc n) i k m h lt done =
      silence_rounds_lem s b n (i + 1) k (store m p s) (omega arith) (omega arith) λ j lj.
        elim (ℕ_discrete j i) [
          | yes e ↦ store_eq m s (omega (arith, e, flat))
          | no ne ↦ store_ne m s (omega (arith, flat)) ∙ done j (omega arith)
        ]
    where
      p : ℕ
      p = b.base + add32 b.write i

      flat : (b.write + i) % 2 ^ 32 ≡ b.write + i
      flat = mod-eq_of_lt (omega arith)

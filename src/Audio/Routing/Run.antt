-- ===== src/Audio/Routing/Run.antt =====
-- What a run of audio/audio_element_routing.c copies.
use rtos_apps.Base.{
  ℕ, zero, suc, ◌+◌, ◌≡◌, ◌≢◌, ◌⊎◌, ◌<◌, ◌≤◌, ◌∙◌, refl, ap, subst, ap₂, arith, some, List, [], ◌∷◌,
  get_elem?, ==_ne, All, Memory, store, store_ne, store_eq,
}
use mathlib.Core.Option.{some-injective}
use rtos_apps.Audio.Buffer.{
  AudioBuffer, audio_buf_copy, audio_buf_write_update, audio_memcpy, copy_loop,
}
use rtos_apps.Audio.Buffer.Silence.{memcpy-eq-loop}
use rtos_apps.Audio.Routing.{
  RoutingElement, RoutingOutput, Buffers, put, at, copy_outputs, routing_element_run,
}

-- Two stretches of `n` samples do not meet.
abbrev pub Apart : ℕ → ℕ → ℕ → Type 0
Apart n a b = (a + n ≤ b) ⊎ (b + n ≤ a)

-- The copies of a run, as pairs of a destination and a source.
abbrev pub jobs : Buffers → List ℕ → List RoutingOutput → List (ℕ × ℕ)
jobs bufs ins [] = []
jobs bufs ins (o ∷ os) =
    (
      (bufs o.buf).base + (bufs o.buf).write,
      (bufs (at ins o.input)).base + (bufs (at ins o.input)).read,
    )
    ∷ jobs bufs ins os

-- No two copies write the same place, and none writes what it or a later one reads.
abbrev pub AreApart : ℕ → List (ℕ × ℕ) → Type 0
AreApart n [] = Unit
AreApart n ((d, s) ∷ js) =
    Apart n d s × All (λ (j : ℕ × ℕ). Apart n d j.0 × Apart n d j.1) js × AreApart n js

-- Each output has a buffer of its own, which no later output reads.
abbrev pub HaveOwn : List ℕ → List RoutingOutput → Type 0
HaveOwn ins [] = Unit
HaveOwn ins (o ∷ os) = All (λ o'. (o'.buf ≢ o.buf) × (at ins o'.input ≢ o.buf)) os × HaveOwn ins os

jobs-put :
    (bufs : Buffers) (ins : List ℕ) (p : ℕ) (b : AudioBuffer) (os : List RoutingOutput)
    → All (λ o'. (o'.buf ≢ p) × (at ins o'.input ≢ p)) os
    → jobs (put bufs p b) ins os ≡ jobs bufs ins os
jobs-put bufs ins p b [] a = refl
jobs-put bufs ins p b (o ∷ os) ((ne, ne'), a) =
    rw (==_ne o.buf p ne, ==_ne (at ins o.input) p ne')
      (ap
        (◌∷◌ (
          (bufs o.buf).base + (bufs o.buf).write,
          (bufs (at ins o.input)).base + (bufs (at ins o.input)).read,
        ))
        (jobs-put bufs ins p b os a))

All-get :
    (P : ℕ × ℕ → Type 0) (js : List (ℕ × ℕ)) (i : ℕ) {j : ℕ × ℕ}
    → All P js
    → get_elem? js i ≡ some j
    → P j
All-get P [] i a e = cc
All-get P (x ∷ xs) zero a e = subst P (some-injective _ _ e) a.0
All-get P (x ∷ xs) (suc i) a e = All-get P xs i a.1 e

module _ {ℓ} {A : Type ℓ} where
  abbrev copy_jobs : ℕ → List (ℕ × ℕ) → Memory A → Memory A
  copy_jobs n [] m = m
  copy_jobs n ((d, s) ∷ js) m = copy_jobs n js (copy_loop n 0 d s m)

  loop_else :
      (n i d s a : ℕ) (m : Memory A) → (a < d + i) ⊎ (d + i + n ≤ a) → copy_loop n i d s m a ≡ m a
  unfolding copy_loop
  loop_else zero i d s a m h = refl
  loop_else (suc n) i d s a m h =
      loop_else n (i + 1) d s a (store m (d + i) (m (s + i))) (omega arith)
      ∙ store_ne m (m (s + i)) (omega arith)

  loop_at :
      (n i k d s : ℕ) (m : Memory A)
      → k < n
      → Apart (i + n) d s
      → copy_loop n i d s m (d + (i + k)) ≡ m (s + (i + k))
  unfolding copy_loop
  loop_at zero i k d s m h a = absurd (omega arith)
  loop_at (suc n) i zero d s m h a =
      let m' = store m (d + i) (m (s + i)) in
      loop_else n (i + 1) d s (d + (i + 0)) m' (omega arith)
      ∙ store_eq m (m (s + i)) (omega arith)
      ∙ ap m (omega arith)
  loop_at (suc n) i (suc k) d s m h a =
      let m' = store m (d + i) (m (s + i)) in
      ap (copy_loop n (i + 1) d s m') (omega arith)
      ∙ loop_at n (i + 1) k d s m' (omega arith) (omega arith)
      ∙ store_ne m (m (s + i)) (omega arith)
      ∙ ap m (omega arith)

  outputs_jobs :
      (n : ℕ) (ins : List ℕ) (os : List RoutingOutput) (bufs : Buffers) (m : Memory A)
      → HaveOwn ins os
      → (copy_outputs n ins os (bufs, m)).1 ≡ copy_jobs n (jobs bufs ins os) m
  unfolding copy_outputs audio_buf_copy
  outputs_jobs n ins [] bufs m own = refl
  outputs_jobs n ins (o ∷ os) bufs m (a, own) =
      let d = (bufs o.buf).base + (bufs o.buf).write in
      let s = (bufs (at ins o.input)).base + (bufs (at ins o.input)).read in
      outputs_jobs n ins os (put bufs o.buf (audio_buf_write_update (bufs o.buf) n))
        (audio_memcpy d s n m) own
      ∙ ap₂ (copy_jobs n) (jobs-put bufs ins o.buf (audio_buf_write_update (bufs o.buf) n) os a)
          (memcpy-eq-loop d s n m)

  jobs_else :
      (n : ℕ) (js : List (ℕ × ℕ)) (d k : ℕ) (m : Memory A)
      → k < n
      → All (λ (j : ℕ × ℕ). Apart n d j.0 × Apart n d j.1) js
      → copy_jobs n js m (d + k) ≡ m (d + k)
  jobs_else n [] d k m lt a = refl
  jobs_else n ((d', s') ∷ js) d k m lt ((apart, _), a) =
      jobs_else n js d k (copy_loop n 0 d' s' m) lt a
      ∙ loop_else n 0 d' s' (d + k) m (omega (arith, apart))

  jobs_at :
      (n : ℕ) (js : List (ℕ × ℕ)) (i d s k : ℕ) (m : Memory A)
      → AreApart n js
      → get_elem? js i ≡ some (d, s)
      → k < n
      → copy_jobs n js m (d + k) ≡ m (s + k)
  jobs_at n [] i d s k m a e lt = cc
  jobs_at n ((d', s') ∷ js) zero d s k m (own, apart, a) e lt =
      let here = jobs_else n js d' k (copy_loop n 0 d' s' m) lt apart in
      let copied =
        ap (copy_loop n 0 d' s' m) (omega arith)
        ∙ loop_at n 0 k d' s' m lt (omega (arith, own))
        ∙ ap m (omega arith) in
      subst (λ (j : ℕ × ℕ). copy_jobs n ((d', s') ∷ js) m (j.0 + k) ≡ m (j.1 + k))
        (some-injective (d', s') (d, s) e) (here ∙ copied)
  jobs_at n ((d', s') ∷ js) (suc i) d s k m (own, apart, a) e lt =
      jobs_at n js i d s k (copy_loop n 0 d' s' m) a e lt
      ∙ loop_else n 0 d' s' (s + k) m (omega (arith, (All-get _ js i apart e).1))

  -- After a run over outputs with buffers of their own, whose copies are apart, each output has the samples that
  -- its input had before the run, whatever input the other outputs read.
  pub run_copies :
      (n : ℕ) (r : RoutingElement) (bufs : Buffers) (m : Memory A) (i d s k : ℕ)
      → HaveOwn r.ins r.out
      → AreApart n (jobs bufs r.ins r.out)
      → get_elem? (jobs bufs r.ins r.out) i ≡ some (d, s)
      → k < n
      → (routing_element_run n r (bufs, m)).1 (d + k) ≡ m (s + k)
  unfolding routing_element_run
  run_copies n r bufs m i d s k own apart e lt =
      ap (λ (f : Memory A). f (d + k)) (outputs_jobs n r.ins r.out bufs m own)
      ∙ jobs_at n (jobs bufs r.ins r.out) i d s k m apart e lt

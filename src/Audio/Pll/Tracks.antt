-- ===== src/Audio/Pll/Tracks.antt =====
-- audio/audio_element_pll.c: the counts of the two clocks, which the hardware shows modulo 32 bits.
use rtos_apps.Base.{
  ℕ, ◌+◌, ◌-◌, ◌%◌, ◌^◌, ◌<◌, ◌≤◌, ◌≡◌, ◌≢◌, refl, arith, Bool, true, false, Option, some, none,
  sub32, ltb, if_cases, elim_cases,
}
use rtos_apps.Base.Int.{ℤ, sub_ℕ, ◌*ℤ◌}
use rtos_apps.Audio.Pll.{
  Pll, PllState, unlocked, locking, locked, track, bclk_err, sample, run_state, correct,
  initial_ppb, add64, sub64, signed64, word64, quot_ℤ, int64, giga, is_zero_ℤ, end_sample, finish,
  note_err,
}

-- The state after a sample at the counts `s` and `d` of the two clocks, which started to lock at `s₀` and `d₀`.
pub record Tracks (s₀ d₀ s d : ℕ) (p : Pll) : Type 0 where
  pub x : ℕ
  pub y : ℕ
  pub src_reg : p.src_bcr ≡ s % 2 ^ 32
  pub dst_reg : p.dst_bcr ≡ d % 2 ^ 32
  pub src_word : p.src_bclk ≡ (x + (s - s₀)) % 2 ^ 64
  pub dst_word : p.dst_bclk ≡ (y + (d - d₀)) % 2 ^ 64
  pub offset : word64 p.bclk_offset ≡ sub64 x y
  pub started : p.state ≢ unlocked

word64-signed64 : (w : ℕ) → w < 2 ^ 64 → word64 (signed64 w) ≡ w
word64-signed64 w h = ground arith

advance :
    (x s₀ s s' : ℕ)
    → s₀ ≤ s
    → s ≤ s'
    → s' < s + 2 ^ 32
    → add64 ((x + (s - s₀)) % 2 ^ 64) (sub32 (s' % 2 ^ 32) (s % 2 ^ 32)) ≡ (x + (s' - s₀)) % 2 ^ 64
advance x s₀ s s' h k l = omega arith

drift_word :
    (x y n m : ℕ)
    → n < 2 ^ 62
    → m < 2 ^ 62
    → sub64 (sub64 ((x + n) % 2 ^ 64) ((y + m) % 2 ^ 64)) (sub64 x y) ≡ (n + 2 ^ 64 - m) % 2 ^ 64
drift_word x y n m hn hm = omega arith

drift_signed :
    (n m : ℕ) → n < 2 ^ 62 → m < 2 ^ 62 → signed64 ((n + 2 ^ 64 - m) % 2 ^ 64) ≡ sub_ℕ n m
drift_signed n m hn hm = ground arith

-- A sample after the counts went on by less than 2^32 bits each has the error that is the drift since the lock,
-- in bits.
pub bclk_err_lem :
    {p : Pll} (s₀ d₀ s d s' d' : ℕ)
    → Tracks s₀ d₀ s d p
    → s₀ ≤ s
    → s ≤ s'
    → s' < s + 2 ^ 32
    → s' - s₀ < 2 ^ 62
    → d₀ ≤ d
    → d ≤ d'
    → d' < d + 2 ^ 32
    → d' - d₀ < 2 ^ 62
    → bclk_err (track p (s' % 2 ^ 32) (d' % 2 ^ 32)) ≡ sub_ℕ (s' - s₀) (d' - d₀)
unfolding bclk_err track
bclk_err_lem s₀ d₀ s d s' d' t a b c e a' b' c' e' =
    rw
      (
        t.offset,
        t.src_reg,
        t.dst_reg,
        t.src_word,
        t.dst_word,
        advance t.x s₀ s s' a b c,
        advance t.y d₀ d d' a' b' c',
        drift_word t.x t.y (s' - s₀) (d' - d₀) e e',
      )
      (drift_signed _ _ e e')

-- What holds of the state, if there is no division by 0.
abbrev pub Result : (Pll → Type 0) → Option (Pll × Option ℤ) → Type 0
Result P none = Unit
Result P (some r) = P r.0

run_state-started :
    (p : Pll) (e dt : ℤ) (st : PllState)
    → p.state ≡ st
    → st ≢ unlocked
    → Result
        (λ q.
          (q.src_bclk ≡ p.src_bclk)
          × (q.dst_bclk ≡ p.dst_bclk)
          × (q.bclk_offset ≡ p.bclk_offset)
          × (q.state ≢ unlocked))
        (run_state st p e dt)
unfolding run_state correct
run_state-started p e dt unlocked h ne = absurd (ne refl)
run_state-started p e dt locking h ne =
    if_cases (Result _) (ltb p.sample_count 10) (λ b. (refl, refl, refl, rw h ne))
      (λ b. elim_cases (Result _) (initial_ppb p) tt (λ v. (refl, refl, refl, λ u. cc)))
run_state-started p e dt locked h ne =
    elim_cases (Result _) (quot_ℤ (int64 (e *ℤ giga)) dt) tt (λ v. (refl, refl, refl, rw h ne))

Result-finish :
    (P Q : Pll → Type 0) (o : Option (Pll × Option ℤ)) (src dst : ℕ)
    → ((q : Pll) → P q → Q (end_sample q src dst))
    → Result P o
    → Result Q (finish src dst o)
unfolding finish
Result-finish P Q none src dst f h = tt
Result-finish P Q (some r) src dst f h = f r.0 h

-- A state that has the new counts, and has not been through its case of the state machine.
record Counted (s₀ d₀ s d : ℕ) (p : Pll) : Type 0 where
  x : ℕ
  y : ℕ
  src_word : p.src_bclk ≡ (x + (s - s₀)) % 2 ^ 64
  dst_word : p.dst_bclk ≡ (y + (d - d₀)) % 2 ^ 64
  offset : word64 p.bclk_offset ≡ sub64 x y
  started : p.state ≢ unlocked

finish-Tracks :
    (s₀ d₀ s d : ℕ) (p : Pll) (e dt : ℤ)
    → Counted s₀ d₀ s d p
    → Result (Tracks s₀ d₀ s d) (finish (s % 2 ^ 32) (d % 2 ^ 32) (run_state p.state p e dt))
finish-Tracks s₀ d₀ s d p e dt c =
    Result-finish _ (Tracks s₀ d₀ s d) (run_state p.state p e dt) _ _
      (λ q k. record {
        x = c.x;
        y = c.y;
        src_reg = refl;
        dst_reg = refl;
        src_word = rw k.0 c.src_word;
        dst_word = rw k.1 c.dst_word;
        offset = rw k.2 c.offset;
        started = k.3;
      })
      (run_state-started p e dt p.state refl c.started)

run_state-Tracks :
    (s₀ d₀ s d : ℕ) (z : Bool) (p : Pll) (e dt : ℤ)
    → Counted s₀ d₀ s d p
    → let q = note_err z p in
      Result (Tracks s₀ d₀ s d) (finish (s % 2 ^ 32) (d % 2 ^ 32) (run_state q.state q e dt))
unfolding note_err
run_state-Tracks s₀ d₀ s d true p e dt c = finish-Tracks s₀ d₀ s d p e dt c
run_state-Tracks s₀ d₀ s d false p e dt c =
    finish-Tracks s₀ d₀ s d (record p { prev_src_bclk = p.src_bclk }) e dt
      (record {
        x = c.x;
        y = c.y;
        src_word = c.src_word;
        dst_word = c.dst_word;
        offset = c.offset;
        started = c.started;
      })

-- How the counts of a clock go on between two samples.
pub record Advances (s₀ s s' : ℕ) : Type 0 where
  pub lock_le : s₀ ≤ s
  pub grows : s ≤ s'
  pub small : s' < s + 2 ^ 32

track-Counted :
    {p : Pll} (s₀ d₀ s d s' d' : ℕ)
    → Tracks s₀ d₀ s d p
    → Advances s₀ s s'
    → Advances d₀ d d'
    → Counted s₀ d₀ s' d' (track p (s' % 2 ^ 32) (d' % 2 ^ 32))
unfolding track
track-Counted s₀ d₀ s d s' d' t a b = record {
  x = t.x;
  y = t.y;
  src_word = rw (t.src_reg, t.src_word) (advance t.x s₀ s s' a.lock_le a.grows a.small);
  dst_word = rw (t.dst_reg, t.dst_word) (advance t.y d₀ d d' b.lock_le b.grows b.small);
  offset = t.offset;
  started = t.started;
}

lock_state :
    (z : Bool) (p : Pll) (e dt : ℤ) (s d : ℕ)
    → p.state ≡ unlocked
    → p.src_bclk < 2 ^ 64
    → p.dst_bclk < 2 ^ 64
    → let q = note_err z p in
      Result (Tracks s d s d) (finish (s % 2 ^ 32) (d % 2 ^ 32) (run_state q.state q e dt))
unfolding note_err finish run_state
lock_state true p e dt s d h k l = rw h (record {
  x = p.src_bclk;
  y = p.dst_bclk;
  src_reg = refl;
  dst_reg = refl;
  src_word = omega arith;
  dst_word = omega arith;
  offset = word64-signed64 _ (omega arith);
  started = λ u. cc;
})
lock_state false p e dt s d h k l = rw h (record {
  x = p.src_bclk;
  y = p.dst_bclk;
  src_reg = refl;
  dst_reg = refl;
  src_word = omega arith;
  dst_word = omega arith;
  offset = word64-signed64 _ (omega arith);
  started = λ u. cc;
})

-- A sample keeps the relation to the clocks' counts.
pub sample-Tracks :
    {p : Pll} (s₀ d₀ s d s' d' : ℕ)
    → Tracks s₀ d₀ s d p
    → Advances s₀ s s'
    → Advances d₀ d d'
    → Result (Tracks s₀ d₀ s' d') (sample p (s' % 2 ^ 32) (d' % 2 ^ 32))
unfolding sample
sample-Tracks s₀ d₀ s d s' d' t a b =
    run_state-Tracks s₀ d₀ s' d' _ _ _ _ (track-Counted s₀ d₀ s d s' d' t a b)

-- The sample that starts to lock.
pub lock-Tracks :
    (p : Pll) (s d : ℕ)
    → p.state ≡ unlocked
    → Result (Tracks s d s d) (sample p (s % 2 ^ 32) (d % 2 ^ 32))
unfolding sample track
lock-Tracks p s d h =
    let u = track p (s % 2 ^ 32) (d % 2 ^ 32) in
    lock_state (is_zero_ℤ (bclk_err u)) u _ _ s d h (omega arith) (omega arith)

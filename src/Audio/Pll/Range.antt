-- ===== src/Audio/Pll/Range.antt =====
-- audio/audio_element_pll.c: the rates that are handed to the PLL.
use rtos_apps.Base.{
  ℕ, ◌≡◌, ◌≢◌, refl, ◌∙◌, arith, Bool, true, false, Option, some, none, add32, ltb, if◌then◌else◌,
  if_cases, elim_cases,
}
use rtos_apps.Base.Int.{ℤ, pos, ◌*ℤ◌, ◌-ℤ◌, ◌≤ℤ◌}
use rtos_apps.Audio.Pll.{
  Pll, PllState, unlocked, locking, locked, track, bclk_err, sample, run_state, correct,
  initial_ppb, pll_element_run, sub64, signed64, quot_ℤ, int64, giga, is_zero_ℤ, finish, note_err,
  clamp_ppb, first_ppb, first_integral, next_ppb, next_integral, pll_max_ppb, pll_min_ppb,
}

-- A rate within the limits.
abbrev pub InRange : ℤ → Type 0
InRange a = (pll_min_ppb ≤ℤ a) × (a ≤ℤ pll_max_ppb)

-- What a run did to the rate: it handed on none and kept the old one, or it handed on one that is within the limits, new,
-- and kept.
abbrev pub Adjusts : ℤ → Option (Pll × Option ℤ) → Type 0
Adjusts old none = Unit
Adjusts old (some (q, none)) = q.prev_bclk_ppb ≡ old
Adjusts old (some (q, some ppb)) = InRange ppb × (q.prev_bclk_ppb ≡ ppb) × (ppb ≢ old)

clamp-InRange : (a : ℤ) → InRange (clamp_ppb a)
unfolding clamp_ppb
clamp-InRange a = ground arith

zero_diff : (a b : ℤ) → is_zero_ℤ (a -ℤ b) ≡ true → a ≡ b
unfolding ◌-ℤ◌
zero_diff a b h = ground arith

nonzero_diff : (a b : ℤ) → is_zero_ℤ (a -ℤ b) ≡ false → a ≢ b
unfolding ◌-ℤ◌
nonzero_diff a b h e = ground arith

adjust_cases :
    (z : Bool) (q : Pll) (old ppb : ℤ)
    → q.prev_bclk_ppb ≡ ppb
    → (z ≡ true → ppb ≡ old)
    → (z ≡ false → ppb ≢ old)
    → InRange ppb
    → Adjusts old (some (q, if z then none else some ppb))
adjust_cases true q old ppb e same new r = e ∙ same refl
adjust_cases false q old ppb e same new r = (r, e, new refl)

correct-Adjusts : (p : Pll) (b e ppb : ℤ) → Adjusts p.prev_bclk_ppb (some (correct p b e ppb))
unfolding correct
correct-Adjusts p b e ppb =
    adjust_cases (is_zero_ℤ (clamp_ppb ppb -ℤ p.prev_bclk_ppb)) (correct p b e ppb).0
      p.prev_bclk_ppb (clamp_ppb ppb) refl (zero_diff _ _) (nonzero_diff _ _) (clamp-InRange ppb)

run_state-Adjusts :
    (st : PllState) (p : Pll) (e dt : ℤ) → Adjusts p.prev_bclk_ppb (run_state st p e dt)
unfolding run_state
run_state-Adjusts unlocked p e dt = refl
run_state-Adjusts locking p e dt =
    if_cases (Adjusts p.prev_bclk_ppb) (ltb p.sample_count 10) (λ b. refl)
      (λ b. elim_cases (Adjusts p.prev_bclk_ppb) (initial_ppb p) tt (λ v.
        correct-Adjusts (record p { integral = first_integral p v; state = locked }) e (pos 0)
          (first_ppb p v)))
run_state-Adjusts locked p e dt =
    elim_cases (Adjusts p.prev_bclk_ppb) (quot_ℤ (int64 (e *ℤ giga)) dt) tt
      (λ v. correct-Adjusts (record p { integral = next_integral p v }) e v (next_ppb p v))

finish-Adjusts :
    (old : ℤ) (src dst : ℕ) (o : Option (Pll × Option ℤ))
    → Adjusts old o
    → Adjusts old (finish src dst o)
unfolding finish
finish-Adjusts old src dst none h = tt
finish-Adjusts old src dst (some (q, none)) h = h
finish-Adjusts old src dst (some (q, some v)) h = h

note_err-Adjusts :
    (z : Bool) (p : Pll) (src dst : ℕ) (e dt : ℤ)
    → let q = note_err z p in Adjusts p.prev_bclk_ppb (finish src dst (run_state q.state q e dt))
unfolding note_err
note_err-Adjusts true p src dst e dt =
    finish-Adjusts _ src dst (run_state p.state p e dt) (run_state-Adjusts p.state p e dt)
note_err-Adjusts false p src dst e dt =
    let q : Pll = record p { prev_src_bclk = p.src_bclk } in
    finish-Adjusts _ src dst (run_state p.state q e dt) (run_state-Adjusts p.state q e dt)

sample-Adjusts : (p : Pll) (src dst : ℕ) → Adjusts p.prev_bclk_ppb (sample p src dst)
unfolding sample track
sample-Adjusts p src dst =
    let t = track p src dst in
    note_err-Adjusts (is_zero_ℤ (bclk_err t)) t src dst (bclk_err t)
      (signed64 (sub64 t.src_bclk t.prev_src_bclk))

-- A run hands a rate to the PLL only if it is within 200000 parts per billion of 0 and differs from the last one, and keeps it as the last one;
-- otherwise the last one stays, whatever the state, the counters and the sums of the regulator.
pub run-Adjusts : (p : Pll) (src dst : ℕ) → Adjusts p.prev_bclk_ppb (pll_element_run p src dst)
unfolding pll_element_run
run-Adjusts p src dst =
    if_cases (Adjusts p.prev_bclk_ppb) p.enabled
      (λ on.
        if_cases (Adjusts p.prev_bclk_ppb) (ltb (add32 p.count 1) p.period) (λ e. refl)
          (λ e. sample-Adjusts (record p { count = add32 p.count 1 }) src dst))
      (λ off. refl)

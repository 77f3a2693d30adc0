-- ===== src/Audio/Pll/Stalled.antt =====
-- audio/audio_element_pll.c: a source whose clock stands still.
use rtos_apps.Base.{
  ℕ, zero, suc, ◌+◌, ◌-◌, ◌^◌, ◌<◌, ◌≡◌, ◌↔◌, refl, ◌∙◌, arith, Bool, true, false, Option, some,
  none, add32, sub32, ltb, if◌then◌else◌, elim_cases, subst, sym, ap,
}
use rtos_apps.Base.Int.{ℤ, pos, negsuc, ◌*ℤ◌}
use rtos_apps.Audio.Pll.{
  Pll, PllState, locked, track, bclk_err, sample, run_state, correct, pll_element_run, add64, sub64,
  signed64, quot_ℤ, int64, giga, is_zero_ℤ, finish, note_err,
}

if_true {ℓ} : {A : Type ℓ} {b : Bool} (x y : A) → b ≡ true → (if b then x else y) ≡ x
if_true x y e = rw e refl

if_false {ℓ} : {A : Type ℓ} {b : Bool} (x y : A) → b ≡ false → (if b then x else y) ≡ y
if_false x y e = rw e refl

-- A quotient fails for a divisor of 0 only.
quot_none : (a b : ℤ) → (quot_ℤ a b ≡ none) ↔ (b ≡ pos 0)
unfolding quot_ℤ
quot_none a (pos zero) = (λ _. refl, λ _. refl)
quot_none a (pos (suc n)) = (λ e. cc, λ e. cc)
quot_none a (negsuc n) = (λ e. cc, λ e. cc)

stalled_state :
    (z : Bool) (p : Pll) (src dst : ℕ) (e dt : ℤ)
    → p.state ≡ locked
    → dt ≡ pos 0
    → let q = note_err z p in finish src dst (run_state q.state q e dt) ≡ none
unfolding note_err run_state finish quot_ℤ
stalled_state true p src dst e dt l z = rw (l, z) refl
stalled_state false p src dst e dt l z = rw (l, z) refl

-- A word from which itself is taken.
still : (w r : ℕ) → w < 2 ^ 64 → r < 2 ^ 32 → signed64 (sub64 (add64 w (sub32 r r)) w) ≡ pos 0
still w r h k = ground arith

-- `n` runs and one more with the register of the source's bits at `src`; `dst` gives the other register of each run.
unfoldable pub still_runs : ℕ → ℕ → (ℕ → ℕ) → Pll → Option (Pll × Option ℤ)
unfolding pll_element_run
still_runs zero src dst p = pll_element_run p src (dst 0)
still_runs (suc n) src dst p = elim (pll_element_run p src (dst (suc n))) [
  | none ↦ none
  | some r ↦ still_runs n src dst r.0
]

-- A locked element after a sample with an error, whose last bits of the source are those of `src`.
abbrev IsStill : ℕ → ℕ → ℕ → Pll → Type 0
IsStill src period count p =
    (p.enabled ≡ true)
    × (p.state ≡ locked)
    × (p.src_bcr ≡ src)
    × (p.prev_src_bclk ≡ p.src_bclk)
    × (p.src_bclk < 2 ^ 64)
    × (p.count ≡ count)
    × (p.period ≡ period)

stalled_sample :
    (p : Pll) (src dst : ℕ)
    → p.state ≡ locked
    → p.src_bcr ≡ src
    → p.prev_src_bclk ≡ p.src_bclk
    → p.src_bclk < 2 ^ 64
    → src < 2 ^ 32
    → sample p src dst ≡ none
unfolding sample track
stalled_sample p src dst l r e h k =
    stalled_state _ _ src dst _ _ l (rw (r, e) (still p.src_bclk src h k))

run_due :
    (p : Pll) (src dst : ℕ)
    → p.enabled ≡ true
    → ltb (add32 p.count 1) p.period ≡ false
    → pll_element_run p src dst ≡ sample (record p { count = add32 p.count 1 }) src dst
unfolding pll_element_run
run_due p src dst on due = if_true _ _ on ∙ if_false _ _ due

run_idle :
    (p : Pll) (src dst : ℕ)
    → p.enabled ≡ true
    → ltb (add32 p.count 1) p.period ≡ true
    → pll_element_run p src dst ≡ some (record p { count = add32 p.count 1 }, none)
unfolding pll_element_run
run_idle p src dst on idle = if_true _ _ on ∙ if_true _ _ idle

still_runs-none :
    (n src period : ℕ) (dst : ℕ → ℕ) (count : ℕ) (p : Pll)
    → IsStill src period count p
    → src < 2 ^ 32
    → period < 2 ^ 32
    → count + n + 1 ≡ period
    → still_runs n src dst p ≡ none
unfolding still_runs pll_element_run
still_runs-none zero src period dst count p (on, l, r, e, h, c, per) k small sum =
    let due : ltb (add32 p.count 1) p.period ≡ false = ground arith in
    run_due p src (dst 0) on due
    ∙ stalled_sample (record p { count = add32 p.count 1 }) src (dst 0) l r e h k
still_runs-none (suc n) src period dst count p (on, l, r, e, h, c, per) k small sum =
    let idle : ltb (add32 p.count 1) p.period ≡ true = ground arith in
    ap (λ o. elim o [ none ↦ none | some r ↦ still_runs n src dst r.0 ])
      (run_idle p src (dst (suc n)) on idle)
    ∙ still_runs-none n src period dst (count + 1) (record p { count = add32 p.count 1 })
        (on, l, r, e, h, omega arith, per) k small (omega arith)

abbrev AllSome : (Pll → Type 0) → Option (Pll × Option ℤ) → Type 0
AllSome P none = Unit
AllSome P (some (q, v)) = P q

-- The same before the end of the sample.
abbrev Noted : ℕ → Pll → Type 0
Noted period p =
    (p.enabled ≡ true)
    × (p.state ≡ locked)
    × (p.prev_src_bclk ≡ p.src_bclk)
    × (p.src_bclk < 2 ^ 64)
    × (p.period ≡ period)

locked-Noted :
    (p : Pll) (e dt : ℤ) → Noted p.period p → AllSome (Noted p.period) (run_state locked p e dt)
unfolding run_state correct
locked-Noted p e dt h =
    elim_cases (AllSome (Noted p.period)) (quot_ℤ (int64 (e *ℤ giga)) dt) tt (λ v. h)

finish-IsStill :
    (src dst period : ℕ) (o : Option (Pll × Option ℤ))
    → AllSome (Noted period) o
    → AllSome (IsStill src period 0) (finish src dst o)
unfolding finish
finish-IsStill src dst period none h = tt
finish-IsStill src dst period (some (q, v)) (on, l, e, h, per) = (on, l, refl, e, h, refl, per)

error-IsStill :
    (p : Pll) (src dst : ℕ)
    → p.enabled ≡ true
    → p.state ≡ locked
    → is_zero_ℤ (bclk_err (track p src dst)) ≡ false
    → AllSome (IsStill src p.period 0) (sample p src dst)
unfolding sample track note_err
error-IsStill p src dst on l error =
    let t = track p src dst in
    let e = bclk_err t in
    let dt = signed64 (sub64 t.src_bclk t.prev_src_bclk) in
    let q : Pll = record t { prev_src_bclk = t.src_bclk } in
    let after : Bool → PllState → Option (Pll × Option ℤ) =
      λ b st. finish src dst (run_state st (note_err b t) e dt) in
    subst (λ b. AllSome (IsStill src p.period 0) (after b (note_err b t).state)) (sym error)
      (subst (λ st. AllSome (IsStill src p.period 0) (after false st)) (sym l)
        (finish-IsStill src dst p.period (run_state locked q e dt)
          (locked-Noted q e dt (on, l, refl, omega arith, refl))))

-- If a sample of a locked element finds an error, and the source's register stands still from it on to the next sample,
-- which is the run a whole period later, that run divides by 0.
pub stalled_fails :
    (p q : Pll) (src dst : ℕ) (dst' : ℕ → ℕ) (adjust : Option ℤ)
    → p.enabled ≡ true
    → ltb (add32 p.count 1) p.period ≡ false
    → p.state ≡ locked
    → is_zero_ℤ (bclk_err (track p src dst)) ≡ false
    → src < 2 ^ 32
    → 0 < p.period
    → p.period < 2 ^ 32
    → pll_element_run p src dst ≡ some (q, adjust)
    → still_runs (p.period - 1) src dst' q ≡ none
unfolding pll_element_run
stalled_fails p q src dst dst' adjust on due l error small some_period fits ran =
    let sampled : sample (record p { count = add32 p.count 1 }) src dst ≡ some (q, adjust) =
      sym (run_due p src dst on due) ∙ ran in
    still_runs-none (p.period - 1) src p.period dst' 0 q
      (subst (AllSome (IsStill src p.period 0)) sampled
        (error-IsStill (record p { count = add32 p.count 1 }) src dst on l error))
      small fits (omega arith)

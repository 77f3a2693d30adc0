-- ===== src/Audio/Pll/Drift.antt =====
-- audio/audio_element_pll.c: the error that a sample computes, and the drift of the two clocks.
use rtos_apps.Base.{
  ℕ, ◌+◌, ◌-◌, ◌%◌, ◌^◌, ◌<◌, ◌≤◌, ◌≡◌, ◌⊎◌, inl, inr, sym, subst, ◌∙◌, arith, true, false, Option,
  some, add32, ltb, if_cases,
}
use rtos_apps.Base.Int.{ℤ, sub_ℕ}
use rtos_apps.Audio.Pll.{Pll, unlocked, track, bclk_err, sample, pll_element_run}
use rtos_apps.Audio.Pll.Tracks.{Tracks, Advances, Result, bclk_err_lem, sample-Tracks, lock-Tracks}

-- The runs of an element that started to lock when the clocks had counted `s₀` and `d₀` bits, up to a sample at
-- `s` and `d`; what the hardware shows is the count modulo 32 bits. An idle run is disabled or not yet due.
pub data Runs (s₀ d₀ : ℕ) : ℕ → ℕ → Pll → Type 0 where
  lock :
      (p q : Pll) (adjust : Option ℤ)
      → p.state ≡ unlocked
      → p.enabled ≡ true
      → ltb (add32 p.count 1) p.period ≡ false
      → pll_element_run p (s₀ % 2 ^ 32) (d₀ % 2 ^ 32) ≡ some (q, adjust)
      → Runs s₀ d₀ s₀ d₀ q
  idle :
      {s d : ℕ} {p : Pll} (q : Pll) (src dst : ℕ) (adjust : Option ℤ)
      → Runs s₀ d₀ s d p
      → (p.enabled ≡ false) ⊎ (ltb (add32 p.count 1) p.period ≡ true)
      → pll_element_run p src dst ≡ some (q, adjust)
      → Runs s₀ d₀ s d q
  next :
      {s d : ℕ} {p : Pll} (s' d' : ℕ) (q : Pll) (adjust : Option ℤ)
      → Runs s₀ d₀ s d p
      → p.enabled ≡ true
      → ltb (add32 p.count 1) p.period ≡ false
      → Advances s₀ s s'
      → Advances d₀ d d'
      → pll_element_run p (s' % 2 ^ 32) (d' % 2 ^ 32) ≡ some (q, adjust)
      → Runs s₀ d₀ s' d' q

counting-Tracks :
    {s₀ d₀ s d : ℕ} {p : Pll}
    → Tracks s₀ d₀ s d p
    → (n : ℕ) → Tracks s₀ d₀ s d (record p { count = n })
counting-Tracks t n = record {
  x = t.x;
  y = t.y;
  src_reg = t.src_reg;
  dst_reg = t.dst_reg;
  src_word = t.src_word;
  dst_word = t.dst_word;
  offset = t.offset;
  started = t.started;
}

Result_some :
    (P : Pll → Type 0) (o : Option (Pll × Option ℤ)) {q : Pll} {a : Option ℤ}
    → o ≡ some (q, a)
    → Result P o
    → P q
Result_some P o e h = subst (Result P) e h

-- A run that is idle keeps what a sample left.
idle-Tracks :
    (s₀ d₀ s d : ℕ) (p : Pll) (src dst : ℕ)
    → Tracks s₀ d₀ s d p
    → (p.enabled ≡ false) ⊎ (ltb (add32 p.count 1) p.period ≡ true)
    → Result (Tracks s₀ d₀ s d) (pll_element_run p src dst)
unfolding pll_element_run
idle-Tracks s₀ d₀ s d p src dst t c =
    if_cases (Result _) p.enabled
      (λ on.
        if_cases (Result _) (ltb (add32 p.count 1) p.period) (λ e. counting-Tracks t _)
          (λ e. elim c [ inl off ↦ cc | inr due ↦ cc ]))
      (λ off. t)

due_lem :
    (p : Pll) (src dst : ℕ)
    → p.enabled ≡ true
    → ltb (add32 p.count 1) p.period ≡ false
    → pll_element_run p src dst ≡ sample (record p { count = add32 p.count 1 }) src dst
unfolding pll_element_run
due_lem p src dst on due = rw (on, due)

Runs-Tracks :
    {s₀ d₀ s d : ℕ} {p : Pll} → Runs s₀ d₀ s d p → Tracks s₀ d₀ s d p × (s₀ ≤ s) × (d₀ ≤ d)
Runs-Tracks {s₀} {d₀} (lock p q adjust h on due e) = (
  Result_some (Tracks s₀ d₀ s₀ d₀) _ (sym (due_lem p _ _ on due) ∙ e)
      (lock-Tracks (record p { count = add32 p.count 1 }) s₀ d₀ h),
  omega arith,
  omega arith,
)
Runs-Tracks {s₀} {d₀} {s} {d} (idle {p} q src dst adjust r c e) =
    let t = Runs-Tracks r in
    (Result_some (Tracks s₀ d₀ s d) _ e (idle-Tracks s₀ d₀ s d p src dst t.0 c), t.1, t.2)
Runs-Tracks {s₀} {d₀} (next {s} {d} {p} s' d' q adjust r on due a b e) =
    let t = Runs-Tracks r in
    (
      Result_some (Tracks s₀ d₀ s' d') _ (sym (due_lem p _ _ on due) ∙ e)
          (sample-Tracks s₀ d₀ s d s' d' (counting-Tracks t.0 _) a b),
      omega (arith, a.lock_le, a.grows),
      omega (arith, b.lock_le, b.grows),
    )

-- After any number of runs since the lock, an element that takes a sample, when its clocks went on by less than 2^32 bits
-- each since the last one, computes the drift of the clocks since the lock, in bits, if they count less than 2^62 bits in all.
pub drift :
    {s₀ d₀ s d : ℕ} {p : Pll} (s' d' : ℕ)
    → Runs s₀ d₀ s d p
    → s ≤ s'
    → s' < s + 2 ^ 32
    → s' - s₀ < 2 ^ 62
    → d ≤ d'
    → d' < d + 2 ^ 32
    → d' - d₀ < 2 ^ 62
    → bclk_err (track p (s' % 2 ^ 32) (d' % 2 ^ 32)) ≡ sub_ℕ (s' - s₀) (d' - d₀)
drift {s₀} {d₀} {s} {d} s' d' r a b c a' b' c' =
    let t = Runs-Tracks r in bclk_err_lem s₀ d₀ s d s' d' t.0 t.1 a b c t.2 a' b' c'

-- ===== src/Audio/Buffer/Places.antt =====
-- The places of a period behind the writers of several buffers, where they are apart.
use rtos_apps.Base.{
  ℕ, zero, suc, ◌+◌, ◌^◌, ◌<◌, ◌≤◌, ◌≡◌, ◌≢◌, ◌⊎◌, inl, inr, sym, subst, ◌∙◌, arith, some, List, [],
  ◌∷◌, get_elem?, All, All_mono,
}
use mathlib.Core.Option.{some-injective}
use rtos_apps.Audio.Buffer.{AudioBuffer, audio_buf_write_addr}

pub All_at {ℓ κ} :
    {A : Type ℓ} (P : A → Type κ) (xs : List A) (c : ℕ) {a : A}
    → get_elem? xs c ≡ some a
    → All P xs
    → P a
All_at P [] c e h = absurd (cc)
All_at P (x ∷ xs) zero e h = subst P (some-injective _ _ e) h.0
All_at P (x ∷ xs) (suc c) e h = All_at P xs c e h.1

-- The address of the writer of a buffer.
abbrev pub writer : (ℕ → AudioBuffer) → ℕ → ℕ
writer bufs p = (bufs p).base + (bufs p).write

-- The writer of a buffer goes a period on without a wrap.
abbrev pub Fits : ℕ → (ℕ → AudioBuffer) → ℕ → Type 0
Fits period bufs p = (bufs p).write + period ≤ 2 ^ 32

abbrev pub Apart : ℕ → (ℕ → AudioBuffer) → ℕ → ℕ → Type 0
Apart period bufs p q =
    (writer bufs p + period ≤ writer bufs q) ⊎ (writer bufs q + period ≤ writer bufs p)

-- The channels' places for a period are apart.
abbrev pub AllApart : ℕ → (ℕ → AudioBuffer) → List ℕ → Type 0
AllApart period bufs [] = Unit
AllApart period bufs (p ∷ ps) =
    Fits period bufs p
    × All (λ q. Fits period bufs q × Apart period bufs p q) ps
    × AllApart period bufs ps

module _ (period : ℕ) (bufs : ℕ → AudioBuffer) where
  pub addr_lem :
      (p j : ℕ)
      → Fits period bufs p
      → j < period
      → audio_buf_write_addr (bufs p) j ≡ writer bufs p + j
  addr_lem p j f h = omega arith

  -- The words of two channels, and of two frames of one channel, stand at different addresses.
  pub addr_ne :
      (p q j l : ℕ)
      → Fits period bufs p
      → j < period
      → l < period
      → Apart period bufs p q ⊎ Apart period bufs q p
      → audio_buf_write_addr (bufs p) j ≢ writer bufs q + l
  addr_ne p q j l f h k a e =
      let d = sym (addr_lem p j f h) ∙ e in
      elim a [
        | inl b ↦ elim b [ inl c ↦ omega arith | inr c ↦ omega arith ]
        | inr b ↦ elim b [ inl c ↦ omega arith | inr c ↦ omega arith ]
      ]

  pub after_head :
      (q : ℕ) (qs : List ℕ) (j l : ℕ)
      → All (λ s. Fits period bufs s × Apart period bufs q s) qs
      → j < period
      → l < period
      → All (λ s. audio_buf_write_addr (bufs s) j ≢ writer bufs q + l) qs
  after_head q qs j l a hj hl =
      All_mono (λ s. Fits period bufs s × Apart period bufs q s) _ qs
        (λ s h. addr_ne s q j l h.0 hj hl (inr h.1)) a

  pub others :
      (ps : List ℕ) (c p j l : ℕ)
      → get_elem? ps c ≡ some p
      → AllApart period bufs ps
      → j < period
      → l < period
      → j ≢ l
      → All (λ q. audio_buf_write_addr (bufs q) j ≢ writer bufs p + l) ps
  others [] c p j l e a hj hl ne = absurd (cc)
  others (q ∷ qs) zero p j l e a hj hl ne =
      subst (λ r. All (λ s. audio_buf_write_addr (bufs s) j ≢ writer bufs r + l) (q ∷ qs))
        (some-injective _ _ e)
        (λ d. ne (omega (arith, sym (addr_lem q j a.0 hj) ∙ d)), after_head q qs j l a.1 hj hl)
  others (q ∷ qs) (suc c) p j l e a hj hl ne = (
    addr_ne q p j l a.0 hj hl
        (inl (All_at (λ s. Fits period bufs s × Apart period bufs q s) qs c e a.1).1),
    others qs c p j l e a.2 hj hl ne,
  )

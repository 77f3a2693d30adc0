-- ===== src/Audio/Avtp/Spans.antt =====
-- audio/audio_format.h: the conversion of the samples of several buffers, each from an address of its own on.
use rtos_apps.Base.{
  ℕ, zero, suc, ◌+◌, ◌<◌, ◌≤◌, ◌≡◌, ◌⊎◌, inl, inr, refl, ap, subst, ◌∙◌, arith, some, List, [], ◌∷◌,
  get_elem?, All, Memory, store, store_ne, store_eq,
}
use mathlib.Core.Option.{some-injective}
use rtos_apps.Audio.Buffer.Places.{All_at}
use rtos_apps.Audio.Avtp.Defs.{convert_span, convert_all}

-- The spans of two buffers do not overlap, and those of all.
abbrev pub Apart : (ℕ → ℕ) → ℕ → ℕ → ℕ → Type 0
Apart start len p q = (start p + len ≤ start q) ⊎ (start q + len ≤ start p)

abbrev pub AllApart : (ℕ → ℕ) → ℕ → List ℕ → Type 0
AllApart start len [] = Unit
AllApart start len (p ∷ ps) = All (Apart start len p) ps × AllApart start len ps

module _ {A : Type 0} (f : A → A) where
  span_other :
      (n a : ℕ) (m : Memory A) (x : ℕ) → (x < a) ⊎ (a + n ≤ x) → convert_span f n a m x ≡ m x
  unfolding convert_span
  span_other zero a m x h = refl
  span_other (suc n) a m x h =
      span_other n (a + 1) _ x (elim h [ inl b ↦ inl (omega arith) | inr b ↦ inr (omega arith) ])
      ∙ store_ne m _ (λ e. elim h [ inl b ↦ omega arith | inr b ↦ omega arith ])

  span_at : (n a i : ℕ) (m : Memory A) → i < n → convert_span f n a m (a + i) ≡ f (m (a + i))
  unfolding convert_span
  span_at zero a i m h = absurd (omega arith)
  span_at (suc n) a zero m h =
      span_other n (a + 1) _ (a + 0) (inl (omega arith))
      ∙ store_eq m _ (omega arith)
      ∙ ap (λ y. f (m y)) (omega arith)
  span_at (suc n) a (suc i) m h =
      ap (convert_span f n (a + 1) (store m a (f (m a)))) {x = a + suc i} {y = a + 1 + i}
        (omega arith)
      ∙ span_at n (a + 1) i _ (omega arith)
      ∙ ap f (store_ne m _ (λ e. omega arith) ∙ ap m (omega arith))

  module _ (start : ℕ → ℕ) (len : ℕ) where
    all_other :
        (ps : List ℕ) (m : Memory A) (p l : ℕ)
        → l < len
        → All (Apart start len p) ps
        → convert_all f start len ps m (start p + l) ≡ m (start p + l)
    unfolding convert_all
    all_other [] m p l h a = refl
    all_other (q ∷ qs) m p l h a =
        all_other qs _ p l h a.1
        ∙ span_other len _ m _ (elim a.0 [ inl b ↦ inl (omega arith) | inr b ↦ inr (omega arith) ])

    -- Each sample of the spans is converted, and once.
    pub all_at :
        (ps : List ℕ) (i p l : ℕ) (m : Memory A)
        → get_elem? ps i ≡ some p
        → AllApart start len ps
        → l < len
        → convert_all f start len ps m (start p + l) ≡ f (m (start p + l))
    unfolding convert_all
    all_at [] i p l m e a h = absurd (cc)
    all_at (q ∷ qs) zero p l m e a h =
        subst (λ r. convert_all f start len (q ∷ qs) m (start r + l) ≡ f (m (start r + l)))
          (some-injective _ _ e) (all_other qs _ q l h a.0 ∙ span_at len (start q) l m h)
    all_at (q ∷ qs) (suc i) p l m e a h =
        all_at qs i p l _ e a.1 h
        ∙ ap f (
            span_other len (start q) m (start p + l) (elim (All_at (Apart start len q) qs i e a.0) [
              | inl b ↦ inr (omega arith)
              | inr b ↦ inl (omega arith)
            ]))

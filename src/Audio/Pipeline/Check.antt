-- ===== src/Audio/Pipeline/Check.antt =====
-- The well-formed configurations, and the checks of audio/audio_pipeline.c.
use rtos_apps.Base.{
  ℕ, zero, suc, ◌+◌, ◌≤◌, ◌<◌, ◌≡◌, ◌≢◌, ◌↔◌, ◌⊎◌, refl, Bool, true, false, ◌&&◌, some, List, [],
  ◌∷◌, drop, get_elem?, ltb, ◌==◌, arith, All, All_mono,
}
use mathlib.Core.Option.{some-injective}
use native.Mathlib.Nat.{add-zero}
use rtos_apps.Audio.Pipeline.Config.{
  PipelineConfig, StageConfig, ElementConfig, BufferConfig, inputs_of, outputs_of, elements_of,
  stages_of, buffers_of, has_flag, all, count, sum_by, count_output, check_references,
  check_buffers, check_order, config_check, audio_buffer_flag_shared_user,
}

module _ {ℓ} {A : Type ℓ} where
  all→All : (p : A → Bool) (xs : List A) → all p xs ≡ true → All (λ x. p x ≡ true) xs
  all→All p [] h = tt
  all→All p (x ∷ xs) h = (ground arith, all→All p xs (ground arith))

  All→all : (p : A → Bool) (xs : List A) → All (λ x. p x ≡ true) xs → all p xs ≡ true
  All→all p [] h = refl
  All→all p (x ∷ xs) h = ground (arith, All→all p xs h.1)

  -- A loop whose body decides a property of an entry decides it of all entries.
  pub all_iff {κ} :
      (p : A → Bool) (P : A → Type κ) (xs : List A)
      → ((x : A) → (p x ≡ true) ↔ P x)
      → (all p xs ≡ true) ↔ All P xs
  all_iff p P xs e = (
    λ h. All_mono (λ x. p x ≡ true) P xs (λ x. (e x).0) (all→All p xs h),
    λ h. All→all p xs (All_mono P (λ x. p x ≡ true) xs (λ x. (e x).1) h),
  )

  sum_by_zero {κ} :
      (f : A → ℕ) (P : A → Type κ) (xs : List A)
      → ((x : A) → (f x ≡ 0) ↔ P x)
      → (sum_by f xs ≡ 0) ↔ All P xs
  sum_by_zero f P [] e = (λ h. tt, λ h. refl)
  sum_by_zero f P (x ∷ xs) e = (
    λ h. ((e x).0 (omega arith), (sum_by_zero f P xs e).0 (omega arith)),
    λ h. omega (arith, (e x).1 h.0, (sum_by_zero f P xs e).1 h.1),
  )

count_zero : (x : ℕ) (ys : List ℕ) → (count x ys ≡ 0) ↔ All (λ y. y ≢ x) ys
count_zero x [] = (λ h. tt, λ h. refl)
count_zero x (y ∷ ys) = (
  λ h. (ground arith, (count_zero x ys).0 (ground arith)),
  λ h. ground (arith, h.0, (count_zero x ys).1 h.1),
)

-- No element of the stage writes the buffer.
abbrev pub IsUnwritten : ℕ → StageConfig → Type 0
IsUnwritten b s = All (λ e. All (λ o. o ≢ b) (outputs_of e)) (elements_of s)

count_output_zero :
    (c : PipelineConfig) (i b : ℕ)
    → (count_output c i b ≡ 0) ↔ All (IsUnwritten b) (drop i (stages_of c))
unfolding count_output
count_output_zero c i b =
    sum_by_zero _ (IsUnwritten b) (drop i (stages_of c))
      λ s. sum_by_zero _ _ (elements_of s) λ e. count_zero b (outputs_of e)

-- What an accepted configuration is: inputs and outputs name buffers, buffers name storages or belong to
-- another pipeline, a buffer has at most one output, what a stage reads is written by no output of
-- it or of a later stage, and each element is acceptable.
pub record IsWellFormed (check_element : ElementConfig → Bool) (c : PipelineConfig) : Type 0 where
  pub references :
      All
        (λ s.
          All
            (λ e. All (λ b. b < c.buffers) (inputs_of e) × All (λ b. b < c.buffers) (outputs_of e))
            (elements_of s))
        (stages_of c)
  pub buffers :
      (i : ℕ) (b : BufferConfig)
      → get_elem? (buffers_of c) i ≡ some b
      → ((b.storage < c.buffer_storage) ⊎ (has_flag b.flags audio_buffer_flag_shared_user ≡ true))
        × (count_output c 0 i ≤ 1)
  pub in_order :
      (i : ℕ) (s : StageConfig)
      → get_elem? (stages_of c) i ≡ some s
      → All
          (λ e. All (λ b. All (IsUnwritten b) (drop i (stages_of c))) (inputs_of e))
          (elements_of s)
  pub acceptable : All (λ s. All (λ e. check_element e ≡ true) (elements_of s)) (stages_of c)

ltb_iff : (a b : ℕ) → (ltb a b ≡ true) ↔ (a < b)
ltb_iff a b = ground arith

both_iff {κ μ} :
    (p q : Bool) {P : Type κ} {Q : Type μ}
    → ((p ≡ true) ↔ P)
    → ((q ≡ true) ↔ Q)
    → ((p && q) ≡ true) ↔ (P × Q)
both_iff true true e f = (λ h. (e.0 refl, f.0 refl), λ h. refl)
both_iff true false e f = (λ h. cc, λ h. f.1 h.1)
both_iff false q e f = (λ h. cc, λ h. e.1 h.0)

-- A statement of each index and entry of a list, taken apart at the first entry.
module _ {ℓ κ} {A : Type ℓ} (P : ℕ → A → Type κ) (i : ℕ) (x : A) (xs : List A) where
  from_first :
      P i x
      → ((k : ℕ) (y : A) → get_elem? xs k ≡ some y → P (i + 1 + k) y)
      → (k : ℕ) (y : A) → get_elem? (x ∷ xs) k ≡ some y
      → P (i + k) y
  from_first h rest zero y e = rw (add-zero, ← some-injective x y e) h
  from_first h rest (suc k) y e =
      let shift : i + suc k ≡ i + 1 + k = omega arith in rw shift (rest k y e)

  at_first : ((k : ℕ) (y : A) → get_elem? (x ∷ xs) k ≡ some y → P (i + k) y) → P i x
  at_first h = let shift : i + 0 ≡ i = omega arith in rw shift at (h 0 x refl)

  after_first :
      ((k : ℕ) (y : A) → get_elem? (x ∷ xs) k ≡ some y → P (i + k) y)
      → (k : ℕ) (y : A) → get_elem? xs k ≡ some y
      → P (i + 1 + k) y
  after_first h k y e =
      let shift : i + suc k ≡ i + 1 + k = omega arith in rw shift at (h (suc k) y e)

module _ (c : PipelineConfig) where
  references_iff :
      (check_references c ≡ true)
      ↔ All
          (λ s.
            All
              (λ e.
                All (λ b. b < c.buffers) (inputs_of e) × All (λ b. b < c.buffers) (outputs_of e))
              (elements_of s))
          (stages_of c)
  unfolding check_references
  references_iff = all_iff _ _ (stages_of c) λ s. all_iff _ _ (elements_of s) λ e.
      both_iff _ _ (all_iff _ _ (inputs_of e) λ b. ltb_iff b c.buffers)
        (all_iff _ _ (outputs_of e) λ b. ltb_iff b c.buffers)

  -- What is checked of the buffer of index `i`.
  abbrev IsStored : BufferConfig → Type 0
  IsStored b =
      (b.storage < c.buffer_storage) ⊎ (has_flag b.flags audio_buffer_flag_shared_user ≡ true)

  abbrev BufferOk : ℕ → BufferConfig → Type 0
  BufferOk i b = IsStored b × (count_output c 0 i ≤ 1)

  first_buffer_iff :
      (i : ℕ) (b : BufferConfig) (bs : List BufferConfig)
      → (check_buffers c i (b ∷ bs) ≡ true) ↔ (BufferOk i b × (check_buffers c (i + 1) bs ≡ true))
  unfolding check_buffers
  first_buffer_iff i b bs = (λ h. ground arith, λ h. ground arith)

  buffers_iff :
      (i : ℕ) (bs : List BufferConfig)
      → (check_buffers c i bs ≡ true)
        ↔ ((k : ℕ) (b : BufferConfig) → get_elem? bs k ≡ some b → BufferOk (i + k) b)
  unfolding check_buffers
  buffers_iff i [] = (λ h k b e. cc, λ h. refl)
  buffers_iff i (b ∷ bs) = (
    λ h.
        let (first, rest) = (first_buffer_iff i b bs).0 h in
        from_first BufferOk i b bs first ((buffers_iff (i + 1) bs).0 rest),
    λ h.
        (first_buffer_iff i b bs).1
          (at_first BufferOk i b bs h, (buffers_iff (i + 1) bs).1 (after_first BufferOk i b bs h)),
  )

  -- What is checked of the stage of index `i`.
  abbrev StageOk : ℕ → StageConfig → Type 0
  StageOk i s =
      All (λ e. All (λ b. All (IsUnwritten b) (drop i (stages_of c))) (inputs_of e)) (elements_of s)

  first_stage_iff :
      (i : ℕ) (s : StageConfig)
      → (all (λ e. all (λ b. count_output c i b == 0) (inputs_of e)) (elements_of s) ≡ true)
        ↔ StageOk i s
  first_stage_iff i s = all_iff _ _ (elements_of s) λ e. all_iff _ _ (inputs_of e) λ b. unwritten b
    where
      unwritten :
          (b : ℕ) → ((count_output c i b == 0) ≡ true) ↔ All (IsUnwritten b) (drop i (stages_of c))
      unwritten b = (
        λ h. (count_output_zero c i b).0 (ground arith),
        λ h. ground (arith, (count_output_zero c i b).1 h),
      )

  order_iff :
      (i : ℕ) (ss : List StageConfig)
      → (check_order c i ss ≡ true)
        ↔ ((k : ℕ) (s : StageConfig) → get_elem? ss k ≡ some s → StageOk (i + k) s)
  unfolding check_order
  order_iff i [] = (λ h k s e. cc, λ h. refl)
  order_iff i (s ∷ ss) = (
    λ h.
        let (first, rest) = (both_iff _ _ (first_stage_iff i s) (order_iff (i + 1) ss)).0 h in
        from_first StageOk i s ss first rest,
    λ h.
        (both_iff _ _ (first_stage_iff i s) (order_iff (i + 1) ss)).1
          (at_first StageOk i s ss h, after_first StageOk i s ss h),
  )

same_iff : (p : Bool) → (p ≡ true) ↔ (p ≡ true)
same_iff p = (λ h. h, λ h. h)

check_parts :
    (check_element : ElementConfig → Bool) (c : PipelineConfig)
    → (config_check check_element c ≡ true) ↔ (
        (((check_references c ≡ true) × (check_buffers c 0 (buffers_of c) ≡ true))
          × (check_order c 0 (stages_of c) ≡ true))
        × (all (λ s. all check_element (elements_of s)) (stages_of c) ≡ true))
unfolding config_check
check_parts check_element c =
    both_iff
      (check_references c && check_buffers c 0 (buffers_of c) && check_order c 0 (stages_of c))
      (all (λ s. all check_element (elements_of s)) (stages_of c))
      (both_iff (check_references c && check_buffers c 0 (buffers_of c))
        (check_order c 0 (stages_of c))
        (both_iff (check_references c) (check_buffers c 0 (buffers_of c)) (same_iff _) (same_iff _))
        (same_iff _))
      (same_iff _)

elements_iff :
    (check_element : ElementConfig → Bool) (ss : List StageConfig)
    → (all (λ s. all check_element (elements_of s)) ss ≡ true)
      ↔ All (λ s. All (λ e. check_element e ≡ true) (elements_of s)) ss
elements_iff check_element ss =
    all_iff _ _ ss λ s. all_iff _ _ (elements_of s) λ e. same_iff (check_element e)

-- Counting from 0.
from_zero : (i : ℕ) → 0 + i ≡ i
from_zero i = omega arith

-- The checks accept a configuration exactly when it is well-formed.
pub config_check_iff :
    (check_element : ElementConfig → Bool) (c : PipelineConfig)
    → (config_check check_element c ≡ true) ↔ IsWellFormed check_element c
config_check_iff check_element c = (
  λ h.
      let (rest, elements) = (check_parts check_element c).0 h in
      let (refs_bufs, order) = rest in
      let (refs, bufs) = refs_bufs in
      record {
        references = (references_iff c).0 refs;
        buffers = λ i b e. rw from_zero at ((buffers_iff c 0 (buffers_of c)).0 bufs i b e);
        in_order = λ i s e. rw from_zero at ((order_iff c 0 (stages_of c)).0 order i s e);
        acceptable = (elements_iff check_element (stages_of c)).0 elements;
      },
  λ w. (check_parts check_element c).1 (
    (
      (
        (references_iff c).1 w.references,
        (buffers_iff c 0 (buffers_of c)).1 (λ i b e. rw from_zero (w.buffers i b e)),
      ),
      (order_iff c 0 (stages_of c)).1 (λ i s e. rw from_zero (w.in_order i s e)),
    ),
    (elements_iff check_element (stages_of c)).1 w.acceptable,
  ),
)

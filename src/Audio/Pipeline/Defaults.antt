-- ===== src/Audio/Pipeline/Defaults.antt =====
-- `audio_pipeline_set_config`: the parameters that a configuration leaves at 0 get default values.
use rtos_apps.Base.{
  ℕ, zero, suc, ◌+◌, ◌≡◌, fun_ext, true, ◌⊎◌, inl, inr, ◌<◌, ◌≤◌, ◌∙◌, refl, ap, ap₂, arith, List,
  [], ◌∷◌, ◌++◌, take, drop, map, length, ◌==◌, if◌then◌else◌, add32, not, ◌&&◌, ◌^◌,
}
use rtos_apps.Audio.Pipeline.Config.{
  PipelineConfig, StageConfig, ElementConfig, BufferConfig, StorageConfig, early_config_check,
  has_flag, audio_buffer_flag_shared_user,
}

-- `STORAGE_DEFAULT_PERIODS`
abbrev pub storage_default_periods : ℕ
storage_default_periods = 2

-- Inputs or outputs: 0 stands for one more than the one before, at first for 0.
unfoldable pub fill_next : ℕ → List ℕ → List ℕ
fill_next next [] = []
fill_next next (x ∷ xs) = let y = if x == 0 then next else x in y ∷ fill_next (add32 y 1) xs

-- The storage of one buffer: 0 stands for the shared id of another pipeline's buffer, or for the next
-- id `j`, which then goes on.
unfoldable pub storage_for : ℕ → BufferConfig → BufferConfig
storage_for j b = record b {
  storage =
      if b.storage == 0
      then (if has_flag b.flags audio_buffer_flag_shared_user then b.shared_id else j)
      else b.storage;
}

unfoldable pub storage_next : ℕ → BufferConfig → ℕ
storage_next j b =
    if b.storage == 0 && not (has_flag b.flags audio_buffer_flag_shared_user) then add32 j 1 else j

unfoldable pub fill_storage : ℕ → List BufferConfig → List BufferConfig
unfolding storage_for storage_next
fill_storage j [] = []
fill_storage j (b ∷ bs) = storage_for j b ∷ fill_storage (storage_next j b) bs

-- An update of the first `n` entries of an array.
abbrev pub update_first {ℓ} : {A : Type ℓ} → ℕ → (List A → List A) → List A → List A
update_first n f xs = f (take n xs) ++ drop n xs

unfoldable pub set_element : PipelineConfig → ElementConfig → ElementConfig
unfolding fill_next
set_element c e = record e {
  sample_rate = if e.sample_rate == 0 then c.sample_rate else e.sample_rate;
  period = if e.period == 0 then c.period else e.period;
  input = update_first e.inputs (fill_next 0) e.input;
  output = update_first e.outputs (fill_next 0) e.output;
}

unfoldable pub set_periods : StorageConfig → StorageConfig
set_periods s = record s { periods = if s.periods == 0 then storage_default_periods else s.periods }

unfoldable pub set_stage : PipelineConfig → StageConfig → StageConfig
unfolding set_element
set_stage c s = record s { element = update_first s.elements (map (set_element c)) s.element }

unfoldable pub set_config : PipelineConfig → PipelineConfig
unfolding set_stage fill_storage set_periods
set_config c = record c {
  stage = update_first c.stages (map (set_stage c)) c.stage;
  buffer = update_first c.buffers (fill_storage 0) c.buffer;
  storage = update_first c.buffer_storage (map set_periods) c.storage;
}

length-fill_next : (xs : List ℕ) (n : ℕ) → length (fill_next n xs) ≡ length xs
unfolding fill_next
length-fill_next [] n = refl
length-fill_next (x ∷ xs) n = ap suc (length-fill_next xs _)

fill_next_twice : (xs : List ℕ) (n : ℕ) → fill_next n (fill_next n xs) ≡ fill_next n xs
unfolding fill_next
fill_next_twice [] n = refl
fill_next_twice (x ∷ xs) n =
    ap₂ (λ y rest. y ∷ rest) kept
      (ap (λ y. fill_next (add32 y 1) (fill_next (add32 (if x == 0 then n else x) 1) xs)) kept
        ∙ fill_next_twice xs (add32 y 1))
  where
    y : ℕ
    y = if x == 0 then n else x

    kept : (if y == 0 then n else y) ≡ y
    kept = ground arith

length-fill_storage : (bs : List BufferConfig) (j : ℕ) → length (fill_storage j bs) ≡ length bs
unfolding fill_storage
length-fill_storage [] j = refl
length-fill_storage (b ∷ bs) j = ap suc (length-fill_storage bs _)

storage_for_twice :
    (j k : ℕ) (b : BufferConfig)
    → (0 < j) ⊎ (j ≡ k)
    → storage_for k (storage_for j b) ≡ storage_for j b
unfolding storage_for
storage_for_twice j k b h = ground arith

storage_next-lt :
    (j n : ℕ) (b : BufferConfig)
    → j + suc n < 2 ^ 32
    → (j ≤ storage_next j b) × (storage_next j b + n < 2 ^ 32)
unfolding storage_next
storage_next-lt j n b h = ground arith

-- Ids from a positive one on are not taken for defaults again.
fill_storage_settled :
    (bs : List BufferConfig) (j k : ℕ)
    → 0 < j
    → j + length bs < 2 ^ 32
    → fill_storage k (fill_storage j bs) ≡ fill_storage j bs
unfolding fill_storage
fill_storage_settled [] j k h lt = refl
fill_storage_settled (b ∷ bs) j k h lt = ap₂ ◌∷◌ (storage_for_twice j k b (inl h)) (
    fill_storage_settled bs (storage_next j b) (storage_next k (storage_for j b))
      (omega (arith, storage_next-lt j (length bs) b lt))
      (omega (arith, storage_next-lt j (length bs) b lt)))

storage_next_zero : (b : BufferConfig) → storage_next 0 (storage_for 0 b) ≡ storage_next 0 b
unfolding storage_next storage_for
storage_next_zero b = ground arith

fill_storage_twice :
    (bs : List BufferConfig) (j : ℕ)
    → j + length bs < 2 ^ 32
    → fill_storage j (fill_storage j bs) ≡ fill_storage j bs
unfolding fill_storage
fill_storage_twice [] j lt = refl
fill_storage_twice (b ∷ bs) zero lt = ap₂ ◌∷◌ (storage_for_twice 0 0 b (inr refl)) (
    ap (λ k. fill_storage k (fill_storage (storage_next 0 b) bs)) (storage_next_zero b)
    ∙ fill_storage_twice bs (storage_next 0 b) (omega (arith, storage_next-lt 0 (length bs) b lt)))
fill_storage_twice (b ∷ bs) (suc j) lt =
    fill_storage_settled (b ∷ bs) (suc j) (suc j) (omega arith) lt

module _ {ℓ} {A : Type ℓ} where
  split_again :
      (n : ℕ) (xs ys : List A)
      → length ys ≡ length (take n xs)
      → (take n (ys ++ drop n xs) ≡ ys) × (drop n (ys ++ drop n xs) ≡ drop n xs)
  split_again zero xs [] h = (refl, refl)
  split_again zero xs (y ∷ ys) h = absurd (omega arith)
  split_again (suc n) [] [] h = (refl, refl)
  split_again (suc n) [] (y ∷ ys) h = absurd (omega arith)
  split_again (suc n) (x ∷ xs) [] h = absurd (omega arith)
  split_again (suc n) (x ∷ xs) (y ∷ ys) h =
      let (front, back) = split_again n xs ys (omega arith) in (ap (◌∷◌ y) front, back)

  update_first_twice :
      (f : List A → List A) (n : ℕ) (xs : List A)
      → length (f (take n xs)) ≡ length (take n xs)
      → f (f (take n xs)) ≡ f (take n xs)
      → update_first n f (update_first n f xs) ≡ update_first n f xs
  update_first_twice f n xs len twice =
      let (front, back) = split_again n xs (f (take n xs)) len in
      ap₂ (λ a b. f a ++ b) front back ∙ ap (λ a. a ++ drop n xs) twice

  map_twice : (f : A → A) (xs : List A) → ((x : A) → f (f x) ≡ f x) → map f (map f xs) ≡ map f xs
  map_twice f [] e = refl
  map_twice f (x ∷ xs) e = ap₂ ◌∷◌ (e x) (map_twice f xs e)

set_periods_twice : (s : StorageConfig) → set_periods (set_periods s) ≡ set_periods s
unfolding set_periods
set_periods_twice s = ground arith

set_element_twice :
    (c : PipelineConfig) (e : ElementConfig) → set_element c (set_element c e) ≡ set_element c e
unfolding set_element
set_element_twice c e = ground (
  arith,
  update_first_twice (fill_next 0) e.inputs e.input (length-fill_next (take e.inputs e.input) 0)
      (fill_next_twice (take e.inputs e.input) 0),
  update_first_twice (fill_next 0) e.outputs e.output (length-fill_next (take e.outputs e.output) 0)
      (fill_next_twice (take e.outputs e.output) 0),
)

length-map : {A : Type 0} (f : A → A) (xs : List A) → length (map f xs) ≡ length xs
length-map f [] = refl
length-map f (x ∷ xs) = ap suc (length-map f xs)

map_first_twice :
    {A : Type 0} (f : A → A) (n : ℕ) (xs : List A)
    → ((x : A) → f (f x) ≡ f x)
    → update_first n (map f) (update_first n (map f) xs) ≡ update_first n (map f) xs
map_first_twice f n xs e =
    update_first_twice (map f) n xs (length-map f (take n xs)) (map_twice f (take n xs) e)

set_stage_twice :
    (c : PipelineConfig) (s : StageConfig) → set_stage c (set_stage c s) ≡ set_stage c s
unfolding set_stage
set_stage_twice c s =
    ap (λ l. record s { element = l })
      (map_first_twice (set_element c) s.elements s.element (set_element_twice c))

-- The stages take their defaults from the period and the sample rate alone, which stay.
set_stage_after :
    (c : PipelineConfig) (s : StageConfig) → set_stage (set_config c) s ≡ set_stage c s
unfolding set_stage set_element set_config
set_stage_after c s = refl

length-take-le : {A : Type 0} (n : ℕ) (xs : List A) → length (take n xs) ≤ n
length-take-le zero xs = omega arith
length-take-le (suc n) [] = omega arith
length-take-le (suc n) (x ∷ xs) = omega (arith, length-take-le n xs)

-- The defaults are put into the caller's configuration: a configuration that has been used once, and passes the
-- early check, is not changed by being used again.
pub set_config_twice :
    (c : PipelineConfig) → early_config_check c ≡ true → set_config (set_config c) ≡ set_config c
unfolding set_config early_config_check
set_config_twice c ok = λ i. record c {
  stage =
      (ap (λ f. update_first c.stages (map f) (update_first c.stages (map (set_stage c)) c.stage))
            (fun_ext (set_stage_after c))
          ∙ map_first_twice (set_stage c) c.stages c.stage (set_stage_twice c))
        i;
  buffer =
      update_first_twice (fill_storage 0) c.buffers c.buffer
        (length-fill_storage (take c.buffers c.buffer) 0)
        (fill_storage_twice (take c.buffers c.buffer) 0 few) i;
  storage = map_first_twice set_periods c.buffer_storage c.storage set_periods_twice i;
}
  where
    bounded : c.buffers ≤ 256
    bounded = ground arith

    few : 0 + length (take c.buffers c.buffer) < 2 ^ 32
    few = omega (arith, bounded, length-take-le c.buffers c.buffer)

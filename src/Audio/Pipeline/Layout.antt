-- ===== src/Audio/Pipeline/Layout.antt =====
-- The one allocation of a pipeline: its size, and where the buffers' samples lie in it
-- (`audio_buffer_storage_size`, `audio_buffer_storage_off` and the sizes before them). Sizes wrap at
-- 32 bits; the sizes of the structures are those of the target, where a sample has eight bytes.
use rtos_apps.Base.{
  ℕ, zero, suc, ◌+◌, ◌*◌, ◌%◌, ◌^◌, ◌≡◌, ◌<◌, ◌≤◌, ◌∙◌, ap, arith, none, some, List, [], ◌∷◌, take,
  get_elem?, mul32,
}
use mathlib.Core.Option.{some-injective}
use rtos_apps.Audio.Pipeline.Config.{
  PipelineConfig, ElementConfig, StorageConfig, stages_of, elements_of, storages_of, sum_by,
}

-- `sizeof` of the structures that the layout uses.
pub record Sizes : Type 0 where
  pub pipeline : ℕ
  pub stage : ℕ
  pub element : ℕ
  pub buffer : ℕ

abbrev pub sizeof_sample : ℕ
sizeof_sample = 8

-- The samples of a storage that is allocated with the pipeline; one with a base has none there.
abbrev pub samples_of : ℕ → StorageConfig → ℕ
samples_of period s = elim s.base [ none ↦ mul32 s.periods period | some b ↦ 0 ]

unfoldable pub buffer_storage_size : PipelineConfig → ℕ
buffer_storage_size c = sum_by (λ s. samples_of c.period s * sizeof_sample) (storages_of c) % 2 ^ 32

-- In samples.
unfoldable pub buffer_storage_off : PipelineConfig → ℕ → ℕ
buffer_storage_off c id = sum_by (samples_of c.period) (take id c.storage) % 2 ^ 32

unfoldable pub buffer_size : Sizes → PipelineConfig → ℕ
buffer_size z c = c.buffers * z.buffer % 2 ^ 32

unfoldable pub element_data_size_total : (ElementConfig → ℕ) → PipelineConfig → ℕ
element_data_size_total data_size c =
    sum_by (λ s. sum_by data_size (elements_of s)) (stages_of c) % 2 ^ 32

unfoldable pub element_size : Sizes → PipelineConfig → ℕ
element_size z c = sum_by (λ s. s.elements * z.element) (stages_of c) % 2 ^ 32

unfoldable pub stage_size : Sizes → PipelineConfig → ℕ
stage_size z c = c.stages * z.stage % 2 ^ 32

-- The size that `audio_pipeline_alloc` asks for.
unfoldable pub alloc_size : Sizes → (ElementConfig → ℕ) → PipelineConfig → ℕ
unfolding stage_size element_size element_data_size_total buffer_size buffer_storage_size
alloc_size z data_size c =
    (z.pipeline
      + stage_size z c
      + element_size z c
      + element_data_size_total data_size c
      + buffer_size z c
      + buffer_storage_size c)
    % 2 ^ 32

-- Where the samples begin, from the start of the allocation.
unfoldable pub storage_base : Sizes → (ElementConfig → ℕ) → PipelineConfig → ℕ
unfolding stage_size element_size element_data_size_total buffer_size
storage_base z data_size c =
    z.pipeline
    + stage_size z c
    + element_size z c
    + element_data_size_total data_size c
    + buffer_size z c

module _ {ℓ} {A : Type ℓ} (f : A → ℕ) where
  -- A sum over a prefix with one more entry, and over a longer prefix.
  sum_by-take-suc :
      (xs : List A) (i : ℕ) {x : A}
      → get_elem? xs i ≡ some x
      → sum_by f (take (suc i) xs) ≡ sum_by f (take i xs) + f x
  sum_by-take-suc [] i e = cc
  sum_by-take-suc (y ∷ xs) zero {x} e = omega (arith, ap f (some-injective y x e))
  sum_by-take-suc (y ∷ xs) (suc i) e = omega (arith, sum_by-take-suc xs i e)

  sum_by-take_mono : (xs : List A) (i j : ℕ) → i ≤ j → sum_by f (take i xs) ≤ sum_by f (take j xs)
  sum_by-take_mono xs zero j h = omega arith
  sum_by-take_mono xs (suc i) zero h = absurd (omega arith)
  sum_by-take_mono [] (suc i) (suc j) h = omega arith
  sum_by-take_mono (x ∷ xs) (suc i) (suc j) h = omega (arith, sum_by-take_mono xs i j (omega arith))

sum_by-mul :
    {A : Type 0} (f : A → ℕ) (xs : List A)
    → sum_by (λ x. f x * sizeof_sample) xs ≡ sum_by f xs * sizeof_sample
sum_by-mul f [] = omega arith
sum_by-mul f (x ∷ xs) = omega (arith, sum_by-mul f xs)

-- A storage that brings its own base takes no samples of the allocation, and its offset is also that of the
-- next storage: `audio_pipeline_buffer_init` places buffers of both at one address.
pub given_base_overlaps :
    (c : PipelineConfig) (i : ℕ) (s : StorageConfig) (b : ℕ)
    → get_elem? c.storage i ≡ some s
    → s.base ≡ some b
    → buffer_storage_off c (suc i) ≡ buffer_storage_off c i
unfolding buffer_storage_off
given_base_overlaps c i s b h e =
    let none_taken : samples_of c.period s ≡ 0 = rw e in
    ap (λ n. n % 2 ^ 32)
      (sum_by-take-suc (samples_of c.period) c.storage i h ∙ omega (arith, none_taken))

-- Under a total that fits 32 bits, of two storages that are allocated with the pipeline the samples of the first
-- end where those of the second begin or before, and the samples of each end within the storage size.
pub storages_apart :
    (c : PipelineConfig) (i j : ℕ) (s t : StorageConfig)
    → sum_by (λ s. samples_of c.period s * sizeof_sample) (storages_of c) < 2 ^ 32
    → get_elem? c.storage i ≡ some s
    → get_elem? c.storage j ≡ some t
    → i < j
    → j < c.buffer_storage
    → (buffer_storage_off c i + samples_of c.period s ≤ buffer_storage_off c j)
      × ((buffer_storage_off c j + samples_of c.period t) * sizeof_sample ≤ buffer_storage_size c)
unfolding buffer_storage_off buffer_storage_size
storages_apart c i j s t fits hs ht lt below = (
  omega (arith, first, up_to_second, second, within, scaled),
  omega (arith, first, up_to_second, second, within, scaled),
)
  where
    f : StorageConfig → ℕ
    f = samples_of c.period

    first : sum_by f (take (suc i) c.storage) ≡ sum_by f (take i c.storage) + f s
    first = sum_by-take-suc f c.storage i hs

    up_to_second : sum_by f (take (suc i) c.storage) ≤ sum_by f (take j c.storage)
    up_to_second = sum_by-take_mono f c.storage (suc i) j (omega arith)

    second : sum_by f (take (suc j) c.storage) ≡ sum_by f (take j c.storage) + f t
    second = sum_by-take-suc f c.storage j ht

    within : sum_by f (take (suc j) c.storage) ≤ sum_by f (storages_of c)
    within = sum_by-take_mono f c.storage (suc j) c.buffer_storage (omega arith)

    scaled :
        sum_by (λ s. f s * sizeof_sample) (storages_of c) ≡ sum_by f (storages_of c) * sizeof_sample
    scaled = sum_by-mul f (storages_of c)

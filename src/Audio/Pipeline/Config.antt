-- ===== src/Audio/Pipeline/Config.antt =====
-- The configuration of a pipeline and its checks: `audio_pipeline_early_config_check`,
-- `audio_pipeline_config_check` and the counts that they use. An array of the configuration is a list,
-- beside the number of its entries in use; the early check keeps that number within the array.
use rtos_apps.Base.{
  ℕ, ◌+◌, Bool, true, ◌&&◌, ◌||◌, not, Option, List, [], ◌∷◌, take, drop, ltb, leb, ◌==◌,
  if◌then◌else◌, bit_and,
}

abbrev pub audio_pipeline_max_stages : ℕ
audio_pipeline_max_stages = 4

abbrev pub audio_pipeline_max_elements : ℕ
audio_pipeline_max_elements = 16

abbrev pub audio_pipeline_max_buffers : ℕ
audio_pipeline_max_buffers = 256

abbrev pub audio_element_max_inputs : ℕ
audio_element_max_inputs = 64

abbrev pub audio_element_max_outputs : ℕ
audio_element_max_outputs = 64

abbrev pub audio_buffer_flag_shared : ℕ
audio_buffer_flag_shared = 1

abbrev pub audio_buffer_flag_shared_user : ℕ
audio_buffer_flag_shared_user = 2

-- `struct audio_element_config`, less the parameters of each type of element.
pub record ElementConfig : Type 0 where
  pub type : ℕ
  pub inputs : ℕ
  pub input : List ℕ
  pub outputs : ℕ
  pub output : List ℕ
  pub period : ℕ
  pub sample_rate : ℕ

pub record StageConfig : Type 0 where
  pub elements : ℕ
  pub element : List ElementConfig

pub record BufferConfig : Type 0 where
  pub storage : ℕ
  pub flags : ℕ
  pub shared_id : ℕ

-- `base` is `none` for NULL.
pub record StorageConfig : Type 0 where
  pub base : Option ℕ
  pub periods : ℕ

pub record PipelineConfig : Type 0 where
  pub period : ℕ
  pub sample_rate : ℕ
  pub stages : ℕ
  pub stage : List StageConfig
  pub buffers : ℕ
  pub buffer : List BufferConfig
  pub buffer_storage : ℕ
  pub storage : List StorageConfig

-- The entries in use.
abbrev pub inputs_of : ElementConfig → List ℕ
inputs_of e = take e.inputs e.input

abbrev pub outputs_of : ElementConfig → List ℕ
outputs_of e = take e.outputs e.output

abbrev pub elements_of : StageConfig → List ElementConfig
elements_of s = take s.elements s.element

abbrev pub stages_of : PipelineConfig → List StageConfig
stages_of c = take c.stages c.stage

abbrev pub buffers_of : PipelineConfig → List BufferConfig
buffers_of c = take c.buffers c.buffer

abbrev pub storages_of : PipelineConfig → List StorageConfig
storages_of c = take c.buffer_storage c.storage

abbrev pub has_flag : ℕ → ℕ → Bool
has_flag flags flag = not (bit_and flags flag == 0)

-- A loop that fails at the first entry which fails the test.
abbrev pub all {ℓ} : {A : Type ℓ} → (A → Bool) → List A → Bool
all p [] = true
all p (x ∷ xs) = p x && all p xs

-- How often `x` stands in a list; the sum of `f` over a list.
abbrev pub count : ℕ → List ℕ → ℕ
count x [] = 0
count x (y ∷ ys) = (if y == x then 1 else 0) + count x ys

abbrev pub sum_by {ℓ} : {A : Type ℓ} → (A → ℕ) → List A → ℕ
sum_by f [] = 0
sum_by f (x ∷ xs) = f x + sum_by f xs

unfoldable pub early_config_check : PipelineConfig → Bool
early_config_check c =
    leb c.stages audio_pipeline_max_stages
    && leb c.buffers audio_pipeline_max_buffers
    && leb c.buffer_storage audio_pipeline_max_buffers
    && all
        (λ s.
          leb s.elements audio_pipeline_max_elements
          && all
              (λ e.
                leb e.inputs audio_element_max_inputs && leb e.outputs audio_element_max_outputs)
              (elements_of s))
        (stages_of c)

-- The inputs, from the given stage on, that read a buffer, and the outputs that write it.
unfoldable pub count_input : PipelineConfig → ℕ → ℕ → ℕ
count_input c stage input =
    sum_by (λ s. sum_by (λ e. count input (inputs_of e)) (elements_of s)) (drop stage (stages_of c))

unfoldable pub count_output : PipelineConfig → ℕ → ℕ → ℕ
count_output c stage output =
    sum_by (λ s. sum_by (λ e. count output (outputs_of e)) (elements_of s))
      (drop stage (stages_of c))

-- All inputs and outputs of the elements reference valid buffers.
unfoldable pub check_references : PipelineConfig → Bool
check_references c =
    all
      (λ s.
        all
          (λ e.
            all (λ b. ltb b c.buffers) (inputs_of e) && all (λ b. ltb b c.buffers) (outputs_of e))
          (elements_of s))
      (stages_of c)

-- The buffers from the `i`-th on have a valid storage, unless they use another pipeline's buffer, and
-- at most one output each.
unfoldable pub check_buffers : PipelineConfig → ℕ → List BufferConfig → Bool
check_buffers c i [] = true
check_buffers c i (b ∷ bs) =
    (ltb b.storage c.buffer_storage || has_flag b.flags audio_buffer_flag_shared_user)
    && leb (count_output c 0 i) 1
    && check_buffers c (i + 1) bs

-- No element of the stages from the `i`-th on has an input that an output of its stage or a later one
-- writes.
unfoldable pub check_order : PipelineConfig → ℕ → List StageConfig → Bool
check_order c i [] = true
check_order c i (s ∷ ss) =
    all (λ e. all (λ b. count_output c i b == 0) (inputs_of e)) (elements_of s)
    && check_order c (i + 1) ss

-- `audio_pipeline_config_check`, over the check of an element's configuration.
unfoldable pub config_check : (ElementConfig → Bool) → PipelineConfig → Bool
unfolding check_references check_buffers check_order
config_check check_element c =
    check_references c
    && check_buffers c 0 (buffers_of c)
    && check_order c 0 (stages_of c)
    && all (λ s. all check_element (elements_of s)) (stages_of c)

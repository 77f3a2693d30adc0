-- ===== src/Audio/Pipeline/Build.antt =====
-- `audio_pipeline_init`, `audio_pipeline_exit` and what they call: the allocation, the set-up of buffers and
-- elements, and the way back when a step fails. The checks and the set-up of a single element, and
-- the allocator, are parameters.
use rtos_apps.Base.{
  ℕ, ◌+◌, ◌/◌, ◌≡◌, inl, inr, refl, fun_ext, arith, Bool, true, false, ◌&&◌, Option, none, some,
  List, [], ◌∷◌, get_elem?, ◌==◌, ==_iff, if◌then◌else◌, Option-cases, Bool-cases, Memory, mul32,
}
use rtos_apps.Audio.Buffer.{AudioBuffer, audio_buf_init}
use rtos_apps.Audio.Pipeline.Config.{
  PipelineConfig, StageConfig, ElementConfig, BufferConfig, stages_of, elements_of, buffers_of,
  early_config_check, config_check, has_flag, audio_buffer_flag_shared,
  audio_buffer_flag_shared_user,
}
use rtos_apps.Audio.Pipeline.Defaults.{set_config}
use rtos_apps.Audio.Pipeline.Layout.{
  Sizes, alloc_size, storage_base, buffer_storage_off, sizeof_sample,
}
use rtos_apps.Audio.Pipeline.Table.{
  Element, Pipeline, Table, IsAbsent, table_add, table_del, table_del-add, shared_buffer_find,
}

-- The table, the pipelines at their addresses, which addresses are allocated, and the samples.
pub record State {ℓ} (A : Type ℓ) : Type ℓ where
  pub table : Table
  pub heap : ℕ → Pipeline
  pub live : ℕ → Bool
  pub memory : Memory A

-- What an element's module provides, and `rtos_malloc`, which gives an address or NULL.
pub record Interface : Type 0 where
  pub check_element : ElementConfig → Bool
  pub data_size : ElementConfig → ℕ
  pub init_element : Element → ElementConfig → Bool
  pub malloc : ℕ → Option ℕ
  pub sizes : Sizes

abbrev pub update {ℓ} : {B : Type ℓ} → (ℕ → B) → ℕ → B → ℕ → B
update f a b = λ x. if x == a then b else f x

-- A buffer of the zeroed allocation.
abbrev pub zero_buffer : AudioBuffer
zero_buffer = record {
  base = 0;
  read = 0;
  write = 0;
  size = 0;
  size_mask = 0;
  silence = 0;
  flags = 0;
  shared_id = 0;
  input_type = 0;
  input_id = 0;
  input_element_id = 0;
  output_type = 0;
  output_id = 0;
  output_element_id = 0;
}

abbrev pub storage_periods : PipelineConfig → ℕ → ℕ
storage_periods c id = elim (get_elem? c.storage id) [ none ↦ 0 | some s ↦ s.periods ]

module _ {ℓ} {A : Type ℓ} (silent : A) (i : Interface) where
  -- One round of the loop of `audio_pipeline_buffer_init`, for the pipeline at `p`.
  unfoldable pub init_buffer : PipelineConfig → ℕ → State A → BufferConfig → AudioBuffer × Memory A
  init_buffer c p st b =
      let base =
        (p + storage_base i.sizes i.data_size c) / sizeof_sample + buffer_storage_off c b.storage in
      let size = mul32 (storage_periods c b.storage) c.period in
      if has_flag b.flags audio_buffer_flag_shared_user
      then (elim (shared_buffer_find st.heap st.table b.shared_id) [
        | none ↦ (zero_buffer, st.memory)
        | some s ↦ audio_buf_init silent s.base s.size 0 b.flags b.shared_id st.memory
      ])
      else if has_flag b.flags audio_buffer_flag_shared
      then audio_buf_init silent base size c.period b.flags b.shared_id st.memory
      else audio_buf_init silent base size 0 0 0 st.memory

  unfoldable pub init_buffers :
      PipelineConfig → ℕ → State A → List BufferConfig → List AudioBuffer × Memory A
  unfolding init_buffer
  init_buffers c p st [] = ([], st.memory)
  init_buffers c p st (b ∷ bs) =
      let (buf, m) = init_buffer c p st b in
      let (bufs, m') = init_buffers c p (record st { memory = m }) bs in (buf ∷ bufs, m')

  -- The elements of a stage: `ids` counts the elements of each type so far. `none` is a failed set-up.
  unfoldable pub init_elements : (ℕ → ℕ) → List ElementConfig → Option (List Element × (ℕ → ℕ))
  init_elements ids [] = some ([], ids)
  init_elements ids (e ∷ es) =
      let element : Element = record {
        type = e.type;
        sample_rate = e.sample_rate;
        period = e.period;
        element_id = ids e.type;
      } in
      let rest = init_elements (update ids e.type (ids e.type + 1)) es in
      if i.init_element element e
      then (elim rest [ none ↦ none | some (xs, ids') ↦ some (element ∷ xs, ids') ])
      else none

  unfoldable pub init_stages : (ℕ → ℕ) → List StageConfig → Option (List (List Element))
  unfolding init_elements
  init_stages ids [] = some []
  init_stages ids (s ∷ ss) = elim (init_elements ids (elements_of s)) [
    | none ↦ none
    | some (xs, ids') ↦ (elim (init_stages ids' ss) [ none ↦ none | some xss ↦ some (xs ∷ xss) ])
  ]

  -- `err_add`: the allocation is freed.
  abbrev pub freed : State A → ℕ → State A
  freed st p = record st { live = update st.live p false }

  -- From the allocation at `p` on. `none` is NULL.
  unfoldable pub init_at : PipelineConfig → ℕ → State A → Option ℕ × State A
  unfolding init_buffers init_stages
  init_at c p st =
      let (bufs, m) = init_buffers c p st (buffers_of c) in
      let st' : State A = record st { live = update st.live p true; memory = m } in
      elim (table_add p st.table) [
        | none ↦ (none, freed st' p)
        | some t ↦ (elim (init_stages (λ type. 0) (stages_of c)) [
          | none ↦ (none, freed (record st' { table = table_del p t }) p)
          | some xss ↦ (
            some p,
            record st' {
              table = t;
              heap = update st.heap p (record { stage = xss; buffer = bufs });
            },
          )
        ])
      ]

  -- `audio_pipeline_init`
  unfoldable pub pipeline_init : PipelineConfig → State A → Option ℕ × State A
  unfolding init_at
  pipeline_init config st =
      let c = set_config config in
      if early_config_check config && config_check i.check_element c
      then (elim (i.malloc (alloc_size i.sizes i.data_size c)) [
        | none ↦ (none, st)
        | some p ↦ init_at c p st
      ])
      else (none, st)

  -- `audio_pipeline_exit`, after the elements' own exits.
  unfoldable pub pipeline_exit : ℕ → State A → State A
  pipeline_exit p st = record st { table = table_del p st.table; live = update st.live p false }

  -- The address is free, and the table has no entry for it.
  abbrev pub IsFresh : State A → ℕ → Type 0
  IsFresh st p = (st.live p ≡ false) × IsAbsent p st.table

  marks_undone :
      (live : ℕ → Bool) (p : ℕ) → live p ≡ false → update (update live p true) p false ≡ live
  marks_undone live p e = fun_ext λ x. elim (Bool-cases (x == p)) [
    | inl same ↦ ground (arith, same, e, (==_iff x p).0)
    | inr other ↦ rw other refl
  ]

  init_at_fails :
      (c : PipelineConfig) (p : ℕ) (st : State A)
      → IsFresh st p
      → (init_at c p st).0 ≡ none
      → let st' = (init_at c p st).1 in (st'.table ≡ st.table) × (st'.live ≡ st.live)
  unfolding init_at
  init_at_fails c p st (unused, absent) = elim (Option-cases (table_add p st.table)) [
    | inl full ↦ rw (full, init_at) λ h. (refl, marks_undone st.live p unused)
    | inr (t, added) ↦
        rw (added, init_at)
          (elim (Option-cases (init_stages (λ type. 0) (stages_of c))) [
            | inl failed ↦
                rw failed
                  λ h. (table_del-add p st.table absent added, marks_undone st.live p unused)
            | inr (xss, built) ↦ rw built λ h. cc
          ])
  ]

  -- A failed set-up leaves the table and the allocations as they were, whichever step failed, if the
  -- allocator gives an address that is neither live nor in the table.
  pub init_fails :
      (c : PipelineConfig) (st : State A)
      → ((n p : ℕ) → i.malloc n ≡ some p → IsFresh st p)
      → (pipeline_init c st).0 ≡ none
      → let st' = (pipeline_init c st).1 in (st'.table ≡ st.table) × (st'.live ≡ st.live)
  unfolding pipeline_init
  init_fails c st fresh =
      elim (Bool-cases (early_config_check c && config_check i.check_element (set_config c))) [
        | inr rejected ↦ rw rejected λ h. (refl, refl)
        | inl checked ↦
            rw checked
              (elim (Option-cases (i.malloc (alloc_size i.sizes i.data_size (set_config c)))) [
                | inl no_memory ↦ rw no_memory λ h. (refl, refl)
                | inr (p, got) ↦ rw got (init_at_fails (set_config c) p st (fresh _ p got))
              ])
      ]

-- ===== src/Audio/Pipeline/Tests.antt =====
-- A pipeline of two stages with one element each: buffer 0 goes through buffer 1 to buffer 2.
use rtos_apps.Base.{
  ℕ, ◌+◌, ◌*◌, ◌≤◌, ◌≡◌, ◌≢◌, ◌↔◌, refl, arith, Bool, true, false, Option, none, some, [], ◌∷◌,
  get_elem?, All, if◌then◌else◌, ◌==◌,
}
use mathlib.Core.Option.{some-injective}
use rtos_apps.Audio.Buffer.{AudioBuffer}
use rtos_apps.Audio.Pipeline.Config.{
  PipelineConfig, StageConfig, ElementConfig, BufferConfig, StorageConfig, early_config_check,
  config_check, count_output,
}
use rtos_apps.Audio.Pipeline.Check.{IsWellFormed, config_check_iff}
use rtos_apps.Audio.Pipeline.Defaults.{set_config, set_config_twice}
use rtos_apps.Audio.Pipeline.Layout.{
  sizeof_sample, buffer_storage_off, buffer_storage_size, given_base_overlaps, storages_apart,
}
use rtos_apps.Audio.Pipeline.Table.{
  Element, Pipeline, Table, table_add, table_del, table_find, element_find, of_type, all_elements,
  IsAbsent, shared_buffer_find, find_shared, table_add-none, table_del-add, table_find-add,
  shared_buffer_find-del,
}
use rtos_apps.Audio.Pipeline.Table.Search.{element_find_lem}
use rtos_apps.Audio.Pipeline.Build.{
  State, Interface, pipeline_init, init_at, init_stages, init_elements, init_fails,
}
use rtos_apps.Audio.Pipeline.Execute.{run_elements, pipeline_run, pipeline_run_lem}

abbrev through : ℕ → ℕ → ElementConfig
through input output = record {
  type = 1;
  inputs = 1;
  input = input ∷ [];
  outputs = 1;
  output = output ∷ [];
  period = 8;
  sample_rate = 48000;
}

abbrev stage : ElementConfig → StageConfig
stage e = record { elements = 1; element = e ∷ [] }

abbrev buffer : ℕ → BufferConfig
buffer n = record { storage = n; flags = 0; shared_id = 0 }

abbrev allocated : StorageConfig
allocated = record { base = none; periods = 2 }

abbrev config : PipelineConfig
config = record {
  period = 8;
  sample_rate = 48000;
  stages = 2;
  stage = stage (through 0 1) ∷ stage (through 1 2) ∷ [];
  buffers = 3;
  buffer = buffer 0 ∷ buffer 1 ∷ buffer 2 ∷ [];
  buffer_storage = 3;
  storage = allocated ∷ (record { base = some 4096; periods = 2 }) ∷ allocated ∷ [];
}

config_check_iff_example :
    (config_check (λ e. true) config ≡ true) ↔ IsWellFormed (λ e. true) config
config_check_iff_example = config_check_iff (λ e. true) config

accepted : config_check (λ e. true) config ≡ true
unfolding config_check count_output
accepted = refl

early : early_config_check config ≡ true
unfolding early_config_check
early = refl

set_config_twice_run : set_config (set_config config) ≡ set_config config
set_config_twice_run = set_config_twice config early

given_base_overlaps_run : buffer_storage_off config 2 ≡ buffer_storage_off config 1
given_base_overlaps_run =
    given_base_overlaps config 1 (record { base = some 4096; periods = 2 }) 4096 refl refl

storages_apart_example :
    (buffer_storage_off config 0 + 16 ≤ buffer_storage_off config 2)
    × ((buffer_storage_off config 2 + 16) * sizeof_sample ≤ buffer_storage_size config)
storages_apart_example =
    storages_apart config 0 2 allocated allocated (omega arith) refl refl (omega arith)
      (omega arith)

abbrev table : Table
table = some 40 ∷ none ∷ none ∷ none ∷ []

registered : table_add 50 table ≡ some (some 40 ∷ some 50 ∷ none ∷ none ∷ [])
unfolding table_add
registered = refl

absent : IsAbsent 50 table
absent = (λ e. omega (arith, some-injective 40 50 e), ((λ e. cc), ((λ e. cc), ((λ e. cc), tt))))

table_add-none_run : (table_add 50 table ≡ none) ↔ All (λ e. e ≢ none) table
table_add-none_run = table_add-none 50 table

table_del-add_run : table_del 50 (some 40 ∷ some 50 ∷ none ∷ none ∷ []) ≡ table
table_del-add_run = table_del-add 50 table absent registered

table_find-add_run :
    (i : ℕ) × (table_find (some 40 ∷ some 50 ∷ none ∷ none ∷ []) i ≡ some 50)
    × (table_find table i ≡ none)
    × ((j : ℕ) → j ≢ i → table_find (some 40 ∷ some 50 ∷ none ∷ none ∷ []) j ≡ table_find table j)
table_find-add_run = table_find-add 50 table refl registered

abbrev element : ℕ → ℕ → Element
element type id = record { type = type; sample_rate = 48000; period = 8; element_id = id }

abbrev pipeline : Pipeline
pipeline = record {
  stage = (element 1 0 ∷ element 2 0 ∷ []) ∷ (element 1 1 ∷ []) ∷ [];
  buffer = [];
}

element_find_lem_run :
    element_find pipeline 1 1 ≡ get_elem? (of_type 1 (all_elements pipeline.stage)) 1
element_find_lem_run = element_find_lem pipeline 1 1

second : get_elem? (of_type 1 (all_elements pipeline.stage)) 1 ≡ some (element 1 1)
second = refl

-- The pipeline at 50 shares a buffer with the id 6.
abbrev shared : AudioBuffer
shared = record {
  base = 0;
  read = 0;
  write = 0;
  size = 8;
  size_mask = 7;
  silence = 0;
  flags = 1;
  shared_id = 6;
  input_type = 0;
  input_id = 0;
  input_element_id = 0;
  output_type = 0;
  output_id = 0;
  output_element_id = 0;
}

abbrev heap : ℕ → Pipeline
heap p = if p == 50 then record pipeline { buffer = shared ∷ [] } else pipeline

before : shared_buffer_find heap (some 40 ∷ some 50 ∷ []) 6 ≡ some shared
unfolding shared_buffer_find find_shared
before = refl

shared_buffer_find-del_run :
    shared_buffer_find heap (table_del 40 (some 40 ∷ some 50 ∷ [])) 6 ≡ none
shared_buffer_find-del_run = shared_buffer_find-del heap 40 (some 50 ∷ []) 6

abbrev interface : Interface
interface = record {
  check_element = λ e. true;
  data_size = λ e. 16;
  init_element = λ e c. false;
  malloc = λ n. some 50;
  sizes = record { pipeline = 16; stage = 8; element = 64; buffer = 56 };
}

abbrev state : State ℕ
state = record { table = table; heap = heap; live = λ p. p == 40; memory = λ a. a }

abbrev after : Option ℕ × State ℕ
after = pipeline_init 0 interface config state

failed : after.0 ≡ none
unfolding pipeline_init init_at init_stages early_config_check config_check count_output table_add
    init_elements set_config
failed = refl

init_fails_example : (after.1.table ≡ table) × (after.1.live ≡ (λ p. p == 40))
init_fails_example =
    init_fails 0 interface config state (λ n p e. ground (arith, some-injective 50 p e, absent))
      failed

-- An element adds its type to the state, and one of type 2 fails.
abbrev run_element : Element → ℕ → Bool × ℕ
run_element e s = (if e.type == 2 then false else true, s + e.type)

pipeline_run_lem_run :
    pipeline_run run_element pipeline.stage 0
    ≡ run_elements run_element (all_elements pipeline.stage) 0
pipeline_run_lem_run = pipeline_run_lem run_element pipeline.stage 0

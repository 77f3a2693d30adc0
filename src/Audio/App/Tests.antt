-- ===== src/Audio/App/Tests.antt =====
-- An application of two data threads over a state that counts its pipelines, and the theorems at it.
use rtos_apps.Base.{
  ◌==◌, ℕ, ◌+◌, ◌-◌, ◌≡◌, refl, arith, true, false, Option, none, some, List, [], ◌∷◌, All,
}
use rtos_apps.Audio.App.{
  ModeHandler, Hardware, DataThread, DataCtx, AudioCmdRun, RunConfig, audio_run, audio_stop,
  run_pipelines, init_handles,
}
use rtos_apps.Audio.App.Live.{Counts, one_if, count_handles, run_stop, run_leaks}
use rtos_apps.Audio.App.Play.{PipelineApi, PlayState, play_handler, play-Counts}
use rtos_apps.Audio.App.Threads.{
  ThreadCalls, DataThreadRes, InitCalls, IsIdle, IsRunning, rtos_apps_audio_init, init_threads,
  audio_init_lem, ctrl_failure_leaks,
}

abbrev handler : ModeHandler ℕ ℕ ℕ
handler = record { init = λ c s. (some s, s + 1); exit = λ k s. s - 1; run = λ k e s. (true, s) }

abbrev hardware : Hardware ℕ
hardware = record { sai_setup = λ s. (true, s); sai_close = λ s. s }

abbrev broken : Hardware ℕ
broken = record { sai_setup = λ s. (false, s); sai_close = λ s. s }

abbrev waiting : DataThread ℕ
waiting = record { queue = []; handle = none }

abbrev stopped : DataCtx ℕ ℕ
stopped = record {
  pipeline_count = 0;
  sample_rate = 0;
  period = 0;
  callback_err = 0;
  callback = 0;
  threads = waiting ∷ waiting ∷ [];
  handler = false;
  world = 0;
}

abbrev command : AudioCmdRun
command = record { id = 1; config_idx = 0; period = 16; frequency = 0 }

abbrev configs : RunConfig → Option (Option (List (Option ℕ)))
configs c = some (some (some 5 ∷ none ∷ []))

handler-Counts :
    (hw : Hardware ℕ)
    → ((s : ℕ) → (hw.sai_setup s).1 ≡ s)
    → ((s : ℕ) → hw.sai_close s ≡ s)
    → Counts handler hw (λ k. true) (λ s. s)
handler-Counts hw setup close = record {
  init_some = λ c s k e. refl;
  init_none = λ c s e. ground arith;
  exit_one = λ k s. refl;
  setup_keeps = setup;
  close_keeps = close;
}

-- Pipelines that are counted by their handles, which are their numbers.
abbrev by_handle : ModeHandler (ℕ → ℕ) ℕ ℕ
by_handle = record {
  init = λ c s. (some c.pipeline_id, λ q. s q + one_if (c.pipeline_id == q));
  exit = λ k s q. s q - one_if (k == q);
  run = λ k e s. (true, s);
}

abbrev working : Hardware (ℕ → ℕ)
working = record { sai_setup = λ s. (true, s); sai_close = λ s. s }

by_handle-Counts : Counts by_handle working (λ k. k == 1) (λ s. s 1)
by_handle-Counts = record {
  init_some = λ c s k e. ground arith;
  init_none = λ c s e. cc;
  exit_one = λ k s. refl;
  setup_keeps = λ s. refl;
  close_keeps = λ s. refl;
}

abbrev empty : DataCtx (ℕ → ℕ) ℕ
empty = record {
  pipeline_count = 0;
  sample_rate = 0;
  period = 0;
  callback_err = 0;
  callback = 0;
  threads = waiting ∷ waiting ∷ [];
  handler = false;
  world = λ q. 0;
}

abbrev two_configs : RunConfig → Option (Option (List (Option ℕ)))
two_configs c = some (some (some 5 ∷ some 6 ∷ []))

-- Of two pipelines, the one with the handle 1.
run_stop_example :
    let r = audio_run by_handle working (8 ∷ 16 ∷ []) two_configs command empty in
    (r.0.handler ≡ true)
    × (r.0.world 1 ≡ 0 + count_handles (λ k. k == 1) r.0.pipeline_count r.0.threads)
    × (count_handles (λ k. true) r.0.pipeline_count r.0.threads ≡ r.0.pipeline_count)
    × ((audio_stop by_handle working r.0).handler ≡ false)
    × ((audio_stop by_handle working r.0).world 1 ≡ 0)
unfolding audio_run
run_stop_example =
    run_stop by_handle working (λ k. k == 1) (λ s. s 1) by_handle-Counts (8 ∷ 16 ∷ []) two_configs
      command empty refl

run_leaks_example :
    let r = run_pipelines handler broken (5 ∷ 6 ∷ []) 48000 16 stopped in
    (r.1 ≡ false)
    × (audio_stop handler broken r.0 ≡ r.0)
    × ((audio_stop handler broken r.0).world ≡ 0 + 2)
unfolding init_handles
run_leaks_example =
    run_leaks handler broken (λ s. s) (handler-Counts broken (λ s. refl) (λ s. refl)) (5 ∷ 6 ∷ [])
      48000 16 stopped refl (omega arith) refl refl

abbrev pipelines : PipelineApi ℕ ℕ ℕ
pipelines = record {
  pipeline_init = λ c s. (some c.pipeline_id, s + 1);
  pipeline_exit = λ p s. s - 1;
  pipeline_run = λ p s. (true, s);
  pipeline_reset = λ p s. s;
}

abbrev play_hardware : Hardware (PlayState ℕ ℕ)
play_hardware = record { sai_setup = λ s. (true, s); sai_close = λ s. s }

play-Counts_run : Counts (play_handler pipelines) play_hardware (λ p. true) (λ s. s.contexts)
play-Counts_run = play-Counts pipelines play_hardware (λ s. refl) (λ s. refl)

abbrev idle : DataThreadRes
idle = record { sem = false; mqueue = false; thread = false }

abbrev succeeds : ℕ → ThreadCalls
succeeds i = record { mutex_inits = true; sem_inits = true; mqueue_allocs = true; creates = true }

abbrev no_ctrl : InitCalls
no_ctrl = record {
  allocates = true;
  reset_mutex_inits = true;
  data_threads = succeeds;
  creates_ctrl = false;
}

both-IsIdle : All IsIdle (idle ∷ idle ∷ [])
both-IsIdle = ((refl, refl, refl), ((refl, refl, refl), tt))

audio_init_lem_example :
    let r = rtos_apps_audio_init (record no_ctrl { creates_ctrl = true }) (idle ∷ idle ∷ []) in
    (r.1 ≡ true → (r.0.allocated ≡ true) × (r.0.ctrl ≡ true) × All IsRunning r.0.threads)
    × (r.1 ≡ false → true ≡ true → (r.0.allocated ≡ false) × All IsIdle r.0.threads)
audio_init_lem_example =
    audio_init_lem (record no_ctrl { creates_ctrl = true }) (idle ∷ idle ∷ []) both-IsIdle

ctrl_failure_leaks_run :
    ((rtos_apps_audio_init no_ctrl (idle ∷ idle ∷ [])).0.allocated ≡ false)
    × All IsRunning (rtos_apps_audio_init no_ctrl (idle ∷ idle ∷ [])).0.threads
unfolding init_threads
ctrl_failure_leaks_run =
    ctrl_failure_leaks no_ctrl (idle ∷ idle ∷ []) both-IsIdle refl refl refl refl

-- ===== src/Audio/App/Play.antt =====
-- audio/play_pipeline.c: the handler of a pipeline, whose functions audio/audio.c calls. The pipeline itself
-- is an interface, with handles `P` and configurations `C`; the build is that without AVB.
use rtos_apps.Base.{
  ℕ, ◌+◌, ◌-◌, ◌%◌, ◌^◌, ◌≡◌, ◌∙◌, refl, ap, Bool, true, Option, none, some, List, [], ◌∷◌, ◌==◌,
  if◌then◌else◌, elim_cases,
}
use rtos_apps.Audio.App.{
  Event, event_type_data, event_type_reset, event_type_reset_async, ModeHandler, Hardware,
  AudioConfig,
}
use rtos_apps.Audio.App.Live.{Counts}

-- audio_pipeline_init, audio_pipeline_exit, audio_pipeline_run and audio_pipeline_reset; `run` gives whether
-- its result is 0.
pub record PipelineApi {ℓ} (S C P : Type ℓ) : Type ℓ where
  pub pipeline_init : AudioConfig C → S → Option P × S
  pub pipeline_exit : P → S → S
  pub pipeline_run : P → S → Bool × S
  pub pipeline_reset : P → S → S

-- `struct pipeline_ctx`
pub record PipelineCtx {ℓ} (P : Type ℓ) : Type ℓ where
  pub id : ℕ
  pub pipeline : P
  pub run : ℕ
  pub err : ℕ

-- The contexts at their addresses, whatever stands there before and after their lives, the number of contexts that are allocated, the
-- results of the allocations to come, and the times that a semaphore was given.
pub record PlayState {ℓ} (S P : Type ℓ) : Type ℓ where
  pub inner : S
  pub heap : ℕ → PipelineCtx P
  pub contexts : ℕ
  pub mallocs : List (Option ℕ)
  pub given : ℕ

module _ {S C P : Type 0} (api : PipelineApi S C P) where
  abbrev head_of : List (Option ℕ) → Option ℕ
  head_of [] = none
  head_of (m ∷ ms) = m

  abbrev tail_of : List (Option ℕ) → List (Option ℕ)
  tail_of [] = []
  tail_of (m ∷ ms) = ms

  abbrev update : (ℕ → PipelineCtx P) → ℕ → PipelineCtx P → ℕ → PipelineCtx P
  update f a c = λ x. if x == a then c else f x

  -- The part behind the allocations, with the context at `p`; the configuration is freed on both ways.
  unfoldable pub init_pipeline : AudioConfig C → ℕ → PlayState S P → Option ℕ × PlayState S P
  init_pipeline cfg p s =
      let r = api.pipeline_init cfg s.inner in
      elim r.0 [
        | none ↦ (none, record s { inner = r.1 })
        | some pipeline ↦ (
          some p,
          record s {
            inner = r.1;
            contexts = s.contexts + 1;
            heap =
                update s.heap p
                  (record { id = cfg.pipeline_id; pipeline = pipeline; run = 0; err = 0 });
          },
        )
      ]

  unfoldable pub play_pipeline_init : AudioConfig C → PlayState S P → Option ℕ × PlayState S P
  unfolding init_pipeline
  play_pipeline_init cfg s =
      let s' = record s { mallocs = tail_of s.mallocs } in
      let s'' = record s { mallocs = tail_of (tail_of s.mallocs) } in
      elim (head_of s.mallocs) [
        | none ↦ (none, s')
        | some p ↦ elim (head_of (tail_of s.mallocs)) [
          | none ↦ (none, s'')
          | some config ↦ init_pipeline cfg p s''
        ]
      ]

  -- A handle is the address of a context.
  unfoldable pub play_pipeline_exit : ℕ → PlayState S P → PlayState S P
  play_pipeline_exit p s = record s {
    inner = api.pipeline_exit (s.heap p).pipeline s.inner;
    contexts = s.contexts - 1;
  }

  abbrev run_at : ℕ → PipelineCtx P → Event → PlayState S P → Bool × PlayState S P
  run_at p ctx event_type_data s =
      let r = api.pipeline_run ctx.pipeline s.inner in
      (
        r.0,
        record s {
          inner = r.1;
          heap = update s.heap p (record ctx {
            run = (ctx.run + 1) % 2 ^ 64;
            err = if r.0 then ctx.err else (ctx.err + 1) % 2 ^ 64;
          });
        },
      )
  run_at p ctx event_type_reset s =
      (true, record s { inner = api.pipeline_reset ctx.pipeline s.inner })
  run_at p ctx event_type_reset_async s =
      (true, record s { inner = api.pipeline_reset ctx.pipeline s.inner; given = s.given + 1 })

  unfoldable pub play_pipeline_run : ℕ → Event → PlayState S P → Bool × PlayState S P
  play_pipeline_run p e s = run_at p (s.heap p) e s

  -- `g_handler` of audio/audio.c.
  unfoldable pub play_handler : ModeHandler (PlayState S P) C ℕ
  unfolding play_pipeline_init play_pipeline_exit play_pipeline_run
  play_handler = record {
    init = play_pipeline_init;
    exit = play_pipeline_exit;
    run = play_pipeline_run;
  }

  abbrev IsCounted : ℕ → Option ℕ × PlayState S P → Type 0
  IsCounted n r = r.1.contexts ≡ elim r.0 [ none ↦ n | some p ↦ n + 1 ]

  init-IsCounted :
      (cfg : AudioConfig C) (s : PlayState S P) → IsCounted s.contexts (play_pipeline_init cfg s)
  unfolding play_pipeline_init init_pipeline
  init-IsCounted cfg s = elim_cases (IsCounted s.contexts) (head_of s.mallocs) refl (λ p.
      elim_cases (IsCounted s.contexts) (head_of (tail_of s.mallocs)) refl (λ config.
        elim_cases (IsCounted s.contexts) (api.pipeline_init cfg s.inner).0 refl
          (λ pipeline. refl)))

  -- The handler of the pipelines counts its contexts: a set-up adds one exactly if it gives a handle, whichever
  -- allocation or step fails, and an end takes one away. The hardware is one that leaves them.
  pub play-Counts :
      (hw : Hardware (PlayState S P))
      → ((s : PlayState S P) → (hw.sai_setup s).1.contexts ≡ s.contexts)
      → ((s : PlayState S P) → (hw.sai_close s).contexts ≡ s.contexts)
      → Counts play_handler hw (λ p. true) (λ s. s.contexts)
  unfolding play_handler play_pipeline_exit
  play-Counts hw setup close = record {
    init_some = λ cfg s p e.
        init-IsCounted cfg s ∙ ap (λ o. elim o [ none ↦ s.contexts | some p ↦ s.contexts + 1 ]) e;
    init_none = λ cfg s e.
        init-IsCounted cfg s ∙ ap (λ o. elim o [ none ↦ s.contexts | some p ↦ s.contexts + 1 ]) e;
    exit_one = λ p s. refl;
    setup_keeps = setup;
    close_keeps = close;
  }

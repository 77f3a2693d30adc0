-- ===== src/Audio/App.antt =====
-- audio/audio.c: the commands that start and stop the pipelines, and the events of their data threads. The
-- functions of a pipeline are those of its `struct mode_handler`; the SAI hardware and the
-- application's configurations are parameters. `H` are handles, `C` configurations of a pipeline, `S` is
-- the state that they work on.
pub mod Threads
pub mod Live
pub mod Play
mod Tests
use rtos_apps.Base.{
  ℕ, zero, suc, ◌+◌, ◌-◌, ◌*◌, ◌%◌, ◌^◌, Bool, true, false, ◌&&◌, ◌||◌, not, Option, none, some,
  List, [], ◌∷◌, ◌++◌, length, ltb, ◌==◌, if◌then◌else◌,
}

pub data Event : Type 0 where
  event_type_data event_type_reset event_type_reset_async : Event

-- `struct audio_config`, less the semaphore.
pub record AudioConfig {ℓ} (C : Type ℓ) : Type ℓ where
  pub rate : ℕ
  pub period : ℕ
  pub pipeline_id : ℕ
  pub config : C

-- `struct mode_handler`; `run` gives whether its result is 0.
pub record ModeHandler {ℓ} (S C H : Type ℓ) : Type ℓ where
  pub init : AudioConfig C → S → Option H × S
  pub exit : H → S → S
  pub run : H → Event → S → Bool × S

-- `sai_setup`, and `sai_close` with the end of the codecs.
pub record Hardware {ℓ} (S : Type ℓ) : Type ℓ where
  pub sai_setup : S → Bool × S
  pub sai_close : S → S

pub record DataThread {ℓ} (H : Type ℓ) : Type ℓ where
  pub queue : List Event
  pub handle : Option H

-- `handler` tells whether the handler is set; `threads` are those in use.
pub record DataCtx {ℓ} (S H : Type ℓ) : Type ℓ where
  pub pipeline_count : ℕ
  pub sample_rate : ℕ
  pub period : ℕ
  pub callback_err : ℕ
  pub callback : ℕ
  pub threads : List (DataThread H)
  pub handler : Bool
  pub world : S

pub record AudioCmdRun : Type 0 where
  pub id : ℕ
  pub config_idx : ℕ
  pub period : ℕ
  pub frequency : ℕ

-- `struct audio_app_run_config`
pub record RunConfig : Type 0 where
  pub index : ℕ
  pub rate : ℕ
  pub run_period : ℕ
  pub mode : ℕ

abbrev pub default_period : ℕ
default_period = 8

abbrev pub default_sample_rate : ℕ
default_sample_rate = 48000

-- The length of a thread's queue.
abbrev pub mqueue_len : ℕ
mqueue_len = 10

abbrev is_in : ℕ → List ℕ → Bool
is_in x [] = false
is_in x (y ∷ ys) = x == y || is_in x ys

-- `none` is the result -1.
unfoldable pub assign_nonzero_valid_val : ℕ → ℕ → List ℕ → Option ℕ
assign_nonzero_valid_val var value valid =
    if value == 0 then some var else if is_in value valid then some value else none

-- The configurations in front of the first that is missing, `n` at most.
unfoldable pub leading {ℓ} : {C : Type ℓ} → ℕ → List (Option C) → List C
leading zero cs = []
leading (suc n) [] = []
leading (suc n) (none ∷ cs) = []
leading (suc n) (some c ∷ cs) = c ∷ leading n cs

module _ {ℓ} {S C H : Type ℓ} (h : ModeHandler S C H) where
  unfoldable pub enqueue : Event → DataThread H → DataThread H × Bool
  enqueue e t =
      if ltb (length t.queue) mqueue_len
      then (record t { queue = t.queue ++ e ∷ [] }, true)
      else (t, false)

  -- The event for the first `n` threads, and how many queues were full.
  unfoldable pub send_event : Event → ℕ → List (DataThread H) → List (DataThread H) × ℕ
  unfolding enqueue
  send_event e zero ts = (ts, 0)
  send_event e (suc n) [] = ([], 0)
  send_event e (suc n) (t ∷ ts) =
      let r = enqueue e t in
      let rest = send_event e n ts in (r.0 ∷ rest.0, (if r.1 then 0 else 1) + rest.1)

  -- `rx_callback`, the interrupt of the hardware; the counters have 64 bits.
  unfoldable pub rx_callback : DataCtx S H → DataCtx S H
  unfolding send_event
  rx_callback ctx =
      let r = send_event event_type_data ctx.pipeline_count ctx.threads in
      record ctx {
        callback = (ctx.callback + 1) % 2 ^ 64;
        threads = r.0;
        callback_err = (ctx.callback_err + r.1) % 2 ^ 64;
      }

  -- The loop that sets up the pipelines from number `i` on: the threads, the state, and whether all have a handle.
  unfoldable pub init_handles :
      ℕ → ℕ → ℕ → List C → List (DataThread H) → S → List (DataThread H) × S × Bool
  init_handles rate period i [] ts s = (ts, s, true)
  init_handles rate period i (c ∷ cs) [] s = ([], s, false)
  init_handles rate period i (c ∷ cs) (t ∷ ts) s =
      let r = h.init (record { rate = rate; period = period; pipeline_id = i; config = c }) s in
      let rest = init_handles rate period (i + 1) cs ts r.1 in
      elim r.0 [
        | none ↦ (record t { handle = none } ∷ ts, r.1, false)
        | some k ↦ (record t { handle = some k } ∷ rest.0, rest.1, rest.2)
      ]

  -- The part of `audio_run` from the pipelines' set-up on.
  unfoldable pub run_pipelines : Hardware S → List C → ℕ → ℕ → DataCtx S H → DataCtx S H × Bool
  unfolding init_handles send_event
  run_pipelines hw cs rate period ctx =
      let base : DataCtx S H = record ctx {
        callback_err = 0;
        callback = 0;
        sample_rate = rate;
        period = period % 2 ^ 8;
      } in
      let r = init_handles rate period 0 cs ctx.threads ctx.world in
      let sai = hw.sai_setup r.1 in
      if length cs == 0
      then (base, false)
      else if r.2
      then (if sai.0
          then (
            record base {
              handler = true;
              pipeline_count = length cs;
              threads = (send_event event_type_data (length cs) r.0).0;
              world = sai.1;
            },
            true,
          )
          else (record base { threads = r.0; world = sai.1 }, false))
      else (record base { threads = r.0; world = r.1 }, false)

  -- `apply` is `audio_app_apply_config`, which fails with `none` and gives no pipelines with `some none`.
  unfoldable pub audio_run :
      Hardware S
      → List ℕ
      → (RunConfig → Option (Option (List (Option C))))
      → AudioCmdRun
      → DataCtx S H
      → DataCtx S H × Bool
  unfolding assign_nonzero_valid_val leading run_pipelines
  audio_run hw supported apply run ctx =
      let rate = if run.frequency == 0 then default_sample_rate else run.frequency in
      if ctx.handler
      then (ctx, false)
      else elim (assign_nonzero_valid_val default_period run.period supported) [
        | none ↦ (ctx, false)
        | some period ↦
            elim (apply (record {
              index = run.config_idx;
              rate = rate;
              run_period = period;
              mode = run.id;
            })) [
              | none ↦ (ctx, false)
              | some found ↦ elim found [
                | none ↦ (ctx, false)
                | some cfg ↦ run_pipelines hw (leading (length ctx.threads) cfg) rate period ctx
              ]
            ]
      ]

  -- The ends of the first `n` pipelines; a handle is set where the handler is.
  unfoldable pub exit_handles : ℕ → List (DataThread H) → S → S
  exit_handles zero ts s = s
  exit_handles (suc n) [] s = s
  exit_handles (suc n) (t ∷ ts) s =
      exit_handles n ts (elim t.handle [ none ↦ s | some k ↦ h.exit k s ])

  unfoldable pub audio_stop : Hardware S → DataCtx S H → DataCtx S H
  unfolding exit_handles
  audio_stop hw ctx =
      if ctx.handler
      then record ctx {
        handler = false;
        world = hw.sai_close (exit_handles ctx.pipeline_count ctx.threads ctx.world);
      }
      else ctx

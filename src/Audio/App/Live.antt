-- ===== src/Audio/App/Live.antt =====
-- audio/audio.c: the pipelines behind a run, and behind a stop.
use rtos_apps.Base.{
  ℕ, zero, suc, ◌+◌, ◌-◌, ◌<◌, ◌≡◌, ◌∙◌, refl, ap, ap₂, arith, Bool, true, false, Option, none,
  some, List, [], ◌∷◌, length, ◌==◌, if◌then◌else◌, if_cases, elim_cases, ==_ne, Option-cases, inl,
  inr,
}
use rtos_apps.Audio.App.{
  Event, event_type_data, ModeHandler, Hardware, DataThread, DataCtx, AudioConfig, AudioCmdRun,
  RunConfig, enqueue, send_event, init_handles, run_pipelines, audio_run, exit_handles, audio_stop,
  leading, assign_nonzero_valid_val, default_period, default_sample_rate,
}

abbrev pub one_if : Bool → ℕ
one_if b = if b then 1 else 0

-- `live` counts the pipelines of a state whose handles are those of `is`: a set-up that succeeds adds one if its handle
-- is, an end takes one away if its handle is, and nothing else changes their number.
pub record Counts {ℓ} {S C H : Type ℓ} (h : ModeHandler S C H) (hw : Hardware S) (is : H → Bool)
    (live : S → ℕ) : Type ℓ where
  pub init_some :
      (c : AudioConfig C) (s : S) (k : H)
      → (h.init c s).0 ≡ some k
      → live (h.init c s).1 ≡ live s + one_if (is k)
  pub init_none : (c : AudioConfig C) (s : S) → (h.init c s).0 ≡ none → live (h.init c s).1 ≡ live s
  pub exit_one : (k : H) (s : S) → live (h.exit k s) ≡ live s - one_if (is k)
  pub setup_keeps : (s : S) → live (hw.sai_setup s).1 ≡ live s
  pub close_keeps : (s : S) → live (hw.sai_close s) ≡ live s

abbrev pub is_handle {ℓ} : {H : Type ℓ} → (H → Bool) → Option H → ℕ
is_handle is none = 0
is_handle is (some k) = one_if (is k)

-- How many of the first `n` threads have a handle of `is`.
abbrev pub count_handles {ℓ} : {H : Type ℓ} → (H → Bool) → ℕ → List (DataThread H) → ℕ
count_handles is zero ts = 0
count_handles is (suc n) [] = 0
count_handles is (suc n) (t ∷ ts) = is_handle is t.handle + count_handles is n ts

abbrev is_some {ℓ} : {H : Type ℓ} → Option H → Bool
is_some none = false
is_some (some k) = true

-- The first `n` threads have handles.
abbrev HasHandles {ℓ} : {H : Type ℓ} → ℕ → List (DataThread H) → Type 0
HasHandles zero ts = Unit
HasHandles (suc n) [] = ⊥
HasHandles (suc n) (t ∷ ts) = (is_some t.handle ≡ true) × HasHandles n ts

is_handle-all {ℓ} : {H : Type ℓ} (o : Option H) → is_some o ≡ true → is_handle (λ k. true) o ≡ 1
is_handle-all none e = cc
is_handle-all (some k) e = refl

count_handles-all {ℓ} :
    {H : Type ℓ} (n : ℕ) (ts : List (DataThread H))
    → HasHandles n ts
    → count_handles (λ k. true) n ts ≡ n
count_handles-all zero ts k = refl
count_handles-all (suc n) [] k = absurd k
count_handles-all (suc n) (t ∷ ts) k =
    omega (arith, is_handle-all t.handle k.0, count_handles-all n ts k.1)

module _ {ℓ} {S C H : Type ℓ} (h : ModeHandler S C H) (hw : Hardware S) (is : H → Bool)
    (live : S → ℕ) (counts : Counts h hw is live) where
  -- A loop that succeeds adds the pipelines whose handles it gives.
  abbrev Started : ℕ → S → List (DataThread H) × S × Bool → Type 0
  Started n s r = r.2 ≡ true → (live r.1 ≡ live s + count_handles is n r.0) × HasHandles n r.0

  init_handles_live :
      (rate period i : ℕ) (cs : List C) (ts : List (DataThread H)) (s : S)
      → Started (length cs) s (init_handles h rate period i cs ts s)
  unfolding init_handles
  init_handles_live rate period i [] ts s = λ e. (omega arith, tt)
  init_handles_live rate period i (c ∷ cs) [] s = λ e. ground arith
  init_handles_live rate period i (c ∷ cs) (t ∷ ts) s =
      let a : AudioConfig C = record {
        rate = rate;
        period = period;
        pipeline_id = i;
        config = c;
      } in
      let ih = init_handles_live rate period (i + 1) cs ts (h.init a s).1 in
      elim (Option-cases (h.init a s).0) [
        | inl none_given ↦ rw (init_handles, none_given) (λ e. ground arith)
        | inr (k, given) ↦
            rw (init_handles, given)
              (λ e. (omega (arith, (ih e).0, counts.init_some a s k given), (refl, (ih e).1)))
      ]

  enqueue-handle : (e : Event) (t : DataThread H) → (enqueue h e t).0.handle ≡ t.handle
  unfolding enqueue
  enqueue-handle e t = ground arith

  count-send_event :
      (e : Event) (n m : ℕ) (ts : List (DataThread H))
      → count_handles is m (send_event h e n ts).0 ≡ count_handles is m ts
  unfolding send_event
  count-send_event e n zero ts = refl
  count-send_event e zero (suc m) ts = refl
  count-send_event e (suc n) (suc m) [] = refl
  count-send_event e (suc n) (suc m) (t ∷ ts) =
      ap₂ (λ o k. is_handle is o + k) (enqueue-handle e t) (count-send_event e n m ts)

  send_event-HasHandles :
      (e : Event) (n m : ℕ) (ts : List (DataThread H))
      → HasHandles m ts
      → HasHandles m (send_event h e n ts).0
  unfolding send_event
  send_event-HasHandles e n zero ts k = tt
  send_event-HasHandles e n (suc m) [] k = absurd k
  send_event-HasHandles e zero (suc m) (t ∷ ts) k = k
  send_event-HasHandles e (suc n) (suc m) (t ∷ ts) k =
      (ap is_some (enqueue-handle e t) ∙ k.0, send_event-HasHandles e n m ts k.1)

  exit_one_live :
      (o : Option H) (s : S)
      → live (elim o [ none ↦ s | some k ↦ h.exit k s ]) ≡ live s - is_handle is o
  exit_one_live none s = omega arith
  exit_one_live (some k) s = counts.exit_one k s

  exit_handles_live :
      (n : ℕ) (ts : List (DataThread H)) (s : S)
      → live (exit_handles h n ts s) ≡ live s - count_handles is n ts
  unfolding exit_handles
  exit_handles_live zero ts s = omega arith
  exit_handles_live (suc n) [] s = omega arith
  exit_handles_live (suc n) (t ∷ ts) s =
      exit_handles_live n ts (elim t.handle [ none ↦ s | some k ↦ h.exit k s ])
      ∙ ap (λ x. x - count_handles is n ts) (exit_one_live t.handle s)
      ∙ omega arith

  -- A run that succeeds, from the state `s` on, and a stop after it.
  abbrev Restores : S → DataCtx S H × Bool → Type 0
  Restores s r =
      r.1 ≡ true
      → (r.0.handler ≡ true)
        × (live r.0.world ≡ live s + count_handles is r.0.pipeline_count r.0.threads)
        × (count_handles (λ k. true) r.0.pipeline_count r.0.threads ≡ r.0.pipeline_count)
        × ((audio_stop h hw r.0).handler ≡ false)
        × (live (audio_stop h hw r.0).world ≡ live s)

  refused : {b c : Bool} (ctx : DataCtx S H) → b ≡ c → Restores ctx.world (ctx, false)
  refused ctx e f = ground arith

  run_pipelines-Restores :
      (cs : List C) (rate period : ℕ) (ctx : DataCtx S H)
      → Restores ctx.world (run_pipelines h hw cs rate period ctx)
  unfolding run_pipelines audio_stop
  run_pipelines-Restores cs rate period ctx =
      let r : List (DataThread H) × S × Bool =
        init_handles h rate period 0 cs ctx.threads ctx.world in
      if_cases (Restores ctx.world) (length cs == 0) (λ e f. ground arith)
        (λ e.
          if_cases (Restores ctx.world) r.2
            (λ e'.
              if_cases (Restores ctx.world) (hw.sai_setup r.1).0
                (λ e'' f.
                  let k = init_handles_live rate period 0 cs ctx.threads ctx.world e' in
                  let ts = (send_event h event_type_data (length cs) r.0).0 in
                  let has = send_event-HasHandles event_type_data (length cs) (length cs) r.0 k.1 in
                  let kept = counts.setup_keeps r.1 in
                  let same = count-send_event event_type_data (length cs) (length cs) r.0 in
                  let ended = exit_handles_live (length cs) ts (hw.sai_setup r.1).1 in
                  let closed =
                    counts.close_keeps (exit_handles h (length cs) ts (hw.sai_setup r.1).1) in
                  (
                    refl,
                    omega (arith, k.0, kept, same),
                    count_handles-all (length cs) ts has,
                    refl,
                    omega (arith, k.0, kept, same, ended, closed),
                  ))
                (λ e'' f. ground arith))
            (λ e' f. ground arith))

  -- A run that succeeds sets up as many pipelines as it counts, each with a handle, and the stop after it ends each of
  -- them: whichever handles are looked at, the pipelines with them are behind the run those before it and those of the
  -- threads, and behind the stop those before the run, if a set-up and an end change them by one for such a handle and by
  -- nothing for another.
  pub run_stop :
      (supported : List ℕ) (apply : RunConfig → Option (Option (List (Option C))))
      (cmd : AudioCmdRun) (ctx : DataCtx S H)
      → (audio_run h hw supported apply cmd ctx).1 ≡ true
      → let r = audio_run h hw supported apply cmd ctx in
        (r.0.handler ≡ true)
        × (live r.0.world ≡ live ctx.world + count_handles is r.0.pipeline_count r.0.threads)
        × (count_handles (λ k. true) r.0.pipeline_count r.0.threads ≡ r.0.pipeline_count)
        × ((audio_stop h hw r.0).handler ≡ false)
        × (live (audio_stop h hw r.0).world ≡ live ctx.world)
  unfolding audio_run
  run_stop supported apply cmd ctx =
      let rate : ℕ = if cmd.frequency == 0 then default_sample_rate else cmd.frequency in
      let config : ℕ → RunConfig = λ period. record {
        index = cmd.config_idx;
        rate = rate;
        run_period = period;
        mode = cmd.id;
      } in
      if_cases (Restores ctx.world) ctx.handler (refused ctx) (λ e.
        elim_cases (Restores ctx.world)
          (assign_nonzero_valid_val default_period cmd.period supported) (refused ctx e)
          (λ period.
            elim_cases (Restores ctx.world) (apply (config period)) (refused ctx e) (λ found.
              elim_cases (Restores ctx.world) found (refused ctx e) (λ cfg.
                run_pipelines-Restores (leading (length ctx.threads) cfg) rate period ctx))))

module _ {ℓ} {S C H : Type ℓ} (h : ModeHandler S C H) (hw : Hardware S) (live : S → ℕ)
    (counts : Counts h hw (λ k. true) live) where
  -- A run whose hardware fails, after the pipelines were set up, leaves them set up: a stop does not end
  -- them, since the handler is not set.
  pub run_leaks :
      (cs : List C) (rate period : ℕ) (ctx : DataCtx S H)
      → ctx.handler ≡ false
      → 0 < length cs
      → (init_handles h rate period 0 cs ctx.threads ctx.world).2 ≡ true
      → (hw.sai_setup (init_handles h rate period 0 cs ctx.threads ctx.world).1).0 ≡ false
      → let r = run_pipelines h hw cs rate period ctx in
        (r.1 ≡ false)
        × (audio_stop h hw r.0 ≡ r.0)
        × (live (audio_stop h hw r.0).world ≡ live ctx.world + length cs)
  unfolding run_pipelines audio_stop
  run_leaks cs rate period ctx idle lt started fails =
      let r : List (DataThread H) × S × Bool =
        init_handles h rate period 0 cs ctx.threads ctx.world in
      let k =
        init_handles_live h hw (λ x. true) live counts rate period 0 cs ctx.threads ctx.world
          started in
      let all = count_handles-all (length cs) r.0 k.1 in
      let kept = counts.setup_keeps r.1 in
      rw (==_ne (length cs) 0 (λ e. omega (arith, e, lt)), started, fails, idle)
        (refl, refl, omega (arith, k.0, all, kept))

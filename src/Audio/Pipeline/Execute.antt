-- ===== src/Audio/Pipeline/Execute.antt =====
-- `audio_pipeline_run`, `audio_pipeline_reset` and the exits of the elements in `audio_pipeline_exit`: the walks
-- over the elements of all stages. What an element does is a parameter.
use rtos_apps.Base.{
  ◌≡◌, ◌∙◌, refl, sym, ap, Bool, true, false, List, [], ◌∷◌, ◌++◌, if◌then◌else◌, Bool-cases, inl,
  inr,
}
use rtos_apps.Audio.Pipeline.Table.{Element, all_elements}

module _ {ℓ} {S : Type ℓ} (run_element : Element → S → Bool × S) where
  -- The elements of a stage; the first that fails ends the run. The result is whether none failed.
  unfoldable pub run_elements : List Element → S → Bool × S
  run_elements [] s = (true, s)
  run_elements (e ∷ es) s =
      let (ok, s') = run_element e s in
      let rest = run_elements es s' in if ok then rest else (false, s')

  unfoldable pub pipeline_run : List (List Element) → S → Bool × S
  unfolding run_elements
  pipeline_run [] s = (true, s)
  pipeline_run (es ∷ ss) s =
      let (ok, s') = run_elements es s in
      let rest = pipeline_run ss s' in if ok then rest else (false, s')

  run_append :
      (es fs : List Element) (s : S)
      → run_elements (es ++ fs) s
        ≡ (let (ok, s') = run_elements es s in if ok then run_elements fs s' else (false, s'))
  unfolding run_elements
  run_append [] fs s = refl
  run_append (e ∷ es) fs s = elim (Bool-cases (run_element e s).0) [
    | inl good ↦ rw (good, run_elements) (run_append es fs (run_element e s).1)
    | inr bad ↦ rw (bad, run_elements) refl
  ]

  -- A run of the pipeline is that of its elements in the order of the stages, up to the first that fails.
  pub pipeline_run_lem :
      (ss : List (List Element)) (s : S) → pipeline_run ss s ≡ run_elements (all_elements ss) s
  unfolding pipeline_run run_elements
  pipeline_run_lem [] s = refl
  pipeline_run_lem (es ∷ ss) s =
      ap (λ (r : Bool × S). if (run_elements es s).0 then r else (false, (run_elements es s).1))
        (pipeline_run_lem ss (run_elements es s).1)
      ∙ sym (run_append es (all_elements ss) s)

-- The walks of the reset and of the exits.
abbrev pub walk_stage {ℓ} : {S : Type ℓ} → (Element → S → S) → List Element → S → S
walk_stage f [] s = s
walk_stage f (e ∷ es) s = walk_stage f es (f e s)

unfoldable pub walk_elements {ℓ} : {S : Type ℓ} → (Element → S → S) → List (List Element) → S → S
walk_elements f [] s = s
walk_elements f (es ∷ ss) s = walk_elements f ss (walk_stage f es s)

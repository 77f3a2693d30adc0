-- ===== src/Audio/Sai/Sink/Room.antt =====
-- audio/audio_element_sai_sink.c: the room in the FIFOs for what a run writes.
use rtos_apps.Base.{
  ℕ, zero, suc, if_cases, Bool, false, Option, none, if◌then◌else◌, ◌+◌, ◌*◌, ◌%◌, ◌^◌, ◌<◌, ◌≤◌,
  ◌≡◌, refl, subst, ap, ◌∙◌, arith, true, some, List, [], ◌∷◌, get_elem?, mul32,
}
use mathlib.Core.Option.{some-injective}
use native.Mathlib.Nat.{mul-le-mul_right}
use rtos_apps.Audio.Pipeline.Config.{ElementConfig}
use rtos_apps.Audio.Pipeline.Table.{Element}
use rtos_apps.Audio.Sai.Config.{LineConfig, SaiConfig, check_lines_config, check_sais_config}
use rtos_apps.Audio.Sai.Source.{SaiLine}
use rtos_apps.Audio.Avtp.Defs.{Cells}
use rtos_apps.Audio.Sai.Sink.{
  SaiSink, check_tx_level, check_tx_levels, sai_sink_element_fifo_write, convert_inputs,
}
use rtos_apps.Audio.Sai.Sink.Frames.{carried, frames_given}
use rtos_apps.Audio.Sai.Sink.Run.{
  World, written, silenced, run_started, run_first, sai_sink_element_run,
  sai_sink_element_check_config,
}
use rtos_apps.Audio.Sai.Sink.Setup.{init_tx_line}

-- What the check of a line promises.
abbrev pub Accepted : (ℕ → ℕ) → ℕ → ℕ → LineConfig → Type 0
Accepted fifo_count period sai c =
    (c.channel_n ≤ 8) × (mul32 (mul32 2 c.channel_n) period ≤ fifo_count sai)

lines-Accepted :
    (fifo_count : ℕ → ℕ) (period sai : ℕ) (cs : List LineConfig) (j : ℕ) (c : LineConfig)
    → check_lines_config fifo_count 2 period sai cs ≡ true
    → get_elem? cs j ≡ some c
    → Accepted fifo_count period sai c
unfolding check_lines_config
lines-Accepted fifo_count period sai [] j c h e = absurd (cc)
lines-Accepted fifo_count period sai (d ∷ ds) zero c h e =
    let first : Accepted fifo_count period sai d = ground arith in
    subst (Accepted fifo_count period sai) (some-injective _ _ e) first
lines-Accepted fifo_count period sai (d ∷ ds) (suc j) c h e =
    lines-Accepted fifo_count period sai ds j c (ground arith) e

sais-Accepted :
    (fifo_count : ℕ → ℕ) (period : ℕ) (ss : List SaiConfig) (i j : ℕ) (s : SaiConfig)
    (c : LineConfig)
    → check_sais_config fifo_count 2 period ss ≡ true
    → get_elem? ss i ≡ some s
    → get_elem? s.line j ≡ some c
    → Accepted fifo_count period s.id c
unfolding check_sais_config
sais-Accepted fifo_count period [] i j s c h e g = absurd (cc)
sais-Accepted fifo_count period (r ∷ rs) zero j s c h e g =
    let first : check_lines_config fifo_count 2 period r.id r.line ≡ true = ground arith in
    lines-Accepted fifo_count period s.id s.line j c
      (subst (λ (q : SaiConfig). check_lines_config fifo_count 2 period q.id q.line ≡ true)
        (some-injective _ _ e) first)
      g
sais-Accepted fifo_count period (r ∷ rs) (suc i) j s c h e g =
    sais-Accepted fifo_count period rs i j s c (ground arith) e g

-- A level that is accepted is at most the greatest.
level_max : (l l' : SaiLine) (level : ℕ) → check_tx_level l level ≡ some (l', true) → level ≤ l.max
unfolding check_tx_level
level_max l l' level h = ground arith

-- A product within 32 bits.
twice : (n p : ℕ) → n ≤ 8 → p < 2 ^ 28 → mul32 (mul32 2 n) p ≡ 2 * (n * p)
twice n p h lt =
    let le : n * p ≤ 8 * p = mul-le-mul_right p h in
    let small : 2 * n % 2 ^ 32 ≡ 2 * n = omega arith in rw small (omega arith)

once : (n p : ℕ) → n ≤ 8 → p < 2 ^ 28 → mul32 n p ≡ n * p
once n p h lt = let le : n * p ≤ 8 * p = mul-le-mul_right p h in omega arith

-- What a check that accepts all levels promises of each line.
abbrev InLimits : (ℕ → ℕ → ℕ) → List SaiLine → Option (List SaiLine × Bool) → Type 0
InLimits level ls o =
    (ls' : List SaiLine) (n : ℕ) (l : SaiLine)
    → o ≡ some (ls', true)
    → get_elem? ls n ≡ some l
    → level l.base l.id ≤ l.max

join-InLimits :
    (level : ℕ → ℕ → ℕ) (k : SaiLine) (ks : List SaiLine) (o : Option (SaiLine × Bool))
    (rest : Option (List SaiLine × Bool))
    → ((k' : SaiLine) → o ≡ some (k', true) → level k.base k.id ≤ k.max)
    → InLimits level ks rest
    → InLimits level (k ∷ ks) (elim o [
      | none ↦ none
      | some (l', true) ↦ elim rest [ none ↦ none | some (ls', ok) ↦ some (l' ∷ ls', ok) ]
      | some (l', false) ↦ some (l' ∷ ks, false)
    ])
join-InLimits level k ks none rest f g ls' n l h e = absurd (cc)
join-InLimits level k ks (some (k', false)) rest f g ls' n l h e = absurd (cc)
join-InLimits level k ks (some (k', true)) none f g ls' n l h e = absurd (cc)
join-InLimits level k ks (some (k', true)) (some (ms, false)) f g ls' n l h e = absurd (cc)
join-InLimits level k ks (some (k', true)) (some (ms, true)) f g ls' zero l h e =
    subst (λ (q : SaiLine). level q.base q.id ≤ q.max) (some-injective _ _ e) (f k' refl)
join-InLimits level k ks (some (k', true)) (some (ms, true)) f g ls' (suc n) l h e = g ms n l refl e

levels-InLimits :
    (level : ℕ → ℕ → ℕ) (ls : List SaiLine) → InLimits level ls (check_tx_levels level ls)
unfolding check_tx_levels
levels-InLimits level [] = λ ls' n l h e. absurd (cc)
levels-InLimits level (k ∷ ks) =
    join-InLimits level k ks (check_tx_level k (level k.base k.id)) (check_tx_levels level ks)
      (λ k' h. level_max k k' (level k.base k.id) h) (levels-InLimits level ks)

module _ {A : Type 0} (cells : Cells A) (period : ℕ) where
  written_given :
      (s : SaiSink) (w : World A) (a : ℕ)
      → (written cells period s w).fifos.given a ≡ w.fifos.given a + period * carried a s.map
  unfolding sai_sink_element_fifo_write
  written_given s w a =
      frames_given cells w.bufs (convert_inputs cells period s.inputs w.bufs w.memory) s.map period
        0 a w.fifos

  first_given :
      (s : SaiSink) (w : World A) (a : ℕ)
      → (run_first cells period s w).2.fifos.given a
        ≡ w.fifos.given a + 2 * (period * carried a s.map)
  unfolding run_first
  first_given s w a =
      written_given s (written cells period s (silenced cells period s w)) a
      ∙ ap (λ k. k + period * carried a s.map) (written_given s (silenced cells period s w) a)
      ∙ omega arith

  -- A run that succeeds: the words that a FIFO is given, with the level of a line before them where the element had
  -- started, are at most `room`, if a period of words and the limit of the line fit twice into it.
  abbrev KeepsRoom :
      (ℕ → ℕ → ℕ) → SaiSink → World A → ℕ → ℕ → SaiLine → Option (Bool × SaiSink × World A) → Type 0
  KeepsRoom level s w a room line o =
      (s' : SaiSink) (w' : World A)
      → o ≡ some (true, s', w')
      → w'.fifos.given a + (if s.started then level line.base line.id else 0)
        ≤ w.fifos.given a + room

  started-KeepsRoom :
      (level : ℕ → ℕ → ℕ) (s : SaiSink) (w : World A) (a room n : ℕ) (line : SaiLine)
      (o : Option (List SaiLine × Bool))
      → InLimits level s.line o
      → get_elem? s.line n ≡ some line
      → s.started ≡ true
      → line.max + period * carried a s.map ≤ room
      → KeepsRoom level s w a room line (run_started cells period s w o)
  unfolding run_started
  started-KeepsRoom level s w a room n line none f e on fits s' w' h = absurd (cc)
  started-KeepsRoom level s w a room n line (some (ls, false)) f e on fits s' w' h = absurd (cc)
  started-KeepsRoom level s w a room n line (some (ls, true)) f e on fits s' w' h =
      let same : written cells period s w ≡ w' = cc in
      let given = written_given s w a in
      let limit = f ls n line refl e in rw (← same, on) (omega arith)

  run-KeepsRoom :
      (level : ℕ → ℕ → ℕ) (s : SaiSink) (w : World A) (a room n : ℕ) (line : SaiLine)
      → get_elem? s.line n ≡ some line
      → line.max + period * carried a s.map ≤ room
      → 2 * (period * carried a s.map) ≤ room
      → KeepsRoom level s w a room line (sai_sink_element_run cells level period s w)
  unfolding sai_sink_element_run
  run-KeepsRoom level s w a room n line e fits twice_fits =
      if_cases (KeepsRoom level s w a room line) s.started
        (λ on.
          started-KeepsRoom level s w a room n line (check_tx_levels level s.line)
            (levels-InLimits level s.line) e on fits)
        (λ off s' w' h.
          let same : (run_first cells period s w).2 ≡ w' = cc in
          let given = first_given s w a in rw (← same, off) (omega arith))

-- In a configuration that the check accepts, with a period below 2 ^ 28, a run that succeeds gives the FIFO of a line
-- no more words than it has room for: they and, where the element had started, the level of the FIFO before the run are
-- together at most its size. The line has the limit of the set-up, and its FIFO carries the channels of this line only.
pub fifo_room :
    {A : Type 0} (cells : Cells A) (fifo_count : ℕ → ℕ) (config : ElementConfig)
    (sais : List SaiConfig) (i j n a base : ℕ) (c : SaiConfig) (d : LineConfig) (e : Element)
    (fresh line : SaiLine) (level : ℕ → ℕ → ℕ) (s s' : SaiSink) (w w' : World A)
    → sai_sink_element_check_config fifo_count config sais ≡ true
    → get_elem? sais i ≡ some c
    → get_elem? c.line j ≡ some d
    → e.period ≡ config.period
    → config.period < 2 ^ 28
    → get_elem? s.line n ≡ some line
    → line.max ≡ (init_tx_line e base c.id d fresh).max
    → carried a s.map ≡ d.channel_n
    → sai_sink_element_run cells level config.period s w ≡ some (true, s', w')
    → w'.fifos.given a + (if s.started then level line.base line.id else 0)
      ≤ w.fifos.given a + fifo_count c.id
unfolding sai_sink_element_check_config init_tx_line
fifo_room cells fifo_count config sais i j n a base c d e fresh line level s s' w w' h at_i at_j
      same small at_n max own ran =
    let checked : check_sais_config fifo_count 2 config.period sais ≡ true = ground arith in
    let accepted = sais-Accepted fifo_count config.period sais i j c d checked at_i at_j in
    let two = twice d.channel_n config.period accepted.0 small in
    let one = once d.channel_n config.period accepted.0 small in
    let limit : line.max ≡ d.channel_n * config.period = max ∙ ap (mul32 d.channel_n) same ∙ one in
    let words : config.period * carried a s.map ≡ d.channel_n * config.period =
      ap (λ k. config.period * k) own ∙ omega arith in
    run-KeepsRoom cells config.period level s w a (fifo_count c.id) n line at_n (omega arith)
      (omega arith) s' w' ran

-- The check does not compare the ids of lines: two that are the same are accepted, and share a FIFO.
pub same_line_accepted :
    (fifo_count : ℕ → ℕ) (period sai : ℕ) (c : LineConfig)
    → check_lines_config fifo_count 2 period sai (c ∷ []) ≡ true
    → check_lines_config fifo_count 2 period sai (c ∷ c ∷ []) ≡ true
unfolding check_lines_config
same_line_accepted fifo_count period sai c h = ground arith

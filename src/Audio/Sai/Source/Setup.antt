-- ===== src/Audio/Sai/Source/Setup.antt =====
-- audio/audio_element_sai_source.c: the set-up of a source, which gives each channel of each line an output.
use rtos_apps.Base.{
  ℕ, zero, suc, ◌+◌, true, false, Option, none, some, List, [], ◌∷◌, ◌++◌, map, mul32, get_or,
}
use rtos_apps.Stats.{stats_init}
use rtos_apps.Stats.Hist.{hist_init}
use rtos_apps.Audio.Pipeline.Config.{ElementConfig, outputs_of}
use rtos_apps.Audio.Pipeline.Table.{Element}
use rtos_apps.Audio.Routing.{Buffers, put}
use rtos_apps.Audio.Sai.Config.{LineConfig, SaiConfig}
use rtos_apps.Audio.Sai.Source.{SaiMap, SaiOutput, SaiLine, SaiSource}

-- `n` channels of a line, from the output `l` on; `out` are the addresses of the outputs.
unfoldable pub init_channels : Element → List ℕ → ℕ → ℕ → ℕ → Buffers → List SaiMap × Buffers
init_channels e out fifo zero l bufs = ([], bufs)
init_channels e out fifo (suc n) l bufs =
    let p = get_or out l 0 in
    let marked =
      put bufs p
        (record (bufs p) { input_type = e.type; input_element_id = e.element_id; input_id = l }) in
    let (maps, bufs') = init_channels e out fifo n (l + 1) marked in
    ((record { rx_fifo = fifo; out = p }) ∷ maps, bufs')

-- A line, over what its memory held; a histogram that is refused stays as it was.
unfoldable pub init_line : Element → ℕ → ℕ → LineConfig → SaiLine → SaiLine
init_line e base sai_id c l = record l {
  base = base;
  id = c.id;
  sai_id = sai_id;
  min = mul32 c.channel_n e.period;
  max = mul32 (mul32 2 c.channel_n) e.period;
  latency = stats_init l.latency 31 0 false;
  latency_hist = elim (hist_init l.latency_hist 16 1) [ none ↦ l.latency_hist | some h ↦ h ];
}

-- The lines of an interface; `fifo` is `__sai_rx_fifo_addr`, and `fresh` what a line's memory holds.
unfoldable pub init_lines :
    (ℕ → ℕ → ℕ)
    → SaiLine
    → Element
    → List ℕ
    → ℕ
    → ℕ
    → List LineConfig
    → ℕ
    → Buffers
    → List SaiLine × List SaiMap × ℕ × Buffers
unfolding init_channels init_line
init_lines fifo fresh e out base sai_id [] l bufs = ([], [], l, bufs)
init_lines fifo fresh e out base sai_id (c ∷ cs) l bufs =
    let (maps, bufs') = init_channels e out (fifo base c.id) c.channel_n l bufs in
    let (lines, maps', l', bufs'') =
      init_lines fifo fresh e out base sai_id cs (l + c.channel_n) bufs' in
    (init_line e base sai_id c fresh ∷ lines, maps ++ maps', l', bufs'')

-- The interfaces; `base_of` is `__sai_base`, none for NULL, which ends the set-up.
unfoldable pub init_sais :
    (ℕ → Option ℕ)
    → (ℕ → ℕ → ℕ)
    → SaiLine
    → Element
    → List ℕ
    → List SaiConfig
    → ℕ
    → Buffers
    → Option (List ℕ × List SaiLine × List SaiMap × Buffers)
unfolding init_lines
init_sais base_of fifo fresh e out [] l bufs = some ([], [], [], bufs)
init_sais base_of fifo fresh e out (s ∷ ss) l bufs = elim (base_of s.id) [
  | none ↦ none
  | some base ↦
      let (lines, maps, l', bufs') = init_lines fifo fresh e out base s.id s.line l bufs in
      elim (init_sais base_of fifo fresh e out ss l' bufs') [
        | none ↦ none
        | some (bases, lines', maps', bufs'') ↦
            some (base ∷ bases, lines ++ lines', maps ++ maps', bufs'')
      ]
]

-- `buffer` gives the addresses of the pipeline's buffers. `none` is the result -1.
unfoldable pub sai_source_element_init :
    (ℕ → Option ℕ)
    → (ℕ → ℕ → ℕ)
    → SaiLine
    → Element
    → ElementConfig
    → List SaiConfig
    → (ℕ → ℕ)
    → Buffers
    → Option (SaiSource × Buffers)
unfolding init_sais
sai_source_element_init base_of fifo fresh e c sais buffer bufs =
    let out = map buffer (outputs_of c) in
    elim (init_sais base_of fifo fresh e out sais 0 bufs) [
      | none ↦ none
      | some (bases, lines, maps, bufs') ↦ some (
        record {
          map = maps;
          out =
              map {B = SaiOutput}
                (λ p. record {
                  buf = p;
                  convert = true;
                  conversion = record { invert = false; shift = 0; mask = 0xffffffff };
                })
                out;
          line = lines;
          base = bases;
          started = false;
        },
        bufs',
      )
    ]

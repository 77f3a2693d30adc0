-- ===== src/Audio/Sai/Sink/Setup.antt =====
-- audio/audio_element_sai_sink.c: the set-up of a sink, which takes an input for each channel of each line.
use rtos_apps.Base.{
  ℕ, zero, suc, ◌+◌, true, false, Option, none, some, List, [], ◌∷◌, ◌++◌, map, mul32, get_or,
}
use rtos_apps.Stats.{stats_init}
use rtos_apps.Stats.Hist.{hist_init}
use rtos_apps.Audio.Pipeline.Config.{ElementConfig, inputs_of}
use rtos_apps.Audio.Pipeline.Table.{Element}
use rtos_apps.Audio.Routing.{Buffers, put}
use rtos_apps.Audio.Sai.Config.{LineConfig, SaiConfig}
use rtos_apps.Audio.Sai.Source.{SaiLine}
use rtos_apps.Audio.Sai.Sink.{SinkMap, SaiInput, SaiSink}

-- `n` channels of a line, from the input `l` on; `ins` are the addresses of the inputs.
unfoldable pub init_tx_channels : Element → List ℕ → ℕ → ℕ → ℕ → Buffers → List SinkMap × Buffers
init_tx_channels e ins fifo zero l bufs = ([], bufs)
init_tx_channels e ins fifo (suc n) l bufs =
    let p = get_or ins l 0 in
    let marked =
      put bufs p (record (bufs p) {
        output_type = e.type;
        output_element_id = e.element_id;
        output_id = l;
      }) in
    let (maps, bufs') = init_tx_channels e ins fifo n (l + 1) marked in
    ((record { tx_fifo = fifo; input = p }) ∷ maps, bufs')

-- A line, over what its memory held; a histogram that is refused stays as it was.
unfoldable pub init_tx_line : Element → ℕ → ℕ → LineConfig → SaiLine → SaiLine
init_tx_line e base sai_id c l = record l {
  base = base;
  id = c.id;
  sai_id = sai_id;
  min = 0;
  max = mul32 c.channel_n e.period;
  latency = stats_init l.latency 31 0 false;
  latency_hist = elim (hist_init l.latency_hist 16 1) [ none ↦ l.latency_hist | some h ↦ h ];
}

-- The lines of an interface; `fifo` is `__sai_tx_fifo_addr`, and `fresh` what a line's memory holds.
unfoldable pub init_tx_lines :
    (ℕ → ℕ → ℕ)
    → SaiLine
    → Element
    → List ℕ
    → ℕ
    → ℕ
    → List LineConfig
    → ℕ
    → Buffers
    → List SaiLine × List SinkMap × ℕ × Buffers
unfolding init_tx_channels init_tx_line
init_tx_lines fifo fresh e ins base sai_id [] l bufs = ([], [], l, bufs)
init_tx_lines fifo fresh e ins base sai_id (c ∷ cs) l bufs =
    let (maps, bufs') = init_tx_channels e ins (fifo base c.id) c.channel_n l bufs in
    let (lines, maps', l', bufs'') =
      init_tx_lines fifo fresh e ins base sai_id cs (l + c.channel_n) bufs' in
    (init_tx_line e base sai_id c fresh ∷ lines, maps ++ maps', l', bufs'')

-- The interfaces; `base_of` is `__sai_base`, none for NULL, which ends the set-up.
unfoldable pub init_tx_sais :
    (ℕ → Option ℕ)
    → (ℕ → ℕ → ℕ)
    → SaiLine
    → Element
    → List ℕ
    → List SaiConfig
    → ℕ
    → Buffers
    → Option (List ℕ × List SaiLine × List SinkMap × Buffers)
unfolding init_tx_lines
init_tx_sais base_of fifo fresh e ins [] l bufs = some ([], [], [], bufs)
init_tx_sais base_of fifo fresh e ins (s ∷ ss) l bufs = elim (base_of s.id) [
  | none ↦ none
  | some base ↦
      let (lines, maps, l', bufs') = init_tx_lines fifo fresh e ins base s.id s.line l bufs in
      elim (init_tx_sais base_of fifo fresh e ins ss l' bufs') [
        | none ↦ none
        | some (bases, lines', maps', bufs'') ↦
            some (base ∷ bases, lines ++ lines', maps ++ maps', bufs'')
      ]
]

-- `buffer` gives the addresses of the pipeline's buffers. `none` is the result -1.
unfoldable pub sai_sink_element_init :
    (ℕ → Option ℕ)
    → (ℕ → ℕ → ℕ)
    → SaiLine
    → Element
    → ElementConfig
    → List SaiConfig
    → (ℕ → ℕ)
    → Buffers
    → Option (SaiSink × Buffers)
unfolding init_tx_sais
sai_sink_element_init base_of fifo fresh e c sais buffer bufs =
    let ins = map buffer (inputs_of c) in
    elim (init_tx_sais base_of fifo fresh e ins sais 0 bufs) [
      | none ↦ none
      | some (bases, lines, maps, bufs') ↦ some (
        record {
          map = maps;
          inputs =
              map {B = SaiInput}
                (λ p. record {
                  buf = p;
                  convert = true;
                  conversion = record { invert = false; shift = 0; mask = 0xffffffff };
                })
                ins;
          line = lines;
          base = bases;
          started = false;
        },
        bufs',
      )
    ]

-- ===== src/Audio/Avb.antt =====
-- audio/audio_avb.c: the messages of the AVB stack to a pipeline, which become commands to the elements of streams.
-- The stack is a parameter. The responses to AECP commands are not modelled.
pub mod Lost
mod Tests
use rtos_apps.Base.{
  ℕ, zero, suc, ◌+◌, Bool, true, false, Option, none, some, List, [], ◌∷◌, ◌++◌, ◌==◌,
  if◌then◌else◌,
}
use rtos_apps.Base.Int.{ℤ, pos, negsuc}
use rtos_apps.Stats.{signed32}
use rtos_apps.Audio.Avtp.Defs.{StreamParams}
use rtos_apps.Audio.Pipeline.Table.{audio_pipeline_max_pipelines}

-- The types of the commands to the sources and sinks of streams.
pub data CmdType : Type 0 where
  source_connect source_disconnect source_set_handle : CmdType
  sink_connect sink_disconnect sink_set_handle : CmdType

-- `struct crf_stream`; the handle is that of the stack's stream.
pub record CrfStream : Type 0 where
  pub stream_handle : Option ℕ
  pub connected : Bool
  pub index : ℤ

-- `struct avtp_avb_ctx`
pub record AvbCtx : Type 0 where
  pub ctrl_h : Option ℕ
  pub controlled_h : Option ℕ
  pub clk_h : Option ℕ
  pub avb_handle : Option ℕ
  pub crf_stream : CrfStream

-- A command to an element 0 of streams: the pipeline, and what goes with the command.
pub data StreamCmd : Type 0 where
  set_handle : CmdType → ℕ → Option ℕ → StreamCmd
  connect : CmdType → ℕ → ℕ → StreamParams → StreamCmd
  disconnect : CmdType → ℕ → ℕ → StreamCmd

-- The loops over the pipelines hand the same command to each; `n` rounds from the pipeline `i` on.
unfoldable pub for_pipelines : (ℕ → StreamCmd) → ℕ → ℕ → List StreamCmd
for_pipelines cmd zero i = []
for_pipelines cmd (suc n) i = cmd i ∷ for_pipelines cmd n (i + 1)

unfoldable pub avtp_source_set_handle : Option ℕ → List StreamCmd
unfolding for_pipelines
avtp_source_set_handle h =
    for_pipelines (λ i. set_handle source_set_handle i h) audio_pipeline_max_pipelines 0

unfoldable pub avtp_sink_set_handle : Option ℕ → List StreamCmd
unfolding for_pipelines
avtp_sink_set_handle h =
    for_pipelines (λ i. set_handle sink_set_handle i h) audio_pipeline_max_pipelines 0

unfoldable pub listener_disconnect : ℕ → List StreamCmd
unfolding for_pipelines
listener_disconnect index =
    for_pipelines (λ i. disconnect source_disconnect i index) audio_pipeline_max_pipelines 0

unfoldable pub talker_disconnect : ℕ → List StreamCmd
unfolding for_pipelines
talker_disconnect index =
    for_pipelines (λ i. disconnect sink_disconnect i index) audio_pipeline_max_pipelines 0

unfoldable pub listener_connect : ℕ → StreamParams → List StreamCmd
unfolding for_pipelines
listener_connect index params =
    for_pipelines (λ i. connect source_connect i index params) audio_pipeline_max_pipelines 0

unfoldable pub talker_connect : ℕ → StreamParams → List StreamCmd
unfolding for_pipelines
talker_connect index params =
    for_pipelines (λ i. connect sink_connect i index params) audio_pipeline_max_pipelines 0

-- The stack's stream is destroyed with `stream_handle`.
unfoldable pub crf_disconnect : AvbCtx → AvbCtx
crf_disconnect ctx =
    if ctx.crf_stream.connected
    then (elim ctx.crf_stream.stream_handle [
      | none ↦ ctx
      | some h ↦ record ctx {
        crf_stream = record { stream_handle = none; connected = false; index = negsuc 0 };
      }
    ])
    else ctx

-- `created` is the handle of `genavb_stream_create`, if it succeeds.
unfoldable pub crf_connect : Option ℕ → ℕ → AvbCtx → AvbCtx
crf_connect created index ctx = if ctx.crf_stream.connected then ctx else elim created [
  | none ↦ ctx
  | some h ↦ record ctx {
    crf_stream = record { stream_handle = some h; connected = true; index = signed32 index };
  }
]

-- The messages of the media stack. A connection comes with whether its format is CRF, and whether this is the
-- listener; the clock source is set by the stack.
pub data Msg : Type 0 where
  media_stack_connect : ℕ → StreamParams → Bool → Bool → Msg
  media_stack_disconnect : ℕ → Bool → Msg
  set_clock_source : Msg
  unknown : Msg

abbrev pub eq_ℤ : ℤ → ℤ → Bool
eq_ℤ (pos a) (pos b) = a == b
eq_ℤ (negsuc a) (negsuc b) = a == b
eq_ℤ a b = false

-- No message is none. The commands to the elements come with the context.
unfoldable pub handle_avdecc_event : Option ℕ → Option Msg → AvbCtx → AvbCtx × List StreamCmd
unfolding crf_connect crf_disconnect listener_connect talker_connect listener_disconnect
    talker_disconnect
handle_avdecc_event created none ctx = (ctx, [])
handle_avdecc_event created (some (media_stack_connect index params is_crf listener)) ctx =
    if is_crf
    then (crf_connect created index ctx, [])
    else (ctx, if listener then listener_connect index params else talker_connect index params)
handle_avdecc_event created (some (media_stack_disconnect index listener)) ctx =
    if eq_ℤ (signed32 index) ctx.crf_stream.index
    then (crf_disconnect ctx, [])
    else (ctx, if listener then listener_disconnect index else talker_disconnect index)
handle_avdecc_event created (some set_clock_source) ctx = (ctx, [])
handle_avdecc_event created (some unknown) ctx = (ctx, [])

-- What the calls of `audio_avb_init` give: handles, none for a failure, and whether the entity starts.
pub record AvbCalls : Type 0 where
  pub app_avb : Option ℕ
  pub clock : Option ℕ
  pub media_stack : Option ℕ
  pub controlled : Option ℕ
  pub start : Bool

-- The result is true where that of the code is 0; the context keeps what was opened.
unfoldable pub audio_avb_init : AvbCalls → AvbCtx → Bool × AvbCtx × List StreamCmd
unfolding avtp_source_set_handle avtp_sink_set_handle
audio_avb_init c ctx = elim c.app_avb [
  | none ↦ (false, record ctx { avb_handle = none }, [])
  | some h ↦
      let cmds = avtp_source_set_handle (some h) ++ avtp_sink_set_handle (some h) in
      let opened = record ctx { avb_handle = some h } in
      elim c.clock [
        | none ↦ (false, opened, cmds)
        | some clk ↦
            let clocked = record opened { clk_h = some clk } in
            elim c.media_stack [
              | none ↦ (false, clocked, cmds)
              | some ctrl ↦
                  let controlling = record clocked { ctrl_h = some ctrl } in
                  elim c.controlled [
                    | none ↦ (false, controlling, cmds)
                    | some k ↦ (c.start, record controlling { controlled_h = some k }, cmds)
                  ]
            ]
      ]
]

-- The handles that are closed are those of the context; two of its fields stay.
unfoldable pub audio_avb_exit : AvbCtx → AvbCtx × List StreamCmd
unfolding avtp_source_set_handle avtp_sink_set_handle
audio_avb_exit ctx = (
  record ctx { clk_h = none; avb_handle = none },
  avtp_source_set_handle none ++ avtp_sink_set_handle none,
)

-- ===== src/Audio/Commands/Tests.antt =====
-- A command to a routing in a table of one pipeline.
use rtos_apps.Base.{refl, true, false, none, some, [], ◌∷◌, ◌≡◌, ◌==◌}
use rtos_apps.Audio.Pipeline.Table.{Pipeline, Table, table_find, element_find}
use rtos_apps.Audio.Routing
use rtos_apps.Audio.Routing.{RoutingElement}
use rtos_apps.Audio.Commands.{
  routing, routing_data, PipelineCmd, CmdSizes, Stack, audio_pipeline_ctrl, Answers,
  pipeline_ctrl-Answers,
}

abbrev sizes : CmdSizes
sizes = record {
  own = λ c len. len == 32;
  pipeline_common = 8;
  pipeline_dump_size = 12;
  element_common = 16;
  element_dump_size = 16;
}

abbrev stack : Stack
stack = record {
  avdecc = record {
    is_aaf_pcm = λ f. false;
    is_61883_6 = λ f. false;
    channels_per_sample = λ f. 0;
    sample_rate = λ f. 0;
    sample_size = λ f. 0;
    samples_per_packet = λ f c. 0;
  };
  create = λ g p b. none;
}

abbrev pipeline : Pipeline
pipeline = record {
  stage = ((record { type = 4; sample_rate = 48000; period = 8; element_id = 0 }) ∷ []) ∷ [];
  buffer = [];
}

abbrev router : RoutingElement
router = record { inputs = 2; ins = 1 ∷ 2 ∷ 9 ∷ []; out = (record { input = 1; buf = 3 }) ∷ [] }

abbrev connect_cmd : PipelineCmd
connect_cmd = record {
  cmd = routing (Routing.connect 0 0);
  pipeline_id = 0;
  element_type = 4;
  element_id = 0;
}

abbrev table : Table
table = some 100 ∷ []

pipeline_ctrl-Answers_example : Answers true (
    audio_pipeline_ctrl stack sizes
      (λ a. pipeline)
      (λ e. routing_data router)
      table
      connect_cmd
      32
      true)
pipeline_ctrl-Answers_example =
    pipeline_ctrl-Answers stack sizes (λ a. pipeline) (λ e. routing_data router) table connect_cmd
      32 true

-- The routing is found, and connects its output to the first input.
connect_run :
    (audio_pipeline_ctrl stack sizes
      (λ a. pipeline)
      (λ e. routing_data router)
      table
      connect_cmd
      32
      true).2
    ≡ some (routing_data (record router { out = (record { input = 0; buf = 3 }) ∷ [] }))
unfolding audio_pipeline_ctrl table_find element_find
connect_run = refl

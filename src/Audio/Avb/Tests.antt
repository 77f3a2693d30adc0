-- ===== src/Audio/Avb/Tests.antt =====
-- A cleared context, to which the stream 0 is connected and then disconnected.
use rtos_apps.Base.{◌≡◌, refl, arith, true, false, Option, none, some, List, [], ◌∷◌}
use rtos_apps.Base.Int.{pos}
use rtos_apps.Audio.Avtp.Defs.{StreamParams}
use rtos_apps.Audio.Avb.{
  AvbCtx, Msg, media_stack_connect, media_stack_disconnect, handle_avdecc_event,
  listener_disconnect, AvbCalls, audio_avb_init,
}
use rtos_apps.Audio.Avb.Lost.{rounds, disconnect_zero_lost}

abbrev cleared : AvbCtx
cleared = record {
  ctrl_h = none;
  controlled_h = none;
  clk_h = none;
  avb_handle = none;
  crf_stream = record { stream_handle = none; connected = false; index = pos 0 };
}

abbrev params : StreamParams
params = record { format = 1; stream_class = 0; flags = 0; clock_domain = 0 }

abbrev connection : List (Option Msg)
connection = some (media_stack_connect 0 params false true) ∷ none ∷ []

disconnect_zero_lost_example :
    (handle_avdecc_event none (some (media_stack_disconnect 0 true)) (rounds connection cleared)
      ≡ (rounds connection cleared, []))
    × ((handle_avdecc_event none
          (some (media_stack_disconnect 1 true))
          (rounds connection cleared)).1
        ≡ listener_disconnect 1)
disconnect_zero_lost_example =
    disconnect_zero_lost connection cleared 1 true (refl, (tt, tt)) (refl, refl) (omega arith)
      (omega arith)

abbrev calls : AvbCalls
calls = record {
  app_avb = some 1;
  clock = some 2;
  media_stack = none;
  controlled = some 4;
  start = true;
}

-- An initialisation that fails leaves the handles open that it has opened.
init_run : (audio_avb_init calls cleared).1 ≡ record cleared { avb_handle = some 1; clk_h = some 2 }
unfolding audio_avb_init
init_run = refl

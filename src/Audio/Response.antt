-- ===== src/Audio/Response.antt =====
-- The responses to commands: audio_pipeline_response of audio/audio_pipeline.c, audio_element_response of
-- audio/audio_element.c, and those of the elements.
use rtos_apps.Base.{Bool, List, [], ◌∷◌, if◌then◌else◌}

-- A response, by its type, with whether it says success.
pub data Response : Type 0 where
  resp_pipeline resp_element resp_routing resp_pll resp_avtp : Bool → Response

-- It is sent if there is a control handle.
unfoldable pub respond : Bool → Response → List Response
respond handle r = if handle then r ∷ [] else []

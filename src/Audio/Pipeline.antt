-- ===== src/Audio/Pipeline.antt =====
-- audio/audio_pipeline.c, with the types of audio/audio_pipeline.h and rtos_apps/audio/audio_pipeline.h.
-- The code is read with CONFIG_RTOS_APPS_AUDIO_GENAVB_ENABLE unset. Log messages are left out.
pub mod Config
pub mod Check
pub mod Defaults
pub mod Layout
pub mod Table
pub mod Build
pub mod Execute
mod Tests

-- ===== src/Audio/Sai.antt =====
-- The elements of the serial audio interface, audio/audio_element_sai_source.c and audio/audio_element_sai_sink.c.
pub mod Config
pub mod Sink
pub mod Source
mod Tests

-- ===== src/Audio/Avtp.antt =====
-- The elements of AVB streams, audio/audio_element_avtp_source.c and audio/audio_element_avtp_sink.c, and the
-- conversion of samples in audio/audio_format.h.
pub mod Defs
pub mod Spans
pub mod Words
pub mod Source
pub mod Sink
mod Tests

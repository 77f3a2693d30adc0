-- ===== src/Audio/Avtp/Source/Batches.antt =====
-- audio/audio_element_avtp_source.c: what a batch of a stream leaves in the buffers of its channels.
use rtos_apps.Audio.Avtp.Spans

-- ===== src/Lib.antt =====
-- The components of rtos_apps that hold its own logic, as models with theorems. The program runs
-- audio pipelines and motor control over time-sensitive networking on an RTOS.
--
-- Audio: a pipeline (audio/audio_pipeline.c) holds stages of elements, which exchange samples through
-- circular buffers (audio/audio_buffer.c, audio/audio_buffer.h) in one allocation. An element runs once a
-- period; the routing (audio/audio_element_routing.c) copies its inputs to its outputs. Elements receive and send
-- AVB streams (audio/audio_element_avtp_source.c, audio/audio_element_avtp_sink.c), and one follows an audio clock
-- with a PLL (audio/audio_element_pll.c). Commands go through the pipeline to its elements (audio/audio_element.c).
-- Motors: a cyclic task (tsn/cyclic_task.c) receives frames of one cycle and calls a controller
-- (tsn/motor/controller.c) or an io device (tsn/motor/io_device.c), which exchange messages of
-- currents and of feedback. A button (tsn/user_button.c) starts motors and changes strategies. Statistics (stats/stats.c) are
-- printed by another task through asynchronous calls (async/async.c).
-- A task (tsn/tsn_task.c) owns the sockets and the timer that a cyclic task works with; its statistics
-- judge when its rounds start. The controller drives the control strategies
-- (tsn/motor/control_strategies.c), whose motors stand in a linked list (rtos_apps/slist.h) and follow scenarios (tsn/motor/scenarios.c).
-- A serial device (tsn/serial_iodevice.c) passes commands between a UART and the network. The audio
-- application (audio/audio.c) starts and stops the pipelines on data threads.
--
-- Base: names of the libraries, Boolean tests, lists, 32-bit arithmetic, masks, signed integers, memory.
-- Audio/Buffer: `struct audio_buffer` and the functions audio_buf_*, over a memory of abstract samples; a pointer is
--   a number of samples. Index has the invariant, Fifo and Head the buffer as a queue, Silence the copies,
--   Setup what init and reset leave.
-- Audio/Pipeline: Config has the records of the configuration and audio_pipeline_config_check, Check the
--   well-formed ones, Defaults audio_pipeline_set_config, Layout the sizes of the allocation, Table the table of
--   pipelines and the searches (for elements in Table/Search), Build audio_pipeline_init and its error paths, Execute the walks over
--   the elements.
-- Audio/Routing: routing_element_*, with the buffers as a function from their addresses.
-- Audio/Commands: audio_pipeline_ctrl and audio_element_ctrl, with the commands of the single elements;
--   Audio/Response has the responses.
-- Audio/Pll: pll_element_*. Tracks and Drift are about the counts of the clocks, Range about the rates, Stalled
--   about a clock that stands still.
-- Audio/Avtp: Defs has what both elements of streams share, and audio/audio_format.h; Words and Spans are about the
--   conversion. Source has the connections and commands of a source, Source/Receive the checks of a batch, Source/Run
--   the run, Source/Setup the reset and the set-up; Frames and Batches are about the words, Streams about the exit.
--   Sink has the connections of a sink, and Sink/Send the run.
-- Audio/Sai: sai_source_* and sai_sink_*. Config has the checks and sizes, Source the run and the reset, Source/Setup the set-up, Source/Fill
--   the words of the FIFOs. Sink has the loops of a sink's run, Sink/Run the run, the checks and the size, Sink/Setup the
--   set-up, Sink/Frames the words that FIFOs are given, and Sink/Room the room in them.
-- Audio/Avb: the messages of the AVB stack that audio/audio_avb.c turns into commands; Lost is about one that is lost.
-- Stats: rtos_apps_stats_*, and rtos_apps_hist_* in Stats/Hist.
-- Async: async_call_process. A round is given the messages delivered, with the times of return.
-- Tsn/IoDevice, Tsn/Controller: the handlers io_device_* and controller_*, one function each, which take
--   the context and what the surroundings give, and return the context and what is sent.
-- Tsn/Cyclic: cyclic_net_receive, the tests of transmission and of the period, the monitoring.
-- Tsn/UserButton: rtos_apps_user_button_*.
-- Tsn/Task: the statistics and the start of a task, tsn_task_stats_* and tsn_task_start; Schedule is about
--   both. Sockets has tsn_net_*, Setup the set-up and tear-down tsn_task_net_init, tsn_task_register and
--   their inverses, Closed what they leave.
-- Tsn/Strategy: control_strategy_*, and strategy_of as the strategy that the controller takes. States is about the
--   states and changes of strategies, Margin the check in front of strategy_synchronized_loop.
-- Tsn/Scenario: the walk over the tables, which stand in Blocks and Interlaced; Rounds is about the walk.
-- Tsn/Serial: uart_rx_task, the pass and the messages of the serial device; Lines is about the commands.
-- Slist: the macros and functions of rtos_apps/slist.h; Chain has the lists that nodes represent, Refine is
--   about the operations.
-- Audio/App: audio_run, audio_stop and the events in App, the pipelines that they leave in Live, the set-up of the
--   threads in Threads, and the handler of a pipeline, audio/play_pipeline.c, in Play.
-- Tsn/Alarm: alarm_net_transmit, main_alarm_monitor and alarm_task_monitor_init of tsn/alarm_task.c.
--
-- Numbers are natural numbers whose wrap-around at 32 or 64 bits is written out, also where the code computes
-- with signed numbers. Loops over arrays recurse
-- on lists. Loops on fuel are the shift loop of audio_buf_init, with 32 rounds, which shift an
-- `unsigned int` to 0, the loops over the nodes of a linked list, for which a round for each node and two more are
-- enough, and the search for commands in the serial device's buffer of 50 bytes, which ends within 51 rounds. Parameters stand for what is outside: the allocator, the checks and set-up of a single
-- element, message queues, sockets, the motor control functions, the operations of the strategies and floating point.
-- What an access past an array would give is not modelled: the batches of AVB streams end in a fault, and a received number of entries beyond the message's array
-- ends with the array.
--
-- Not modelled: logging and dumps, drivers, the AVB stack, control laws in floating point and the strategies
-- that apply them, the tones, the responses to AECP commands, the alarms of io devices, the tables of the tasks'
-- configuration, the main loop and set-up of cyclic tasks.
pub mod Base
pub mod Audio
pub mod Stats
pub mod Tsn
pub mod Async
pub mod Slist

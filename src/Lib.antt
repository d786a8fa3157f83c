-- ===== src/Lib.antt =====
-- Optronic: the node service of a thermal camera. The program is a set of components that an
-- application object starts in a declared order and stops in the reverse order: logging, the sensor
-- behind a register window, video, detection and telemetry.
--
-- Files, with the code each is about:
--   Core      framework/core: the error codes and their domains, `expected` and `fail`.
--   App       framework/app: `App::start`, `stop_through`, `wait_for_stop` over components that
--             are functions on a shared world. Order and Trace hold what start and stop do, Wait
--             the watchdog loop, Signals `SignalStop` and its handler in a process, Tidy
--             components that give back what they took.
--   Log       framework/log: Ring (the single-producer single-consumer ring, with Refine for its
--             meaning as a queue and Concurrent for the loads and stores of both threads as
--             steps), Record (fixed-size records and truncating copies), Logger (the threads'
--             rings, draining, the count of drops, the sink thread, shutdown), with Lossless for a
--             call and a drain, Sink for the whole life of the sink thread, Thread for the flag
--             that it is joinable, and Printed for the text of the lines.
--   Hal       framework/hal: Mmio (the host stand-in for the register window), Register (access
--             rights), Isp (address map, power-on test, timestamp) with Isp.Model for
--             `install_isp_model`, Isp.PowerOn, and Isp.Rights and Isp.Typed for what its
--             registers allow; Uio (the region of a UIO device over the answers of the system
--             calls), with Owners for its handles and Window for what its accesses share with the
--             stand-in's.
--   Sensor    modules/sensor: `run_nuc` over any backend and clock, where it leaves the shutter
--             (Shutter), and what it keeps (Kept).
--   Options   main.cpp: the command line, `parse_u32` and `parse_args`; what the parser of numbers
--             accepts (Numbers) and what holds of accepted options (Accepted).
--   Telemetry modules/telemetry: Payload (the texts and their fixed buffers), Client
--             (`Publisher::Impl` over the answers of libmosquitto), with Sizes and Detections for
--             the bounds of the payloads, Counts for the counters, and Lifetime for the publishers
--             of a process, with Users for what they hold.
--   Video     modules/video: the description of a graph and `launch_string` (factory.cpp). Frame
--             has the frames and the identity stage (frame.hpp, processor.hpp), Handles the owners
--             of references (gst_ptr.hpp), Pipeline the sample callback (pipeline.cpp), with Bus
--             for the messages, Lifecycle for creation, state changes and destruction (Released:
--             what they give back), Balance for the references of a call and Accounting for the
--             counters.
--   Detect    modules/detect: Load (configuration and model files, with Pair), Stage (`decode_v5`,
--             `detect`, `process`, with Reference and Overlay), Yolo (the handle), Draw
--             (`draw_rect`, with Pixels and Outline), Pacing (`stride`, with Pace), Mailbox
--             (`offer` and the worker as interleaved steps, with Sound, Delivery, Alive, Progress
--             and Join) and Copy (the rows that `offer` copies).
--   Main      main.cpp: Node (what the services share, and LogService), Sensor, Video and
--             Telemetry (the other services), Assembly (all of them on one node), `main` itself
--             over any services, with Exit for how it ends, Rate for the frame rate, Timer for the
--             timer of the correction, Sensor.Program for the registers of the block,
--             Sensor.Correction for a correction on it, and Release for what `main` leaves
--             (Reports the telemetry, Stream the video, Whole all).
--   Common    shared names of the libraries, and helpers on lists, bits, texts and integers.
--
-- State and operations. A stateful object is a record, and an operation takes it and returns the new
-- one; a hook of the stand-in is a function on the device, and what its closure captures is a part of
-- the device. `status` and `expected` are the type `Expected`. Unsigned words wrap as `% 2 ^ w` where
-- the source's do. The clock is a parameter: the n-th reading of it.
--
-- Bounds. The ring's indices wrap at 2 ^ 64 and its capacity is 2 ^ k for k up to 63; the logger's is
-- 1024. Draining a ring runs on fuel 1025, and a ring of the logger holds at most 1024
-- records, so the fuel does not run out. The correction polls on fuel: more rounds than
-- the nanoseconds of the longer timeout are enough with a clock that every reading moves on.
--
-- The mailbox takes frames below 2 ^ 31 in both directions that hold their rows, since the source
-- counts pixels in `int`. The counters of the pipeline are followed for up to 2 ^ 62 events. What is
-- undefined in the source (a division by zero, a read past a vector) is the result `none`.
--
-- Not modelled: the interleaving of the threads that main.cpp starts on the members of the services
-- (a round of the telemetry loop, a correction and a frame are functions, one after another); the
-- operating system, GStreamer, mosquitto and OpenCV, which the source calls and whose answers are
-- arguments; the arithmetic of floats and the printing of doubles, which are parameters; `usage`, which
-- only prints; and the tests and tools of the repository.
pub mod Common
pub mod Core
pub mod App
pub mod Log
pub mod Hal
pub mod Sensor
pub mod Options
pub mod Telemetry
pub mod Video
pub mod Detect
pub mod Main

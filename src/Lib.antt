-- ===== src/Lib.antt =====
-- Verification of the edge side of isales-telephony: the daemon that dials GSM calls through a
-- modem, bridges their audio to an RTC session, and reports to the cloud over one gRPC stream.
--
-- How the parts work together. The cloud's commands reach the orchestrator, which dials through the
-- serial AT client; that one sends commands through the AT command client and turns the modem's
-- unsolicited lines into a stream of events for each call. On `connected` the orchestrator switches
-- the modem's audio on, joins the bridge, and starts the audio pumps, which move PCM between the
-- modem and two ring buffers. What the cloud must learn goes through the stream client, which keeps
-- frames in a durable or an in-memory buffer while the stream is down.
--
-- Files:
-- - Base: numbers, lists, texts, results, case lemmas.
-- - RingBuffer: PcmRingBuffer of isales_telephony/audio_bridge/ring_buffer.py. A ring is a record;
--   `put`, `get`, `get_nowait`, `close` are functions on it. Invariant, Eviction, Opening and Traces
--   are about what one call and a sequence of calls keep.
-- - EventBuffer: SqliteEventBuffer of isales_telephony/transport/sqlite_buffer.py. The table is a list
--   of rows; a flag says that SQLite raises, and for `append` whether before or behind its committed
--   INSERT. `iter_pending` is run against a state that its consumer
--   changes between two rows; its fuel is one turn for each row and one more.
-- - GrpcClient: CloudEdgeGrpcClient of isales_telephony/transport/grpc_client.py: `send`, the flush,
--   start and end of a stream, and in Backoff the connect loop over a list of attempts. Delivery is
--   about the durable buffer, Memory about the one in memory.
-- - Heartbeat: the loops of isales_telephony/edge/grpc_heartbeat.py, over GrpcClient (Replay), and of
--   isales_telephony/modem_controller/heartbeat.py.
-- - AtProtocol: AtClient of isales_telephony/modem_controller/serial_protocol.py: lines into
--   responses, URCs and lines of the command in flight (Replies); Lines writes out what a line is.
--   Texts are lists of code points.
-- - Drivers: isales_telephony/modem_controller/drivers.py: the dial and the cause of its failure
--   (Causes), the detection of the driver and the reading of what identifies a modem (Identity).
-- - AtClient: SerialATClient of isales_telephony/modem_controller/at_client.py: the active call, its
--   event queue, the poller, and the event stream, as steps on one record (Orderly, Streams); and in
--   Opening the opening of its port, with platforms/serial_lock.py.
-- - AudioIo: the pumps of isales_telephony/edge/audio_io.py. The playback loop runs on fuel, as many
--   turns as there are bytes, each of which takes 320; the duplex pump's inner loop runs on one turn
--   for each queued chunk and one more.
-- - AudioPipe: isales_telephony/modem_controller/audio_pipe.py: the jitter buffer and the cutting of
--   outbound audio, on fuel for each byte.
-- - Recorder: isales_telephony/modem_controller/recorder.py: the tracks of the calls (Tracks), the
--   stereo file (Stereo), and the rolling retention (Retention).
-- - TrayState: isales_telephony/ui/state.py: the tray's status and colour, and the bus, whose calls
--   come one after the other here, each with its fan-out.
-- - SerialReader: the reader thread of isales_telephony/modem_controller/platforms/
--   windows_serial_at.py; it cuts the bytes read into lines, on fuel for each byte (Reassembly).
-- - UsbPorts: isales_telephony/modem_controller/platforms/windows_serial.py: the polled scans of the
--   ports and the events made of them (Tracking), and the search for a modem's ports (Discovery).
-- - AtProbe: isales_telephony/modem_controller/at_probe.py: the rate limiter (Limiter), the probe, the
--   identity sequence and the decision on a node (Channel, Deciding). The prober's clock is read once
--   for each call.
-- - AudioBridge: isales_telephony/audio_bridge/bridge.py and resampler.py: the upstream pump as a step
--   on what its awaits answer (Relaying, Backpressure), and the downstream pump (Downstream, Serving,
--   Sampling). Bridge has join and leave over an interface of sessions, which Windows fills with
--   RtcSession.
-- - RtcSession: isales_telephony/audio_bridge/windows_dingrtc_session.py, over the calls of the vendor's
--   binding, which stand in a log: join, leave, the drainer, the generator of frames (Inbound,
--   Queueing, Ending) and the pushing of audio (Cutting, Slicing), on fuel for each byte. Joining and
--   Lifecycle read the log. A join may be cancelled in its wait; nothing else runs in that wait, nor
--   in the sleeps of a push.
-- - Fleet: the rows of devices and their writers: isales_telephony/api/routers/select.py and
--   devices.py, api/health_monitor.py, modem_controller/udev_watcher.py and handlers.py (Selecting,
--   Busy, Reserving). A transaction is one step.
-- - IpcServer: isales_telephony/modem_controller/ipc_server.py (Frames) and handlers.py: connections,
--   commands and event pumps, interleaved as a sequence of inputs (Routing, Hangup).
-- - EnvFile: isales_telephony/ui/env_writer.py: validation, reading and rewriting of the file of
--   settings (Lines, Values, Rewriting). The class `\d` of the endpoint's pattern is a parameter.
-- - Activation: one submission of isales_telephony/ui/activation.py, on the bus of TrayState and the
--   file of EnvFile, with the restarter of isales_telephony/main_windows.py (Outcomes).
-- - Orchestrator: EdgeOrchestrator and _CallContext of isales_telephony/edge/orchestrator.py. Contexts
--   stand in a store, since `_calls`, pumps and handlers share them; a context records its effects in
--   a log. Calls has the handlers (Store: the contexts), Protocol a machine that reads the log,
--   Freeing what teardown leaves of it. Soundness and Connecting are about one call, Sound, Dials and
--   Runs about all calls, Silence and Failures about what the modem is told when a connected call
--   cannot be served. Ownership, Begun, Ids, Leaks and Owning are about the calls that are listed and
--   what the others hold, Shutdown about what `stop` leaves; Causes follows the causes of hangups
--   from Drivers and AtClient to the cloud.
--
-- Parameters and limits. A handler is one step: interleavings inside a handler are not modelled. What
-- is awaited from outside (driver, bridge, gRPC, SQLite, audio backends) answers as an argument says.
-- Call ids are numbers. Times are numbers of milliseconds. Not modelled: the session over PyObjC and
-- the one in memory, the filter of the resampler, the pumps of the development mode without a modem,
-- the wav header, the creation and listing of devices and SIM cards, the tray's windows, the rest of
-- the platform code, and mains.
pub mod Base
pub mod Activation
pub mod AtClient
pub mod AtProbe
pub mod AtProtocol
pub mod AudioBridge
pub mod AudioIo
pub mod AudioPipe
pub mod Drivers
pub mod EnvFile
pub mod EventBuffer
pub mod Fleet
pub mod GrpcClient
pub mod Heartbeat
pub mod IpcServer
pub mod Orchestrator
pub mod Recorder
pub mod RingBuffer
pub mod RtcSession
pub mod SerialReader
pub mod TrayState
pub mod UsbPorts

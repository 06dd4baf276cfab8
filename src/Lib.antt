-- ===== src/Lib.antt =====
-- Verification of the web client of AYLink.Extra (AYLink.Web/src), which shows and steers an Android
-- device: the input that a user gives becomes scrcpy control messages, HID reports or touches, the
-- client decides how to recover a video stream and when to reconnect, and a few services keep state
-- that all pages share.
--
-- The parts, and what models them:
--   * Mapping: features/inputMapping. Schema, Commands, Coordinates, Validator and Compiler follow the
--     files of these names (inputMappingSchema.ts and so on). Of inputMappingRuntime.ts, Gestures has
--     what needs no state, Runtime the state, Joystick and Bindings the press and release of a binding,
--     Matching the conditions on events, MouseLook the mouse look, and Handlers the operations that
--     createInputMappingRuntime returns. A profile is validated and compiled into tables; the handlers
--     look bindings up there and answer with commands. The variables of createInputMappingRuntime are
--     the record InputMappingRuntime, and an operation returns the new state with its commands.
--     Theorems: Buckets, Bursts, UnitSquare, HeldLook, Release, Cancels, Presses.
--     Bridge and Bridge/Execution are inputMappingCommandBridge.ts, which sends the commands: they give
--     pointer keys their ids, delay touches and repeat taps by timers of the window, which are part of
--     the state. Theorems: Bridge/Pointers, Ids, Timers, Taps, Repeats, Steps, Clearing, Ages,
--     Aging, Stale, over the runs of Runs; and Bridge/Log and Lifts, on what is sent for the commands of
--     the runtime.
--   * Scrcpy: features/screencast/scrcpyControlProtocol.ts. Protocol has the message builders, Keycodes
--     the key tables; Decoding is a reader of the wire format that does not use the builders.
--   * Hid: lib/input/hidProtocol.ts (Protocol) and hidSession.ts (Session). What a session sends is a
--     log in its state; Receiver is the device that reads it. Theorems: Layout, Reports, Accepted,
--     Devices, Keys, Presses.
--   * Video: features/screencast/videoStreamStateMachine.ts (StateMachine) and
--     videoRecoveryDecision.ts (Recovery). Theorems: Stability, Decisions.
--   * Cast: features/screencast/connectionScheduler.ts (Scheduler). The timers of the window are part
--     of the state, and a timer that fires is a step. Theorems: Timers, Reconnect.
--   * Services: services/tasks.ts (Tasks), services/dialog.ts (Dialog) and lib/async/latestRequest.ts
--     (LatestRequest). Theorems: TaskFields, TaskInvariant, TaskLifecycle, Promises.
--   * Pointer: features/screencast/scrcpyPointerIdTracker.ts (Tracker). Theorems: Distinct.
--   * Transport: features/deviceTransport. Of requestOnChannel of channel.ts, Channel has the variables and
--     the ends, Receiver what arrives and the stream of the response, Sender the upload; an `await` is
--     where a function stops, and another event goes on. Connection and Pool are PeerDeviceConnection and
--     DeviceConnectionPool of connection.ts, Terminal is terminal.ts. Theorems: Upload, Loop, Flow,
--     Windows, Delivery, Messages, Download (over the events of Runs), Idle, Accounts, Attempts, Acquired,
--     Lines.
--   * Workspace: Tabs has what features/apps/useAppManagerTabs.ts and features/files/useFileManagerTabs.ts
--     share, with features/workspace/sessionTabs.ts, over a kind of tab; the session storage is part of the
--     state and may refuse a write or a reading, and JSON is a parameter (IsJson). Apps and Files are the
--     two kinds, Paths the paths of the files. Theorems: Keys, Neighbours, Pages, Saved, Normal, Browsing.
-- Prelude has the helpers that all share; Integers, IntegerLaws and the modules Tests run the code at
-- concrete inputs. All paths are below AYLink.Web/src.
--
-- Numbers: a count, a time in whole milliseconds or a byte is a native natural number, a signed one is
-- a ℤ, and a number that need not be an integer is one of the interface Numbers, so that what is
-- proved holds for whatever the arithmetic of doubles gives; UnitSquare names the laws of Math.min,
-- Math.max and <= that it relies on (OrderLaws). Where Math.min and Math.max cut a double to bounds (the
-- progress of a task, the motion of the mouse), it is a Double of Prelude/Double, with NaN and the
-- infinities. The conversions of JavaScript to 8, 16, 32 and 64 bits
-- are written out. toLowerCase, trim and the text encoder are parameters. Most loops are recursions on
-- the list or the count that they run over. Two run on fuel: the upload of a value, which is given the
-- number of bytes that are left, of which each turn sends at least one; and the cutting of a text into
-- lines, which is given the length of the text, which each turn shortens.
--
-- Not modelled: the issue texts and the untyped checks of the validator; the pages and components; the
-- pointer queues, the peer connection and its signalling (connectDevice is an event with its result), the
-- tabs of the terminals and of the screencast, and the router; the agent (AYLink.Agent) and the mobile
-- app (AYLink.Mobile).
mod Prelude
mod Integers
mod IntegerLaws
pub mod Scrcpy
pub mod Hid
pub mod Video
pub mod Cast
pub mod Services
pub mod Mapping
pub mod Pointer
pub mod Transport
pub mod Workspace

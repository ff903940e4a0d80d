-- ===== src/Lib.antt =====
-- Aethor Studio V2: the TypeScript contracts and the domain logic of the web front end.
--
-- The program is a workbench for robot arms. `shared/contracts/src` holds what the browser and the
-- gateway agree on: the data of a session and of a command (`types.ts`), the two state machines that
-- say which events may change them (`sessionStateMachine.ts`, `commandStateMachine.ts`), and the line
-- protocols of the Aethor arm (`aethorArmAsciiV1.ts`) and of the Dummy arm (`dummyAsciiV1.ts`).
-- `apps/studio-web/src/domain` holds the pure parts of the front end that use these contracts: the
-- bounded buffers that a scope page draws from (`BoundedSignalBuffer.ts`) and the safety latch that a
-- store folds over the results of commands (`commandSafety.ts`).
-- `apps/studio-web/src/integrations` holds what talks to the gateway: `AethorTwinFrameCoordinator.ts`
-- stands between the motor frames of an adapter and the rendered model, `GatewayCommandLifecycle.ts`
-- sends a command and then refreshes what is shown, and `serialSessionOperations.ts` connects and
-- disconnects. The last two write to the store of `stores/useGatewayRuntimeStore.ts`, which folds the
-- results of commands into the safety latch. Pages and the 3D view call these parts and show what
-- they return.
--
-- Which file models which part
--   Prelude         shared helpers: list lookups, integers with a sign, code units, `split` and `join`,
--                   and `Result` for a call that throws or returns.
--   Numerals        numbers in a radix: `toString(radix)` and the value of a digit string.
--   Contracts       enumerations and records of shared/contracts/src/types.ts.
--   Session         shared/contracts/src/sessionStateMachine.ts: `transition_session` is
--                   `transitionSession`, `create_offline_session` is `createOfflineSession`; `run` folds
--                   events over a snapshot.
--   Command         shared/contracts/src/commandStateMachine.ts: `transition_command` is
--                   `transitionCommand` (`from_created` and `from_accepted` are its two switches),
--                   `to_command_result` is `toCommandResult`.
--   AethorAscii     shared/contracts/src/aethorArmAsciiV1.ts. Crc: `compute_crc16`, `format_crc`. Frames:
--                   `format_request`, `encode_request`, `parse_frame` and their patterns. Decoder:
--                   `decode_chunk` and `finish_decoder`.
--   DummyAscii      shared/contracts/src/dummyAsciiV1.ts: `decode_character` is a round of the loop of
--                   `decodeDummyAsciiChunk`. Commands: `format_dummy_command` and
--                   `validate_dummy_raw_command`. Responses: `parse_dummy_response_line`.
--   Terminal        apps/studio-web/src/domain/dummyCommand.ts and aethorCandidateCommand.ts.
--   Buffer          apps/studio-web/src/domain/BoundedSignalBuffer.ts: a method that changes the object
--                   returns the new one, `create` is the constructor.
--   Safety          apps/studio-web/src/domain/commandSafety.ts: `reduce_command_safety_state` is one step
--                   of the fold, `reconcile_command_safety_state` the fold over an audit history.
--   Twin            apps/studio-web/src/integrations/AethorTwinFrameCoordinator.ts and
--                   domain/aethorTwinTelemetry.ts: `Coordinator` holds the private fields, `ingest`,
--                   `flush_now` and `reset` are the methods, `run_scheduled` the scheduler's callback.
--   Runtime         apps/studio-web/src/stores/useGatewayRuntimeStore.ts: a function per action, those
--                   for the results of commands in `Commands`; `Frames` and `History` hold the helpers
--                   at the end of the file. `Action` is a call of the store as data, and `run` applies
--                   a list of them.
--   Lifecycle       apps/studio-web/src/integrations/GatewayCommandLifecycle.ts: a call is cut where it
--                   awaits the gateway, into `begin_call`, `on_result` or `on_transport_error`, and
--                   `on_refresh`; `Calls` interleaves calls and actions of the store.
--   SerialSession   apps/studio-web/src/integrations/serialSessionOperations.ts and operationProbe.ts:
--                   `on_fulfilled`, `on_rejected` and `on_settled` are the callbacks of a promise.
--   Joints          apps/studio-web/src/domain/jointInteraction.ts without the geometry of a drag:
--                   `resolve_from` is the loop of `resolveJointBindings`.
--
-- How the code is represented
--   A JavaScript string is the list of its UTF-16 code units (of its code points where a `for` loop
--   goes over it; a chunk is not cut inside a surrogate pair), a chunk of bytes the list of its bytes.
--   A JavaScript number that the code tests with `Number.isInteger` or compares with integers is
--   `Number`: a whole integer or any other value. A thrown error is a value of an error type, and
--   `Result` holds it or what the call returns. A Map that only collects entries is the list of them
--   in the order of insertion. A regular expression is the Boolean test that it stands for.
--   `Date.parse` and `Number.isFinite` are parameters: the first gives milliseconds, `none` for NaN.
--   `Decimals` is what the Dummy commands use of numbers: `Number`, `toFixed` and comparisons.
--   What ECMAScript says of them for numbers below 10 ^ 21 in size is `IsEcmaScript`, a hypothesis of
--   the theorem on printed commands.
--   An asynchronous function is cut where it awaits; what it awaits is an argument of the part behind,
--   and a list of events orders the parts of all calls. A text of a regular expression's `\d+` is its
--   value as a natural number.
--   A spread copy of an object is the object, since the model has no identity of objects.
--
-- Bounds and fuel
--   The loop of `computeAethorArmCrc16Ascii` shifts within 16 bits, and the model keeps the mask. The
--   loops over characters, bytes, tokens and slots are recursion on the list or on the count that the
--   loop runs down. `to_radix` has fuel one above the number, which is enough because each
--   step divides by a radix of at least 2.
--
-- Not modelled
--   The other stores, the action programs, the projection of motor frames and the robot
--   profiles of apps/studio-web/src.
--   The rotation of a dragged joint in jointInteraction.ts, which is floating-point geometry.
--   React pages and components, the three.js scene, HTTP, SignalR and browser storage: they are effects
--   and rendering. The C# gateway and desktop shell are programs of their own, in another language.
pub mod AethorAscii
pub mod Buffer
pub mod Command
pub mod Contracts
pub mod DummyAscii
pub mod Joints
pub mod Lifecycle
pub mod Numerals
pub mod Prelude
pub mod Runtime
pub mod Safety
pub mod SerialSession
pub mod Session
pub mod Terminal
pub mod Twin

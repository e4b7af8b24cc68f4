-- ===== src/Lib.antt =====
-- Verification library of ModernSapiAdapter's CoreEngine, the in-process SAPI 5 engine that drives a
-- provider process over two named pipes.
--
-- The program. `SpeechWorker` (CoreEngine/SpeechWorker.h and .cpp) owns one provider session: an
-- audio thread reads PCM bytes, a control thread reads JSON events, and SAPI's thread starts
-- requests, waits for them and cancels them. `CSapiEngine` (CoreEngine/SapiEngine.h and .cpp) is
-- what SAPI calls: it makes a worker for the provider that the token names, replaces it once it is
-- faulted, and hands audio and events to the site of the request on hand. The three threads of a
-- worker change one `RequestContext` under `m_requestMutex`, and decide with four pure policies:
-- PcmDeliveryPolicy, SpeechStatePolicy, ControlEventPolicy and the PcmFrameAssembler. A worker that
-- meets a protocol failure is quarantined.
--
-- The parts and their files.
--   Base, Windows        shared lists, words, tests and results; documented HRESULT values
--   Request, Event       CoreEngine/SpeechWorkerTypes.h, CoreEngine/SpeechEventTypes.h
--   Pcm.Assembler        CoreEngine/PcmFrameAssembler.h and .cpp; Pcm.Frames is about one call of
--                        `Process`, Pcm.Fragments about a stream of them
--   Pcm.Delivery         CoreEngine/PcmDeliveryPolicy.h and .cpp, with Pcm.DeliveryLaws
--   StatePolicy          CoreEngine/SpeechStatePolicy.h and .cpp
--   EventPolicy          CoreEngine/ControlEventPolicy.h and .cpp
--   Worker.State         the fields of `SpeechWorker`, `Start`, `CheckTerminalBoundaryLocked`
--   Worker.Audio         `IngestAudioChunkLocked`, `UpdateAfterAudioDeliveryLocked`
--   Worker.Control       `HandleParsedControlEventLocked` and the handlers it calls
--   Worker.Cancel        `Stop`, `CancelAndDrain`, `BeginCancellationLocked`, the decisions of
--                        `FinishCancellation` and `WaitUntilFinished`
--   Worker.Fault         `EnterFaultedState`, the admission of `ForwardEventToSapi`
--   Worker.Loop          one turn of `AudioThreadProc` and of `ControlThreadProc`; Worker.Threads has their
--                        loops, and Worker.ThreadRuns shows that these are schedules of Worker.Steps
--   Worker.Waiting       `WaitUntilFinished` and `FinishCancellation` over the turns of their waits;
--                        Worker.Watch and Worker.WaitEnds are about their deadlines
--   Worker.Steps         every critical section as a step relation, and its reachability
--   Worker.Boundary, Invariant, Machine, Quarantine, Stale, Admission, Deadline, Draining
--                        what holds of the critical sections under every interleaving
--   Worker.Progress, Turns, Completion, Declaration, Whole
--                        a whole request, from `Start` to the end of its audio
--   ControlStream        CoreEngine/ControlStreamBuffer.h and the message loop of
--                        CoreEngine/PipeClient.cpp, against the lines of a byte stream
--   Json                 CoreEngine/JsonValue.h, over an interface for `nlohmann::json` and `double`;
--                        Json.Laws states what is relied on, Json.Tree is a type that meets it,
--                        Json.Numbers is about the numbers that are accepted
--   Protocol             CoreEngine/SpeechProtocolUtils.h; Protocol.Events has the messages of the
--                        protocol, Protocol.Ranges the ranges of what is parsed, Protocol.Unaddressed
--                        what the worker does with a message about no request
--   AudioFormat          CoreEngine/AudioFormatUtils.cpp
--   Strings, Fragments   CoreEngine/StringUtils.cpp, CoreEngine/SapiFragmentSerializer.cpp
--   Pipe                 CoreEngine/PipeClient.h and .cpp: Pipe.Connect with Pipe.Probing, the
--                        overlapped transfers with Pipe.Sending, `ReadControlMessage` in Pipe.Reading
--   Engine               CoreEngine/SapiEngine.h and .cpp, CoreEngine/ProviderSessionConfig.h;
--                        Engine.Session makes and replaces sessions, Engine.Speak is `Speak`,
--                        Engine.Callbacks what the worker calls; Engine.Calls has every sequence of
--                        calls, Engine.Cleanup, Recovery, Sending and Events what they come to
--   DllEntry             CoreEngine/DllEntryAdmission.h and .cpp: the leases on the DLL and the close
--                        that waits for them, as a step relation
--   Logger               CoreEngine/AsyncLogger.h and .cpp: Logger.Sections has the critical sections and
--                        the steps of the worker, Logger.Threads every schedule of them;
--                        Logger.Invariant, Quiescence, Draining and Races what holds of these
--   DllMain              CoreEngine/dllmain.cpp: `DllCanUnloadNow` and `DllGetClassObject` over DllEntry
--                        and Logger
-- The modules named Examples, and Logger.Runs, hold small runs of these definitions.
--
-- How the code is modelled. A field of `SpeechWorker` is a field of the record of that name; a critical
-- section is a function of the record, and `Step` has one constructor for each, with whatever the
-- environment may choose as its arguments: events, bytes, ticks, results of SAPI's calls. The locks
-- make these sections atomic, so a sequence of steps is a schedule of the threads. `notifications`
-- counts the calls of `m_requestChanged.notify_all`, `pipe_cancels` those of `PipeClient::Cancel`.
-- Bytes are numbers, unsigned integers wrap at their width, and a thrown exception is a result. The
-- fault of a turn is published at the end of the turn in Worker.Loop, and section by section in
-- Worker.Steps. `EnterFaultedState` as a whole, and a turn of a thread, run with no other thread in
-- between; Worker.Steps has their sections apart, under every interleaving.
--
-- The engine's `Speak` and `SetObjectToken` hold `m_speakMutex`, so they are functions of its record,
-- with the answers of the client, of the token and of the site as arguments. The worker's threads run
-- between calls, before `Start`, while the message is sent and while `Speak` waits. What a callback of
-- the engine does under `m_siteMutex` is a definition of its own; its `Write` or `AddEvents` follows
-- outside the lock, so that it may come after the end of `Speak`. `nlohmann::json`, `double` and the Windows conversions of
-- text are parameters: definitions take their operations, and theorems their documented laws.
--
-- Loops run over the finite list of what the environment gives. Only `Connect` takes fuel, one unit for
-- each turn of its loop: Pipe.Probing shows that it is enough to have one more than the number of turns
-- before the clock reaches the deadline. The waits between the probes show in the ticks of the turns.
--
-- The logger's threads and callers are numbered, and `Logger.Threads.Step` has one step for each stretch
-- of code under `m_mutex`. The lists of accepted, delivered and written messages only record what
-- happened. A join is possible once the thread has ended; assigning to a joinable `std::thread` ends the
-- process. The locks of the worker's handler and of its last section are taken to succeed. In DllMain
-- other threads act during the two waits of `DllCanUnloadNow` and before a lease goes, not between its
-- other calls.
--
-- Not modelled: the creation and joining of the worker's threads, COM apartments, the debug test hooks
-- and what is logged, the paths of pipes and the command line of the provider, the class factory and the
-- registration of the DLL, the manager application and the first version under v1/.
pub mod Base
pub mod Windows
pub mod Logger
pub mod Request
pub mod Event
pub mod Pcm
pub mod StatePolicy
pub mod EventPolicy
pub mod Worker
pub mod Json
pub mod Protocol
pub mod AudioFormat
pub mod Strings
pub mod Fragments
pub mod Engine
pub mod Pipe
pub mod ControlStream
pub mod DllEntry
pub mod DllMain

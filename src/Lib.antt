-- ===== src/Lib.antt =====
-- The C++ side of the bridge between the AFSIM simulation and ns-3, and the ns-3 runner.
--
-- The simulation thread gives its state to a controller (src/windows_adapter/
-- AfsimBridgeController). The controller compares it with the baseline that was sent last
-- (StateDeltaTracker), has a message written (AfsimNs3Protocol) and queues it in the TCP client
-- (TcpJsonlClient), whose worker thread sends it. Lines that come back are metrics: both gates
-- read them, MessageTransportGate for the profiles that decide the delivery of each message, and
-- NetworkEffectGate for the state of each subsystem; the controller keeps the effects until the
-- simulation thread applies them. The plugin in AFSIM (src/afsim_extension/source/
-- AfsimNs3Extension) is that simulation thread: its handlers note what AFSIM says of messages and
-- ask the controller for the decision on each, and its tick collects the state of all platforms,
-- in local coordinates (GeoCoordinates), and submits it. The runner is the program that simulates
-- a scenario with ns-3 and prints the results.
--
-- Files, with paths from the root of the repository:
--   Base and its children: lists, orders, maps as sorted association lists, results.
--   Double: `double` as a parameter, with the laws of IEEE 754 that some theorems ask for, and
--     an instance on whole numbers for examples; Double/Math: the same for <cmath> and for the
--     casts.
--   Json: the field scanner that src/windows_adapter/NetworkEffectGate.cpp and
--     MessageTransportGate.cpp both hold (ValueStart, JsonString, JsonUint64, JsonDouble,
--     JsonBool, MatchingEnd, ObjectArray).
--   Effects: src/windows_adapter/NetworkEffectGate.
--   Transport: src/windows_adapter/MessageTransportGate.
--   Protocol: src/windows_adapter/AfsimNs3Protocol.
--   Delta: src/windows_adapter/StateDeltaTracker.
--   Geo: src/windows_adapter/GeoCoordinates.
--   Tcp: src/windows_adapter/TcpJsonlClient. Tcp/Worker has the worker thread as a step relation
--     between the points where another thread may run, among them each test of mRunning and each
--     lock; a history mixes its steps with the calls that queue.
--   Controller: src/windows_adapter/AfsimBridgeController.
--   Extension: src/afsim_extension/source/AfsimNs3Extension.cpp. Config has the environment
--     variables, Degrees and Milliseconds; Afsim what AFSIM says at one moment; State the members
--     of BridgeSimulationExtension; Observe the notes on links and flows; Messages the four
--     handlers; Devices, Peers and Collect the parts of CollectState; Tick the rest; Events the
--     events in any order.
--   Runner: src/ns3_runner/afsim-ns3-runner.cc.
--
-- A method returns the state after it beside its result, and a throw is a value, so that the
-- state after a throw can be stated. Texts are lists of bytes. Unsigned integers are natural
-- numbers with the range tests and the wrap-around of the source written out. Fuel stands in five
-- places: the digits of a number (20, enough for 64 bits), the lines of a buffer and the
-- objects of an array (the size of the text, since each round takes a byte at least), and the
-- path search (one round for each node, since a node is pushed once, and one to stop), and
-- the loops of Degrees (two rounds for a heading near the first turn; more rounds for others, and
-- an error of the model's own where the source would loop on).
--
-- Parameters: `double`, its functions, parser and printer; ns-3; AFSIM, as what it says at one
-- moment; the environment; the sockets, whose answers are any; the server, which is any function
-- of its state and a line; the simulation behind the effect sink.
--
-- Not modelled: the Python service, which is in another language; the log file of the plugin and
-- its registration in AFSIM, which only call the system and AFSIM; the calls that set up sockets
-- and WSAStartup; the cast to int of the length that SendAll offers; and the format of the numbers that the runner prints.
pub mod Base
pub mod Double
pub mod Json
pub mod Effects
pub mod Transport
pub mod Protocol
pub mod Delta
pub mod Geo
pub mod Tcp
pub mod Controller
pub mod Extension
pub mod Runner

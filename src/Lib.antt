-- ===== src/Lib.antt =====
-- ec-systemcore: a daemon that runs EtherCAT buses and serves them to local clients over a
-- socket, with libraries for the clients. This is its verification library.
--
-- A client sends frames of bytes; the daemon decodes them (FrameDecoder and the payload codecs
-- of daemon/include/ec_systemcore/protocol.hpp), asks the safety gate (SafetyGate of
-- safety.hpp) whether the client may do what it asks, and passes output images through a queue
-- to the buses (the packed images of safety.hpp), each of which runs on the network adapter
-- that adapter_identity.hpp resolves, and each of which follows a distributed clock
-- (DistributedClockController of dc_sync.hpp) in a thread that was set up by
-- ApplyRealtimeConfiguration of realtime.hpp.
--
-- The files:
-- - Base and its children: tests, lists, bits, options and integers that the other modules
--   share.
-- - Protocol/Enums, Protocol/Limits: the enumerations and the constants of protocol.hpp. An
--   enumeration is a data type with a constructor `unnamed` for the values of its underlying
--   type that have no name, since a cast from a byte may give one.
-- - Protocol/Bytes: AppendLe16/32/64 and ReadLe16/32/64; its children hold their laws, and
--   describe a payload as a row of fields, each with a width.
-- - Protocol/Frame: EncodeFrame and FrameDecoder. Its children hold the laws of one round of
--   the decoder's loop, of whole runs of it and of Feed with its errors.
-- - Protocol/Payload: the payload codecs Hello, HelloAck, Epoch, OutputEnable, OutputWrite,
--   SubscribeInputs, AdapterUnlock and OutputsDisabled in modules of their own or in Control,
--   and Status, Ack and PdoInput, each with its laws in a child.
-- - Safety/Gate: SafetyGate, with every method as a function of the gate; Gate/Command has a
--   history of calls as a list.
-- - Safety/Limits: ValidateWholeOutputWrite, CalculateControllerRateLimit and
--   SaturatingIncrement.
-- - Safety/Pdo: the packed PDO images of safety.hpp, from PdoImageByteLength to
--   ZeroPackedPdoImage. An image is a list of bytes, and a bit of it is named by its distance
--   from the image's first bit; the loops run over these distances. Its children state what a
--   read or a write does to every bit.
-- - DcSync: DistributedClockController.
-- - Realtime: ApplyRealtimeConfiguration, with the calls of the operating system as a
--   parameter.
-- - Adapter/Text: TrimAscii, NormalizeMac and NormalizeUsbId of adapter_identity.hpp, on texts
--   as lists of character codes in the C locale; its children hold their laws.
-- - Adapter/Identity, Adapter/Resolution: ValidateAdapterLock and ResolveAdapter, which decides
--   whether the adapter that is plugged in is the locked one.
-- - Json: the parser of daemon/include/ec_systemcore/mini_json.hpp, which reads the daemon's
--   configuration. The cursor holds the rest of the text and nodeCount_; an exception is a
--   value. Json/Text has parseString, isValidUtf8 and the escapes, Json/Text/Valid the table of
--   well-formed UTF-8, Json/Numbers parseNumber, with the conversion to floating point as a
--   parameter, and Json/Values parseValue, parseObject, parseArray and Parse. Twice the text's
--   length and one is enough fuel, since two nested calls read a character. Json/Promises
--   states what the parser keeps to.
-- - Daemon/SpscQueue: the queue SpscQueue of daemon/src/main.cpp between a client's thread and
--   a bus; each call is one step, since it writes its own index once, at its end.
--   Daemon/SpscQueue/Fifo shows it to be a bounded sequence.
-- - Daemon/Bus: the members and the methods of EthercatBus (daemon/src/main.cpp) that the
--   session uses, and RaiseFault. SetSafety and RaiseFault are sequences of single accesses to
--   atomics; a bus says what its thread does in each gap between the accesses of SetSafety.
--   Daemon/Bus/Steps has what these steps keep.
-- - Daemon/Outputs: ApplyOutputCommands, EnforcePerSubDeviceFreshness and ZeroOutputs of
--   EthercatBus, by which its thread fills the I/O map. The map is a list of bytes and a
--   pointer into it a distance from its begin. The loop over the queue takes 513 as fuel, which
--   is enough, since the queue holds at most 511 commands. Outputs/Splices and Outputs/Zeroed
--   state what writing and zeroing an image does to every bit of the map, Outputs/Freshness which
--   SubDevices lose their outputs, Outputs/Writing, Outputs/Commands and Outputs/Permission what
--   one write, one command and the start of permission do, Outputs/Queue the loop.
-- - Daemon/State: the state of Daemon, its clients and what is looked up in it. A client is
--   named by its place in clients_; it is closed once its descriptor is -1.
-- - Daemon/Outgoing: QueueFrame, QueueAck, BroadcastOutputsDisabled and CloseClient. A client
--   that cannot take a frame is closed, and closing the controller tells the other clients, so
--   these functions call one another; close_client takes fuel for this, and 2 is enough, since
--   the gate has no controller when the second close begins.
-- - Daemon/Epochs: AdvanceEpoch, HandleSafetyTimeouts, HandleBusFaults and AllBusesOperational.
-- - Daemon/Handlers: HandleHello and the other handlers; Daemon/Frames: ReadClient,
--   ConsumeRateToken and HandleFrame, over the results of recv; Daemon/Poll: FlushClient over
--   the results of send, a client's turn in PollClients, and sequences of such turns, of
--   timeouts, of faults and of link changes. The children of these modules state what each
--   operation does to the gate and to the buses.
-- - Tests: the theorems at concrete inputs.
--
-- The conventions: a method that changes its object returns the object that it leaves. A byte
-- vector is a list of numbers, and IsBytes says that they are bytes. A width is written out
-- where a number can wrap: the epoch goes from 2^64 - 1 to 1, and the 32-bit counters of the
-- clock saturate. Time points are nanoseconds of the steady clock. The loop of the decoder
-- takes one more than the number of buffered bytes as fuel, which is enough, since every round
-- that goes on consumes a frame of at least 16 bytes.
--
-- Not modelled: the payload BusInfo of protocol.hpp with its UTF-8 test; Scan of
-- adapter_identity.hpp with its readers of sysfs and udev; the accessors of mini_json.hpp
-- (find, stringValue, boolValue, integerValue and integer); the rest of daemon/src/main.cpp,
-- that is the configuration, the log, the rest of the worker thread of a bus (its start,
-- PublishInputs and the cyclic loop), AcceptClients, ScanAdapters, the status and bus
-- broadcasts and the inputs; daemon/src/client.cpp. A handler of the session reads the clocks
-- once. The bus's thread acts by the steps of RaiseFault, between two handlers and within
-- SetSafety; elsewhere a handler sees the buses as they are when it begins. A fault between the
-- test and the store of SetSafety leaves outputsPermitted_ set in the faulted epoch, so nothing
-- is said of faulted epochs; the cyclic loop compares globalFaultedEpoch_ again before it
-- sends. The rate limit counts its tokens exactly, in billionths, where the source has a
-- floating-point number. Memory does not run out. Sockets, threads, sysfs and the EtherCAT
-- library in third_party/SOEM are outside the model; the clients in Java and Python and the
-- configuration application are in other languages.
pub mod Base
pub mod Protocol
pub mod Safety
pub mod Realtime
pub mod DcSync
pub mod Adapter
pub mod Json
pub mod Daemon
pub mod Tests

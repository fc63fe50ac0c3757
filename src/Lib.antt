-- ===== src/Lib.antt =====
-- ds2, a debug server for GDB and LLDB: a model of its core and the theorems that make it correct.
--
-- A debugger sends a stream of bytes. GDBRemote::PacketProcessor cuts it into packets, checks their
-- checksums and hands each to GDBRemote::ProtocolInterpreter, which acknowledges it through the
-- session, splits it into a command and its arguments, looks the command up in a sorted table and
-- calls the handler. GDBRemote::SessionBase sends the replies in frames of the same kind. The process
-- that is debugged is stopped by breakpoints: BreakpointManager counts who wants a breakpoint at an
-- address, SoftwareBreakpointManager writes the trap into memory and puts the old byte back, and
-- HardwareBreakpointManager sets the debug registers of the threads. Where the processor has no single
-- step, as on ARM, the next instructions are computed from the current one and get breakpoints. What
-- happened is told in texts that Structures.cpp writes. A handler of Session reads its arguments, asks
-- the delegate of the session, and sends the reply.
--
-- Files and what they model:
--   Hex          Headers/DebugServer2/Utils/HexValues.h
--   Packet       Headers/DebugServer2/GDBRemote/ProtocolHelpers.h (Helpers: Checksum, Escape, Unescape)
--                and Sources/GDBRemote/PacketProcessor.cpp (Processor: validate, process, parse).
--                Automaton is what parse is meant to do, one byte at a time; Refinement relates the
--                two, Chunks speaks of a stream in pieces, Escaping of the escapes.
--   Interpreter  Sources/GDBRemote/ProtocolInterpreter.cpp: findHandler, registerHandler, the
--                splitting of a packet. Table is the list that Sources/GDBRemote/Session.cpp
--                registers; Lookup, Dispatch and Split hold the proofs.
--   Errors       Headers/DebugServer2/Core/ErrorCodes.h and Sources/Core/ErrorCodes.cpp
--   Session      Sources/GDBRemote/SessionBase.cpp, the template `send` of
--                Headers/DebugServer2/GDBRemote/SessionBase.h, and onPacketData and onCommand of the
--                interpreter, which call both the table and the session. Threads is onPacketData of
--                Sources/Core/SessionThread.cpp, with receive of Sources/Host/Common/QueueChannel.cpp and of
--                SessionBase, which take the packet from the queue.
--   Breakpoint   Sources/Core/BreakpointManager.cpp (Sites, Manager; proofs in References and
--                Histories, with Histories.Runs), Sources/Core/SoftwareBreakpointManager.cpp and its part for x86,
--                Sources/Core/X86/SoftwareBreakpointManager.cpp (Software; proofs in Restore, Sweep,
--                Cycle and Runs); Sources/Core/HardwareBreakpointManager.cpp and its part for x86 (Hardware;
--                Control is the control register, with the functions of
--                Headers/DebugServer2/Utils/Bits.h;
--                proofs in Slots, Threads, Locations and Full);
--                `hit` and fillStopInfo of both (Hits, with Reports).
--   Arm          Headers/DebugServer2/Architecture/ARM/Branching.h (the file itself), and of
--                Sources/Architecture/ARM ARMBranchInfo.cpp (Decode), ThumbBranchInfo.cpp (Thumb) and
--                SoftwareSingleStep.cpp (Step: ThumbStep, ArmStep, Prepare);
--                Sources/Core/ARM/SoftwareBreakpointManager.cpp (Breakpoints). Branches and
--                WideBranches (with WideEncoding) step over encoded branches, Blocks over IT blocks
--                (with Kept and Skipped), Status over instructions that are no branches; Sized, Added
--                and Placed hold the proofs on the breakpoints of a step.
--   Structures   Sources/GDBRemote/Structures.cpp: Ids (ProcessThreadId), Replies (Feature,
--                MemoryRegionInfo, ServerVersion, ProgramResult), Registers (RegisterInfo), Processes
--                (ProcessInfo), Hosts (HostInfo), Stops, RegisterTexts and Json (StopInfo; proofs in Total
--                and Memory); Numbers has the formats of the standard library (proofs in RoundTrip,
--                Padded and Fixed), Fields and Regions read the texts again; CpuTypes is
--                Sources/Core/CPUTypes.cpp.
--   Queue        Sources/Core/MessageQueue.cpp, which hands packets from the receiving thread to the
--                session's; Order has the steps of the threads, Ending what holds after the end.
--   Handlers     Sources/GDBRemote/Session.cpp: what a command does. Calls and World are the session and
--                its delegate (Headers/DebugServer2/GDBRemote/SessionDelegate.h), with World.Replies, Scan reads arguments
--                (ParseList, parseAddress, formatAddress, strtoul; proofs in Addresses, Lists and
--                Decimals). The handlers stand in Memory (with Cycle), Breakpoints, Registers (with
--                Texts), Resume (with Selection and Actions), Ending (with Run), Threads, Settings,
--                Xfer (with Speed), Files (vFile; proofs in Flags, Numbers and Cycle), Queries,
--                Profiling (with Names), Arguments (the packet A; proofs in Numbered, Lists and Fuel)
--                and Processes. Xfer.Download has onXferRead of Sources/GDBRemote/DebugSessionImpl.cpp
--                as far as it cuts an object into slices, Xfer.Objects the packets of a debugger that
--                reads an object. Commands lists the commands, Answers speaks of all of them, and
--                Serving joins them to the interpreter and its table (with Named and Cycle).
--   Base         tests on numbers, lists and the names of the libraries that all files share.
--   The modules called Examples apply the theorems to concrete data.
--
-- Conventions. A character is its byte, a number from 0 to 255; std::string is a list of bytes and
-- npos is `none`. A computation that fails an assertion, reaches DS2BUG, throws or reads outside its
-- text is `none`. The calls of a packet delegate are returned as a list of events. A std::map is a
-- list in the order of its keys. Arithmetic in uint8_t is taken modulo 256 and in unsigned long modulo 2 ^ 64.
-- In Arm a word is a number below 2 ^ 32, a signed one its bit pattern, and a step that fails is an
-- outcome that keeps errors and undefined behaviour apart.
-- A debug register is given by its bits. An offset into a packet is far below 2 ^ 64.
--
-- Fuel: the loop of PacketProcessor::parse moves on by a byte at least in each round, so one round
-- for each byte and one to leave the loop are enough, which Packet.Refinement uses. The loop of
-- qSpeedTest adds a byte at least in each round, so one round more than the length asked for is
-- enough. The loop of the packet A passes two commas at least, so a round for each byte is enough. A
-- debugger that reads an object gets a byte at least in each slice but the last; its fuel is
-- a number above the length of the object. Numbers are printed with fuel for 16 hexadecimal or 20
-- decimal digits, which hold any number below 2 ^ 64.
--
-- Parameters: the channel (Host::Channel), the virtual methods of a breakpoint manager, the memory
-- of the process, which Breakpoint.Software.Restore describes by laws, and the registers of a thread,
-- with laws in Breakpoint.Hardware.Threads and Breakpoint.Hits.Reports; on ARM a function that reads
-- the state of the processor; the delegate of a session, a record of its operations over a state of
-- the target, with the JSON library's printing of an array and the sizes that std::string::reserve can
-- give. Elsewhere memory does not run out. A thread argument of the breakpoint managers is nullptr.
--
-- Not modelled: logging; the receiving loops of a channel and of the receiving thread; how the JSON
-- library prints; the parts for Windows, Apple and ARM64; the layers that call the operating system
-- (Host, Target) or are generated (the register tables); of the delegates of a session all but the
-- slices of onXferRead.
mod Base
pub mod Hex
pub mod Packet
pub mod Interpreter
pub mod Errors
pub mod Session
pub mod Breakpoint
pub mod Queue
pub mod Arm
pub mod Structures
pub mod Handlers

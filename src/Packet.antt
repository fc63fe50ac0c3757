-- ===== src/Packet.antt =====
-- The packet layer: Headers/DebugServer2/GDBRemote/ProtocolHelpers.h and
-- Sources/GDBRemote/PacketProcessor.cpp.
mod Examples
pub mod Helpers
pub mod Escaping
pub mod Processor
pub mod Automaton
pub mod Refinement
pub mod Chunks

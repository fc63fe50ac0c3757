-- ===== src/Structures.antt =====
-- Sources/GDBRemote/Structures.cpp: the texts of the protocol's structures.
pub mod Numbers
pub mod Ids
pub mod CpuTypes
pub mod Replies
pub mod Fields
pub mod Regions
pub mod RegisterTexts
pub mod Stops
pub mod Json
pub mod Registers
pub mod Processes
pub mod Hosts
pub mod Examples

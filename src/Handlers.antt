-- ===== src/Handlers.antt =====
-- Sources/GDBRemote/Session.cpp: the handlers of the commands, as functions of the arguments and of the
-- session, which call the delegate and send replies.
pub mod Calls
pub mod World
pub mod Scan
pub mod Memory
pub mod Breakpoints
pub mod Registers
pub mod Resume
pub mod Ending
pub mod Threads
pub mod Settings
pub mod Xfer
pub mod Files
pub mod Queries
pub mod Profiling
pub mod Arguments
pub mod Processes
pub mod Commands
pub mod Serving
pub mod Answers
mod Examples

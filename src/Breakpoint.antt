-- ===== src/Breakpoint.antt =====
-- Core/BreakpointManager and its two subclasses (Headers/DebugServer2/Core, Sources/Core).
mod Examples
pub mod Sites
pub mod Manager
pub mod References
pub mod Histories
pub mod Software
pub mod Control
pub mod Hardware
pub mod Hits

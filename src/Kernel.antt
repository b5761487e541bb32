-- ===== src/Kernel.antt =====
-- src/missionforge/kernel: declarations of steps and flows, and the flow runner.
pub mod Contracts
pub mod Toolset
pub mod Declaration
pub mod Route
pub mod Ledger
pub mod Flow
pub mod Snapshot
pub mod Run
pub mod Accepted
pub mod Compile
pub mod Attempts
pub mod Resume

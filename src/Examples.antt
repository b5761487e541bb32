-- ===== src/Examples.antt =====
-- The theorems at concrete inputs.
mod Refs
mod Access
mod Flows
mod Running
mod Obligations
mod Gates
mod Ledgers
mod Workers
mod Resumed
mod Events
mod Evidences

-- ===== src/Netstate/Trace/Certain.antt =====
-- A walk's outcome against the reference of Netstate/Trace/Resolution.
pub mod Track
pub mod Admin
pub mod Tier
pub mod Project
pub mod Netpols
pub mod Verdict
pub mod Connected
pub mod Direction
pub mod Gateway
pub mod Flow

-- ===== src/Netstate/Trace.antt =====
-- internal/netstate/trace.go: one flow walked through the policy planes. The walk's state is in
-- Trace/Walk, one direction in Trace/Direction, the gateway and the report in Trace/Report.
pub mod Walk
pub mod Direction
pub mod Report
pub mod Resolution
pub mod Certain

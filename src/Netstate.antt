-- ===== src/Netstate.antt =====
-- internal/netstate: the policy plane of the networking read model, and the flow trace over it.
pub mod Catalog
pub mod Doc
pub mod View
pub mod External
pub mod Match
pub mod Rule
pub mod Decode
pub mod Snapshot
pub mod RuleMatch
pub mod Effective
pub mod Policies
pub mod Topology
pub mod Trace
pub mod Open

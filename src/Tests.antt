-- ===== src/Tests.antt =====
-- The theorems at concrete inputs.
mod Membership
mod Agreements
mod Elections
mod Files
mod Transfers
mod Topologies
mod Nodes
mod Supervisors
mod Builders
mod Workers
mod Messages
mod Clients
mod Services
mod WordCounts
pub mod Exchanges
pub mod Arrivals

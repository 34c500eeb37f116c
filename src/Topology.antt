-- ===== src/Topology.antt =====
-- The topologies of crane-core: the grouping schemes, the builder that user programs call, and the
-- specification that a submit request carries.
pub mod Grouping
pub mod Builder
pub mod Request

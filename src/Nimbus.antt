-- ===== src/Nimbus.antt =====
-- daemon/src/nimbus/Nimbus.cpp, daemon/src/message/CraneMessageHandler.cpp and
-- crane-core/src/topology/TopologySpec.cpp: the master of the topologies.
pub mod Stats
pub mod Assign
pub mod Lifecycle
pub mod Requests

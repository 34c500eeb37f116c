-- ===== src/Election.antt =====
-- daemon/src/election/Candidate.{h,cpp} and daemon/src/message/ElectionMessageHandler.cpp: the
-- election of a leader, the node with the lowest name, at one node. The threads are the steps of
-- `Step`: what stands between two waits is one function on the state.
pub mod Lowest
pub mod Node
pub mod Confirmations
pub mod History
pub mod Wire
pub mod Group
pub mod Agreement

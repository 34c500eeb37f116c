-- ===== src/DMember.antt =====
-- daemon/src/DMember.{h,cpp}: the membership service of a node, without its sockets and threads.
-- Each critical section is a function on the state. The clock is read inside the loops, once for
-- a key: such a loop takes a function from keys to readings, and the merging loop one for each map.
pub mod Types
pub mod Merge
pub mod Heartbeat
pub mod Connect
pub mod Tables
pub mod Detector
pub mod Reports
pub mod Ring
pub mod Delivery
pub mod Messages

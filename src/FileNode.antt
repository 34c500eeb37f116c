-- ===== src/FileNode.antt =====
-- daemon/src/filesys/DFile.cpp: the part of the replicated file system that runs on every node,
-- and the part of daemon/src/message/DFileMessageHandler.cpp that serves it.
pub mod Chunks
pub mod Transfer
pub mod Store
pub mod Service
pub mod Messages
pub mod Daemon
pub mod Exchange
pub mod Unanswered

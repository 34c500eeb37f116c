-- ===== src/FileMaster.antt =====
-- daemon/src/filesys/DFileMaster.{h,cpp}: the master of the replicated file system, and the part of
-- daemon/src/message/DFileMessageHandler.cpp that runs on it.
pub mod Files
pub mod Replicate
pub mod Requests

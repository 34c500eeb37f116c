-- ===== src/Worker.antt =====
-- The worker process (`daemon/src/worker/Worker.cpp`) and the handler of its messages
-- (`daemon/src/message/WorkerMessageHandler.cpp`): tuples, and the groups of connections.
pub mod Send
pub mod Child
pub mod Deliver
pub mod Parent

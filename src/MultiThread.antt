-- ===== src/MultiThread.antt =====
-- dev_examples/libevent_multithreads: the server that hands messages to worker threads.
pub mod Reader
pub mod Server
pub mod Main
pub mod Flow

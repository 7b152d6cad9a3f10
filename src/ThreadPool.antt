-- ===== src/ThreadPool.antt =====
-- AsioThreadPool/: the callback server whose sessions all live on one I/O context, which several threads
-- run. Its sources are those of SingleThreadAsyncServer, apart from the strand of a session, the context
-- that CServer takes, the pool, and main.cpp.
pub mod Logic
pub mod Session
pub mod Threads
pub mod Server

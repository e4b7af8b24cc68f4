-- ===== src/Logger.antt =====
-- The asynchronous debug logger, with its worker thread and its callers:
-- CoreEngine/AsyncLogger.h and .cpp.
pub mod Sections
pub mod Threads
pub mod Invariant
pub mod Quiescence
pub mod Draining
pub mod Races
pub mod Runs
pub mod Examples

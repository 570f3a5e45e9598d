-- ===== src/Workers.antt =====
-- app/workers: the processes that move runs through their life.
pub mod Executor
pub mod Watcher
pub mod Reconciler
pub mod Continuation

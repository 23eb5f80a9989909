-- ===== src/Queue/Conserve.antt =====
-- src/enoch/tasks/queue.py: the ids in a queue before and after each operation, in a module for each
-- kind of operation.
pub mod Changes
pub mod Retried
pub mod Resumed
pub mod Paused
pub mod Unread
pub mod Ends
pub mod Starts
pub mod Workers
pub mod Reconciled

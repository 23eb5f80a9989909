-- ===== src/Queue.antt =====
-- src/enoch/tasks/queue.py: the stored queue, what an operation does to it, and the transaction
-- around each operation.
pub mod Types
pub mod Store
pub mod Count
pub mod Stored
pub mod Moves
pub mod Conserve
pub mod Reach
pub mod Order
pub mod Fences
pub mod Reuse
pub mod Parsing
pub mod Readable
pub mod Unreadable
pub mod Cautious
mod Fixtures
mod Examples
pub mod Invariant
pub mod Clock
pub mod Published
pub mod Enqueue
pub mod Begin
pub mod Worker
pub mod Finish
pub mod Pause
pub mod Retry
pub mod Regress
pub mod Record
pub mod Evidence
pub mod Reconcile

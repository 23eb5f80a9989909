-- ===== src/Schedules.antt =====
-- src/enoch/extensions/schedules.py: the schedules that extensions declare, their durable records,
-- and the operations on them.
pub mod Types
pub mod Times
pub mod Spec
pub mod Store
pub mod Control
pub mod Claims
pub mod Acknowledge
pub mod Declare
pub mod Reconcile
pub mod Normal
pub mod Reach
pub mod Lookup
pub mod Once
pub mod Again
pub mod Handed
pub mod Refine
pub mod Refused
mod Examples

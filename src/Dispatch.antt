-- ===== src/Dispatch.antt =====
-- services/dispatch-service: drivers, batches of orders, greedy matching and reassignment.
pub mod Model
pub mod Machine
pub mod Batcher
pub mod Matcher
pub mod Service
mod Samples

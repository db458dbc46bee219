-- ===== src/Checkout.antt =====
-- services/checkout-service: the saga orchestrator, its five steps and the checkout flow.
pub mod Saga
pub mod Steps
pub mod Flow
mod Samples

-- ===== src/Kit.antt =====
-- pkg/kit/circuitbreaker and pkg/consistenthash.
pub mod Breaker
pub mod Ring

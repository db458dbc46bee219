-- ===== src/Flash.antt =====
-- services/flash-sale.
pub mod Stock
pub mod Slots
pub mod Pipeline
pub mod Lottery

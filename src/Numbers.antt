-- ===== src/Numbers.antt =====
-- Programs on representations of numbers, one in each child module.
pub mod Rome
pub mod Setun
pub mod Hexen

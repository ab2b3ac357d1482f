-- ===== src/Difficulty.antt =====
-- difficulty.go
pub mod Compact
pub mod Work

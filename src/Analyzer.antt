-- ===== src/Analyzer.antt =====
-- service/analyzer.go: day-ahead prices to a trading plan.
pub mod Types
pub mod Windows
pub mod Cycles
pub mod Plan
pub mod Lookup

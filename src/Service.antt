-- ===== src/Service.antt =====
-- service/service.go: the trading engine.
pub mod Types
pub mod Machine
pub mod Control
pub mod Safety
pub mod Average
pub mod Trades
pub mod Grid
pub mod Solar
pub mod Tick
pub mod SolarTick
pub mod Prices
pub mod Status
pub mod Induction
pub mod Loop
pub mod Make
pub mod Outcomes

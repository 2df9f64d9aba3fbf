-- ===== src/Service/Outcomes.antt =====
-- What single steps of service/service.go achieve, on every branch.
pub mod Stops
pub mod Sessions
pub mod Entries
pub mod Decisions
pub mod Surplus

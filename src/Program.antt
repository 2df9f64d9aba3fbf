-- ===== src/Program.antt =====
-- The program entry, cmd/trader/main.go (Start, Wiring, Launch, Goroutines), and its settings,
-- internal/config/config.go (Settings).
pub mod Settings
pub mod Start
pub mod Wiring
pub mod Goroutines
pub mod Launch
pub mod Plans

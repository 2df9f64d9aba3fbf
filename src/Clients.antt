-- ===== src/Clients.antt =====
-- The clients of the repository's clients/ folder, behind the interfaces of service/interfaces.go.
pub mod Format
pub mod Wire
pub mod Esphome
pub mod Marstek
pub mod Homewizard
pub mod Nordpool
pub mod Telegram

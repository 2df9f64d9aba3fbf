-- ===== src/Clients/Esphome.antt =====
-- clients/esphome/client.go: the battery behind the HTTP interface of ESPHome.
pub mod Types
pub mod Requests
pub mod Control

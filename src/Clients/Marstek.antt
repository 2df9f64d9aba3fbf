-- ===== src/Clients/Marstek.antt =====
-- The UDP client of the battery, clients/marstek/client.go: its data (Types), the exchange of one
-- request (Socket) and the operations made of it (Requests).
pub mod Types
pub mod Socket
pub mod Requests
pub mod Packets
pub mod Answers
pub mod Status

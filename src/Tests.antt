-- ===== src/Tests.antt =====
-- Witnesses of the theorems at concrete inputs, over a small platform and a simulated house.
mod Numbers
mod House
mod Plans
mod Books
mod Engine
mod Files
mod Battery
mod Socket
mod Meters
mod Market
mod Chat
mod Start
mod Whole

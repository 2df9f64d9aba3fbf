-- ===== src/Clients/Homewizard.antt =====
-- The P1 meter, clients/homewizard/: its client (Meter), the search for a meter (Discovery), and
-- its scan of the network (Scan).
pub mod Meter
pub mod Discovery
pub mod Scan

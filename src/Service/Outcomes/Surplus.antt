-- ===== src/Service/Outcomes/Surplus.antt =====
-- When `solarTick` of service/service.go starts a session on solar surplus.
use marstek_energy_trading.Platform.{Platform}
use marstek_energy_trading.Service.Machine.{Machine}

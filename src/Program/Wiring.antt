-- ===== src/Program/Wiring.antt =====
-- The engine over its clients, as cmd/trader/main.go puts them together: `service.New` with the Nord
-- Pool client, the ESPHome battery, the P1 meter, the Telegram bot and the recorder.
pub mod Readings
pub mod Modes
pub mod Stopped
use marstek_energy_trading.Prelude.{ℕ, Bool, Option, List, String, ℤ}
use marstek_energy_trading.Platform.{Time, Duration, Platform}
use marstek_energy_trading.Recorder.Types.{Trade}
use marstek_energy_trading.Recorder.Store
use marstek_energy_trading.Recorder.Store.{Files}
use marstek_energy_trading.Service.Types.{
  Result, ok, failed, Command, BatteryStatus, Env, Notification,
}
use marstek_energy_trading.Clients.Wire.{Action, error_of}
use marstek_energy_trading.Clients.Esphome.Types.{Http, Wire, FullBatteryStatus}
use marstek_energy_trading.Clients.Esphome.Requests
use marstek_energy_trading.Clients.Esphome.Control.{perform}
use marstek_energy_trading.Clients.Homewizard.Meter
use marstek_energy_trading.Clients.Homewizard.Meter.{Network}
use marstek_energy_trading.Clients.Nordpool
use marstek_energy_trading.Clients.Nordpool.{Market}
use marstek_energy_trading.Clients.Telegram
use marstek_energy_trading.Clients.Telegram.{Bot, Session}
use marstek_energy_trading.Clients.Telegram.Messages.{send_notification}
use marstek_energy_trading.Program.Start.{Clients}

-- The clock, the contexts and the tickers of the process.
pub record Process : Type 1 where
  pub World : Type 0
  pub now : World → Time × World
  pub wall_now : World → Time × World
  pub context_done : World → Bool × World
  pub ticks_before_deadline : Duration → Duration → World → ℕ × World

-- What the engine reads of a battery status.
abbrev pub status_of : {N : Platform} → Result (FullBatteryStatus N) → Result BatteryStatus
status_of (failed e) = failed e
status_of (ok s) =
    ok (record { soc = s.soc; charging_flag = s.charging_flag; discharg_flag = s.discharg_flag })

-- The servers, the disk and the process that the program runs with.
pub record Surroundings (N : Platform) : Type 1 where
  pub battery : Http N
  pub meter : Network N
  pub market : Market N
  pub bot : Bot N
  pub files : Files N
  pub process : Process

pub record World {N : Platform} (S : Surroundings N) : Type 0 where
  pub wire : Wire S.battery
  pub meter : Network.World S.meter
  pub market : Market.World S.market
  pub session : Session S.bot
  pub disk : Files.Disk S.files
  pub process : Process.World S.process

module _ {N : Platform} {S : Surroundings N} where
  abbrev on_wire : {A : Type 0} → Action (Wire S.battery) A → Action (World S) A
  on_wire act w = let (a, s) = act w.wire in (a, record w { wire = s })

  abbrev on_meter : {A : Type 0} → Action (Network.World S.meter) A → Action (World S) A
  on_meter act w = let (a, s) = act w.meter in (a, record w { meter = s })

  abbrev on_market : {A : Type 0} → Action (Market.World S.market) A → Action (World S) A
  on_market act w = let (a, s) = act w.market in (a, record w { market = s })

  abbrev on_session : {A : Type 0} → Action (Session S.bot) A → Action (World S) A
  on_session act w = let (a, s) = act w.session in (a, record w { session = s })

  abbrev on_disk : {A : Type 0} → Action (Files.Disk S.files) A → Action (World S) A
  on_disk act w = let (a, s) = act w.disk in (a, record w { disk = s })

  abbrev on_process : {A : Type 0} → Action (Process.World S.process) A → Action (World S) A
  on_process act w = let (a, s) = act w.process in (a, record w { process = s })

-- The interfaces of service/interfaces.go, as the clients implement them. The error of a notification
-- is only logged.
abbrev pub env_of : {N : Platform} (S : Surroundings N) → Clients S.market → Env N
env_of S clients = record {
  World = World S;
  now = on_process S.process.now;
  wall_now = on_process S.process.wall_now;
  context_done = on_process S.process.context_done;
  command = λ c. on_wire (perform c);
  get_battery_status = λ w.
      let (r, w') = on_wire (Requests.get_battery_status clients.min_soc) w in (status_of r, w');
  get_es_status = on_wire Requests.get_es_status;
  get_battery_power = on_wire Requests.get_battery_power;
  get_active_power = on_meter (Meter.get_active_power_w S.meter clients.meter);
  ticks_before_deadline =
      λ timeout interval. on_process (S.process.ticks_before_deadline timeout interval);
  connect = on_wire Requests.connect;
  discover = λ w. let (r, w') = on_wire Requests.discover w in (error_of r, w');
  fetch_today_prices = on_market (Nordpool.fetch_today_prices S.market clients.nordpool);
  fetch_tomorrow_prices = on_market (Nordpool.fetch_tomorrow_prices S.market clients.nordpool);
  telegram_enabled = clients.telegram.enabled;
  poll_commands = on_session (Telegram.poll_commands S.bot);
  load_trades = λ trades. on_disk (Store.load_trades S.files clients.data_dir trades);
  send = λ n w. (on_session (send_notification S.bot n) w).1;
  save_trades = λ trades. on_disk (Store.save_trades S.files clients.data_dir trades);
}

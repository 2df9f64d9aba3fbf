-- ===== src/Program/Start.antt =====
-- What cmd/trader/main.go makes of the settings: the level of the log, the URL of the meter and the
-- clients.
use text.Mathlib.Text
use marstek_energy_trading.Prelude.{Option, String, ℤ, pos, if◌then◌else◌}
use marstek_energy_trading.Platform.{Platform}
use marstek_energy_trading.Service.Types.{Result, ok, failed}
use marstek_energy_trading.Program.Settings.{Settings, location}
use marstek_energy_trading.Clients.Esphome.Types.{new_min_soc}
use marstek_energy_trading.Clients.Homewizard.Meter
use marstek_energy_trading.Clients.Homewizard.Discovery.{DiscoveryResult}
use marstek_energy_trading.Clients.Nordpool
use marstek_energy_trading.Clients.Nordpool.{Market}
use marstek_energy_trading.Clients.Telegram

pub data LogLevel : Type 0 where
  debug info warn error : LogLevel

unfoldable pub log_level_of : String → LogLevel
log_level_of name =
    if Text.◌==◌ name "debug"
    then debug
    else if Text.◌==◌ name "warn"
    then warn
    else if Text.◌==◌ name "error"
    then error
    else info

-- The URL of the meter; the search is made only where the settings give none.
unfoldable pub p1_url_of : String → Result DiscoveryResult → String
p1_url_of configured found =
    if Text.◌==◌ configured "" then elim found [ failed e ↦ "" | ok r ↦ r.url ] else configured

module _ (N : Platform) where
  open N use {float_mul, literal, truncate}

  -- The minimum of the state of charge in percent, as the ESPHome client keeps it.
  unfoldable pub esphome_min_soc : Settings N → ℤ
  unfolding new_min_soc
  esphome_min_soc c = new_min_soc (truncate (float_mul c.battery_min_soc (literal (pos 100) 1)))

module _ {N : Platform} (M : Market N) where
  -- The clients and the directory of the recorder.
  pub record Clients : Type 0 where
    pub nordpool : Nordpool.Client M
    pub esphome_url : String
    pub min_soc : ℤ
    pub meter : Meter.Client
    pub telegram : Telegram.Client
    pub data_dir : String

  unfoldable pub make_clients :
      (String → Option (Market.Location M))
      → Market.Location M
      → Settings N
      → Result DiscoveryResult
      → Clients
  unfolding esphome_min_soc p1_url_of location Nordpool.new_with_location Meter.new Telegram.new
  make_clients load_location utc c found = record {
    nordpool =
        Nordpool.new_with_location M c.nordpool_area c.nordpool_currency
          (location N load_location utc c);
    esphome_url = c.esphome_url;
    min_soc = esphome_min_soc N c;
    meter = Meter.new (p1_url_of c.home_wizard_p1_url found);
    telegram = Telegram.new c.telegram_bot_token c.telegram_chat_id;
    data_dir = c.data_dir;
  }

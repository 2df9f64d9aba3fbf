-- ===== src/Program/Settings.antt =====
-- `Config` of internal/config/config.go. What `env.Parse` makes of the environment is a parameter.
use text.Mathlib.Text
use marstek_energy_trading.Prelude.{
  ◌&&◌, ◌||◌, Bool, not, Option, none, some, String, ℤ, pos, if◌then◌else◌,
}
use marstek_energy_trading.Platform.{Platform}
use marstek_energy_trading.Service.Types.{Result, ok, failed, Config}

module _ (N : Platform) where
  open N use {Float, literal, float_lt, float_le}

  pub record Settings : Type 0 where
    pub service_name : String
    pub log_level : String
    pub http_listen_addr : String
    pub data_dir : String
    pub tz : String
    pub nordpool_area : String
    pub nordpool_currency : String
    pub min_price_spread : Float
    pub battery_efficiency : Float
    pub battery_capacity_kwh : Float
    pub battery_min_soc : Float
    pub max_cycles_per_day : ℤ
    pub battery_udp_addr : String
    pub esphome_url : String
    pub charge_power_w : ℤ
    pub discharge_power_w : ℤ
    pub passive_mode_timeout_s : ℤ
    pub home_wizard_p1_url : String
    pub solar_min_surplus_w : ℤ
    pub telegram_bot_token : String
    pub telegram_chat_id : String

  -- The fields that the engine reads.
  abbrev pub engine_config : Settings → Config N
  engine_config c = record {
    service_name = c.service_name;
    min_price_spread = c.min_price_spread;
    battery_efficiency = c.battery_efficiency;
    battery_capacity_kwh = c.battery_capacity_kwh;
    battery_min_soc = c.battery_min_soc;
    max_cycles_per_day = c.max_cycles_per_day;
    charge_power_w = c.charge_power_w;
    discharge_power_w = c.discharge_power_w;
    passive_mode_timeout_s = c.passive_mode_timeout_s;
    solar_min_surplus_w = c.solar_min_surplus_w;
  }

  abbrev pub zero_float : Float
  zero_float = literal (pos 0) 1

  abbrev pub one_float : Float
  one_float = literal (pos 1) 1

  -- The error of the first setting that is out of bounds.
  unfoldable pub validate : Settings → Option String
  validate c =
      if float_le c.battery_efficiency zero_float || float_lt one_float c.battery_efficiency
      then some "BATTERY_EFFICIENCY must be in (0.0, 1.0]"
      else if float_lt c.battery_min_soc zero_float || float_le one_float c.battery_min_soc
      then some "BATTERY_MIN_SOC must be in [0.0, 1.0)"
      else if float_lt c.min_price_spread zero_float
      then some "MIN_PRICE_SPREAD must be >= 0"
      else none

  -- `Load`, from the result of `env.Parse`.
  unfoldable pub load : Result Settings → Result Settings
  unfolding validate
  load (failed e) = failed e
  load (ok c) = elim (validate c) [ some e ↦ failed e | none ↦ ok c ]

  unfoldable pub telegram_enabled : Settings → Bool
  telegram_enabled c =
      not (Text.◌==◌ c.telegram_bot_token "") && not (Text.◌==◌ c.telegram_chat_id "")

  -- `Location`: a name that `time.LoadLocation` refuses stands for UTC.
  unfoldable pub location : {L : Type 0} → (String → Option L) → L → Settings → L
  location load_location utc c = elim (load_location c.tz) [ some loc ↦ loc | none ↦ utc ]

-- ===== src/Service/Types.antt =====
-- The data of service/service.go: the states, the settings of internal/config/config.go that the
-- engine reads, the fields of `Service`, and what crosses its interfaces (service/interfaces.go).
use marstek_energy_trading.Prelude.{
  ◌≡◌, refl, ◌⊎◌, inl, inr, ℕ, ◌*◌, Bool, true, false, Option, List, String, ℤ, pos,
}
use marstek_energy_trading.Platform.{Time, Duration, Platform, second, minute}
use marstek_energy_trading.Analyzer.Types.{Price, TradingPlan}
use marstek_energy_trading.Recorder.Types.{Trade}

pub data State : Type 0 where
  idle charging discharging solar_charging stopping : State

pub State-discrete : Discrete State
State-discrete = hlevel

-- `solarStopReason`.
pub data SolarStopReason : Type 0 where
  surplus_gone battery_full yield_window telemetry_failure : SolarStopReason

abbrev pub solar_min_session_duration : ℕ
solar_min_session_duration = 60 * second

abbrev pub solar_restart_cooldown : ℕ
solar_restart_cooldown = 60 * second

abbrev pub solar_short_session_cooldown : ℕ
solar_short_session_cooldown = 5 * minute

abbrev pub solar_long_backoff_cooldown : ℕ
solar_long_backoff_cooldown = 15 * minute

abbrev pub solar_short_session_threshold : ℕ
solar_short_session_threshold = 2 * minute

abbrev pub solar_short_session_backoff_count : ℕ
solar_short_session_backoff_count = 3

abbrev pub solar_start_qualification_count : ℕ
solar_start_qualification_count = 10

abbrev pub solar_min_charge_power_w : ℤ
solar_min_charge_power_w = pos 75

abbrev pub solar_stop_debounce_count : ℕ
solar_stop_debounce_count = 10

abbrev pub battery_start_verification_timeout : ℕ
battery_start_verification_timeout = 10 * second

abbrev pub battery_start_verification_interval : ℕ
battery_start_verification_interval = second

abbrev pub battery_control_failure_cooldown : ℕ
battery_control_failure_cooldown = 5 * minute

abbrev pub battery_stop_retry_interval : ℕ
battery_stop_retry_interval = 5 * second

abbrev pub solar_status_failure_threshold : ℕ
solar_status_failure_threshold = 10

-- An answer or the text of an error.
pub data Result (A : Type 0) : Type 0 where
  ok : A → Result A
  failed : String → Result A

abbrev pub succeeded : {A : Type 0} → Result A → Bool
succeeded (ok a) = true
succeeded (failed e) = false

pub Result-cases :
    {A : Type 0} (r : Result A) → ((a : A) × (r ≡ ok a)) ⊎ ((e : String) × (r ≡ failed e))
Result-cases (ok a) = inl (a, refl)
Result-cases (failed e) = inr (e, refl)

-- The calls of `BatteryController` that control the battery: a power in watts and a timeout in
-- seconds. A negative power of `set_passive_mode` charges.
pub data Command : Type 0 where
  charge : ℤ → ℤ → Command
  discharge : ℤ → ℤ → Command
  set_passive_mode : ℤ → ℤ → Command
  stop : Command

-- The part of `marstek.BatteryStatus` that the engine reads.
pub record BatteryStatus : Type 0 where
  pub soc : ℤ
  pub charging_flag : Bool
  pub discharg_flag : Bool

module _ (N : Platform) where
  open N use {Decimal, Float}

  -- The part of `marstek.ESStatus` that the engine reads.
  pub record EsStatus : Type 0 where
    pub battery_soc : ℤ
    pub battery_power : Float

  pub record Config : Type 0 where
    pub service_name : String
    pub min_price_spread : Float
    pub battery_efficiency : Float
    pub battery_capacity_kwh : Float
    pub battery_min_soc : Float
    pub max_cycles_per_day : ℤ
    pub charge_power_w : ℤ
    pub discharge_power_w : ℤ
    pub passive_mode_timeout_s : ℤ
    pub solar_min_surplus_w : ℤ

  pub record Service : Type 0 where
    pub cfg : Config
    pub state : State
    pub current_plan : Option (TradingPlan N)
    pub today_prices : List (Price N)
    pub tomorrow_prices : List (Price N)
    pub last_passive_refresh : Time
    pub current_trade_start : Time
    pub current_trade_price : Decimal
    pub current_trade_soc : ℤ
    pub last_charge_price : Decimal
    pub last_error_notify : Time
    pub last_midnight_swap : Time
    pub last_daily_summary : Time
    pub battery_cooldown_until : Time
    pub battery_verification_timeout : Duration
    pub battery_verification_interval : Duration
    pub battery_stop_retry_delay : Duration
    pub last_stop_attempt : Time
    pub solar_surplus_count : ℕ
    pub solar_stop_count : ℕ
    pub solar_charge_power : ℤ
    pub solar_measured_charge_power_w : Float
    pub solar_energy_ws : Float
    pub solar_last_update : Time
    pub solar_cooldown_until : Time
    pub solar_surplus_ema : Float
    pub solar_consecutive_short_sessions : ℕ
    pub solar_status_failures : ℕ

  -- `telegram.TradingPlanCycle`, its times before they are formatted.
  pub record TradingPlanCycle : Type 0 where
    pub charge_start : Time
    pub charge_end : Time
    pub charge_price : Float
    pub discharge_start : Time
    pub discharge_end : Time
    pub discharge_price : Float
    pub profit_per_kwh : Float

  -- `telegram.TradingPlanData`, without its fixed reason text.
  pub record TradingPlanData : Type 0 where
    pub day : String
    pub date : Time
    pub slots_total : ℕ
    pub slots_analyzed : ℕ
    pub price_min : Float
    pub price_max : Float
    pub is_profitable : Bool
    pub min_spread_for_efficiency : Float
    pub min_spread_configured : Float
    pub battery_efficiency : Float
    pub cycles : List TradingPlanCycle

  -- `telegram.DailySummaryData`.
  pub record DailySummaryData : Type 0 where
    pub date : Time
    pub pnl_eur : Float
    pub charged_kwh : Float
    pub discharged_kwh : Float
    pub charge_cycles : ℕ
    pub discharge_cycles : ℕ
    pub solar_charged_kwh : Float
    pub solar_charge_cycles : ℕ
    pub avg_charge_price : Float
    pub min_charge_price : Float
    pub avg_discharge_price : Float
    pub max_discharge_price : Float
    pub total_pnl_eur : Float

  -- `CurrentStatus`; zero stands for a price that is not known.
  pub record CurrentStatus : Type 0 where
    pub state : State
    pub battery_available : Bool
    pub battery_soc : ℤ
    pub battery_power_w : Float
    pub current_price : Float
    pub next_action : String

  -- What the engine sends through Telegram; an error text is kept in its two parts, and the status
  -- comes with today's and the total profit.
  pub data Notification : Type 0 where
    trade_start : String → Float → ℤ → Notification
    trade_end : String → Float → Float → ℤ → Notification
    failure : String → String → Notification
    startup : String → Notification
    trading_plan : TradingPlanData → Notification
    daily_summary : DailySummaryData → Notification
    status : CurrentStatus → Float → Float → Notification

  -- The collaborators behind the interfaces, the clock and the contexts, as operations on a world
  -- that may answer in any way. `ticks_before_deadline timeout interval` is how often a ticker fires
  -- before the deadline does.
  pub record Env : Type 1 where
    pub World : Type 0
    pub now : World → Time × World
    pub wall_now : World → Time × World
    pub context_done : World → Bool × World
    pub command : Command → World → Option String × World
    pub get_battery_status : World → Result BatteryStatus × World
    pub get_es_status : World → Result EsStatus × World
    pub get_battery_power : World → Result Float × World
    pub get_active_power : World → Result Float × World
    pub ticks_before_deadline : Duration → Duration → World → ℕ × World
    pub connect : World → Option String × World
    pub discover : World → Option String × World
    pub fetch_today_prices : World → Result (List (Price N)) × World
    pub fetch_tomorrow_prices : World → Result (List (Price N)) × World
    pub telegram_enabled : Bool
    pub poll_commands : World → Result (List String) × World
    pub load_trades : List (Trade N) → World → (List (Trade N) × Option String) × World
    pub send : Notification → World → World
    pub save_trades : List (Trade N) → World → Option String × World

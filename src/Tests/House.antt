-- ===== src/Tests/House.antt =====
-- A simulated house for tests: the battery follows each command at once, and prices come from a
-- fixed table.
use marstek_energy_trading.Prelude.{
  true, false, none, List, [], ◌∷◌, ℤ, pos, negsuc, neg, ◌*ℤ◌, ◌*◌,
}
use marstek_energy_trading.Platform.{Time, minute}
use marstek_energy_trading.Analyzer.Types.{Price}
use marstek_energy_trading.Service.Types.{idle, charging, ok, failed, Command, Env, Service, Config}
use marstek_energy_trading.Service.Machine.{Machine}
use marstek_energy_trading.Tests.Numbers.{numbers}

-- What the simulation keeps; the powers are in thousandths of a watt.
pub record World : Type 0 where
  pub clock : Time
  pub soc : ℤ
  pub battery_power : ℤ
  pub grid_power : ℤ

-- The power that a command sets.
abbrev pub obey : Command → ℤ
obey (Command.charge p t) = p *ℤ pos 1000
obey (Command.discharge p t) = neg (p *ℤ pos 1000)
obey (Command.set_passive_mode p t) = neg (p *ℤ pos 1000)
obey Command.stop = pos 0

-- Quarters of an hour at 10, 30, 12 and 40.
abbrev pub price_table : List (Price numbers)
price_table =
    record { time = 0; value = pos 10_000 }
    ∷ record { time = 15 * minute; value = pos 30_000 }
    ∷ record { time = 30 * minute; value = pos 12_000 }
    ∷ record { time = 45 * minute; value = pos 40_000 }
    ∷ []

abbrev pub house : Env numbers
house = record {
  World = World;
  now = λ w. (w.clock, w);
  wall_now = λ w. (w.clock, w);
  context_done = λ w. (false, w);
  command = λ c w. (none, record w { battery_power = obey c });
  get_battery_status =
      λ w. (ok (record { soc = w.soc; charging_flag = true; discharg_flag = true }), w);
  get_es_status = λ w. (ok (record { battery_soc = w.soc; battery_power = w.battery_power }), w);
  get_battery_power = λ w. (ok w.battery_power, w);
  get_active_power = λ w. (ok w.grid_power, w);
  ticks_before_deadline = λ timeout interval w. (10, w);
  connect = λ w. (none, w);
  discover = λ w. (none, w);
  fetch_today_prices = λ w. (ok price_table, w);
  fetch_tomorrow_prices = λ w. (failed "not published", w);
  telegram_enabled = true;
  poll_commands = λ w. (ok ("/status" ∷ []), w);
  load_trades = λ trades w. ((trades, none), w);
  send = λ n w. w;
  save_trades = λ trades w. (none, w);
}

abbrev pub settings : Config numbers
settings = record {
  service_name = "energy-trader";
  min_price_spread = pos 2000;
  battery_efficiency = pos 1000;
  battery_capacity_kwh = pos 1000;
  battery_min_soc = pos 110;
  max_cycles_per_day = pos 2;
  charge_power_w = pos 4000;
  discharge_power_w = pos 4000;
  passive_mode_timeout_s = pos 300;
  solar_min_surplus_w = pos 100;
}

abbrev pub new_service : Service numbers
new_service = record {
  cfg = settings;
  state = idle;
  current_plan = none;
  today_prices = [];
  tomorrow_prices = [];
  last_passive_refresh = 0;
  current_trade_start = 0;
  current_trade_price = pos 0;
  current_trade_soc = pos 0;
  last_charge_price = pos 0;
  last_error_notify = 0;
  last_midnight_swap = 0;
  last_daily_summary = 0;
  battery_cooldown_until = 0;
  battery_verification_timeout = pos 0;
  battery_verification_interval = pos 0;
  battery_stop_retry_delay = pos 0;
  last_stop_attempt = 0;
  solar_surplus_count = 0;
  solar_stop_count = 0;
  solar_charge_power = pos 0;
  solar_measured_charge_power_w = pos 0;
  solar_energy_ws = pos 0;
  solar_last_update = 0;
  solar_cooldown_until = 0;
  solar_surplus_ema = pos 0;
  solar_consecutive_short_sessions = 0;
  solar_status_failures = 0;
}

abbrev pub half_full : World
half_full = record { clock = 1; soc = pos 50; battery_power = pos 0; grid_power = negsuc 1_999_999 }

abbrev pub new_machine : Machine house
new_machine = record { svc = new_service; trades = []; commands = []; world = half_full }

-- At rest after an accepted stop.
abbrev pub resting_machine : Machine house
resting_machine = record new_machine { commands = (Command.stop, true) ∷ [] }

-- In a session that started at 10 with half a battery.
abbrev pub charging_machine : Machine house
charging_machine = record new_machine {
  svc = record new_service {
    state = charging;
    current_trade_start = 1;
    current_trade_price = pos 10;
    current_trade_soc = pos 40;
  };
  commands = (Command.charge (pos 4000) (pos 300), true) ∷ [];
}

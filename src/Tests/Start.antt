-- ===== src/Tests/Start.antt =====
-- Witnesses for the settings, the HTTP reports and the recovery from a failed stop.
use marstek_energy_trading.Prelude.{
  ◌≡◌, refl, ◌&&◌, true, false, none, some, [], ◌∷◌, ℤ, pos, negsuc, ltb_ℤ, leb_ℤ, floor_div, ◌*ℤ◌,
  arith,
}
use marstek_energy_trading.Platform.{minute, sub_time}
use marstek_energy_trading.Analyzer.Lookup.{is_in_charge_window, is_in_discharge_window}
use marstek_energy_trading.Analyzer.Plan.{analyze_prices}
use marstek_energy_trading.Service.Types.{ok, stopping, idle, Command}
use marstek_energy_trading.Service.Machine.{Machine}
use marstek_energy_trading.Service.Prices.{analyzer_config}
use marstek_energy_trading.Service.Safety.{is_settled}
use marstek_energy_trading.Service.Loop.{ticker, handle}
use marstek_energy_trading.Service.Loop.Recovery.{handle-leaves_stopping}
use marstek_energy_trading.Handler.{
  StatusResponse, Gauges, json_status, status_handler, update_metrics,
}
use marstek_energy_trading.Handler.Reports.{Agree, IsRead, status_handler-update_metrics}
use marstek_energy_trading.Program.Settings.{Settings, engine_config, load}
use marstek_energy_trading.Program.Plans.{IsFloat, load_exclusive}
use marstek_energy_trading.Tests.Numbers.{numbers, numbers-IsDecimal}
use marstek_energy_trading.Tests.House.{
  house, price_table, half_full, new_service, new_machine, charging_machine,
}

abbrev pub chosen : Settings numbers
chosen = record {
  service_name = "energy-trader";
  log_level = "info";
  http_listen_addr = ":8080";
  data_dir = "./data";
  tz = "Europe/Amsterdam";
  nordpool_area = "NL";
  nordpool_currency = "EUR";
  min_price_spread = pos 2000;
  battery_efficiency = pos 1000;
  battery_capacity_kwh = pos 1000;
  battery_min_soc = pos 110;
  max_cycles_per_day = pos 2;
  battery_udp_addr = "";
  esphome_url = "http://192.168.1.50";
  charge_power_w = pos 4000;
  discharge_power_w = pos 4000;
  passive_mode_timeout_s = pos 300;
  home_wizard_p1_url = "";
  solar_min_surplus_w = pos 100;
  telegram_bot_token = "";
  telegram_chat_id = "";
}

zero_lt : (x : ℤ) → leb_ℤ x (pos 0) ≡ false → ltb_ℤ (pos 0) x ≡ true
zero_lt x h = ground arith

floor_div-nonneg : (x : ℤ) → ltb_ℤ (pos 0) x ≡ true → leb_ℤ (pos 0) (floor_div x 1000) ≡ true
unfolding floor_div
floor_div-nonneg (pos n) h = ground arith
floor_div-nonneg (negsuc n) h = ground arith

numbers-IsFloat : IsFloat numbers
unfolding floor_div ◌*ℤ◌
numbers-IsFloat = record {
  not_le-lt = λ x number h. zero_lt x h;
  dec_of_float-nonneg = floor_div-nonneg;
}

loaded : load numbers (ok chosen) ≡ ok chosen
unfolding load floor_div ◌*ℤ◌
loaded = refl

load_exclusive_example :
    let plan =
      analyze_prices numbers price_table (analyzer_config numbers (engine_config numbers chosen)) in
    is_in_charge_window numbers plan 7 && is_in_discharge_window numbers plan 7 ≡ false
load_exclusive_example =
    load_exclusive numbers numbers-IsDecimal numbers-IsFloat (ok chosen) chosen price_table 7 loaded
      refl (omega arith)

abbrev pub gauges : Gauges numbers
gauges = record { battery_soc = none; trader_state = []; trader_pnl = pos 0 }

status_handler-update_metrics_example :
    (r : StatusResponse numbers) × ((status_handler (some charging_machine)).0.content
      ≡ json_status r)
    × ((status_handler (some charging_machine)).0.code ≡ 200)
    × Agree charging_machine r (update_metrics (some charging_machine) gauges).0
    × IsRead charging_machine (status_handler (some charging_machine)).1
    × IsRead charging_machine (update_metrics (some charging_machine) gauges).1
status_handler-update_metrics_example =
    status_handler-update_metrics numbers-IsDecimal charging_machine gauges

-- A stop has failed at 1, and a minute has passed.
abbrev stuck_machine : Machine house
stuck_machine = record new_machine {
  svc = record new_service { state = stopping; last_stop_attempt = 1 };
  commands = (Command.stop, false) ∷ [];
  world = record half_full { clock = minute };
}

handle-leaves_stopping_example :
    ((handle ticker stuck_machine).1.svc.state ≡ idle)
    × (is_settled (handle ticker stuck_machine).1.commands ≡ true)
unfolding sub_time
handle-leaves_stopping_example =
    handle-leaves_stopping ticker stuck_machine refl refl (λ w. refl) refl

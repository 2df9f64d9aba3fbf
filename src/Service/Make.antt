-- ===== src/Service/Make.antt =====
-- `New` of service/service.go, with the empty recorder of `NewRecorder` in service/recorder.go. Every
-- field that `New` does not set has Go's zero value.
use marstek_energy_trading.Prelude.{refl, none, [], pos, ◌<ℤ◌}
use marstek_energy_trading.Platform.{Platform}
use marstek_energy_trading.Service.Types.{idle, Service, Config, Env}
use marstek_energy_trading.Service.Machine.{Machine}
use marstek_energy_trading.Service.Loop.Invariant.{IsNew}

module _ {N : Platform} where
  open N use {dec_zero, literal}

  unfoldable pub new : Config N → Service N
  new cfg = record {
    cfg = cfg;
    state = idle;
    current_plan = none;
    today_prices = [];
    tomorrow_prices = [];
    last_passive_refresh = 0;
    current_trade_start = 0;
    current_trade_price = dec_zero;
    current_trade_soc = pos 0;
    last_charge_price = dec_zero;
    last_error_notify = 0;
    last_midnight_swap = 0;
    last_daily_summary = 0;
    battery_cooldown_until = 0;
    battery_verification_timeout = pos 0;
    battery_verification_interval = pos 0;
    battery_stop_retry_delay = pos 0;
    last_stop_attempt = 0;
    solar_surplus_count = 0;
    solar_stop_count = 0;
    solar_charge_power = pos 0;
    solar_measured_charge_power_w = literal (pos 0) 1;
    solar_energy_ws = literal (pos 0) 1;
    solar_last_update = 0;
    solar_cooldown_until = 0;
    solar_surplus_ema = literal (pos 0) 1;
    solar_consecutive_short_sessions = 0;
    solar_status_failures = 0;
  }

  -- The engine before `Start`, in a world: no trade is recorded and no command is sent.
  unfoldable pub new_machine : (E : Env N) → Config N → Env.World E → Machine E
  unfolding new
  new_machine E cfg w = record { svc = new cfg; trades = []; commands = []; world = w }

  pub new_machine-IsNew :
      (E : Env N) (cfg : Config N) (w : Env.World E)
      → pos 0 <ℤ cfg.charge_power_w
      → pos 0 <ℤ cfg.discharge_power_w
      → IsNew (new_machine E cfg w)
  unfolding new_machine
  new_machine-IsNew E cfg w p q = record {
    at_rest = refl;
    charge_positive = p;
    discharge_positive = q;
    forward = refl;
  }

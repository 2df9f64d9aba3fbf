-- ===== src/Service/Status.antt =====
-- The reports in service/service.go: `checkDailySummary`, `GetCurrentStatus`, `sendTelegramStatus`
-- and `handleTelegramCommands`.
use text.Mathlib.Text
use marstek_energy_trading.Prelude.{
  true, false, not, ◌&&◌, Option, none, some, List, [], ◌∷◌, String, ◌==◌, if◌then◌else◌, pos,
}
use marstek_energy_trading.Platform.{Time, Platform}
use marstek_energy_trading.Analyzer.Types.{TradingPlan}
use marstek_energy_trading.Analyzer.Lookup.{
  get_current_price, is_in_charge_window, is_in_discharge_window,
}
use marstek_energy_trading.Recorder.Types.{DailySummary}
use marstek_energy_trading.Recorder.History.{get_today_summary, get_total_pnl}
use marstek_energy_trading.Service.Types.{
  Result, ok, failed, EsStatus, Service, DailySummaryData, CurrentStatus, Notification, Env,
}
use marstek_energy_trading.Service.Machine.{
  Action, pure, ◌>>=◌, ◌>>◌, skip, gets, modify, ask, now, notify,
}

module _ (N : Platform) where
  open N use {Decimal, Float, float_of_dec, literal}

  unfoldable pub summary_data : Time → DailySummary N → Decimal → DailySummaryData N
  summary_data t summary total_pnl = record {
    date = t;
    pnl_eur = float_of_dec summary.pnl_eur;
    charged_kwh = float_of_dec summary.charged_kwh;
    discharged_kwh = float_of_dec summary.discharged_kwh;
    charge_cycles = summary.charge_cycles;
    discharge_cycles = summary.discharge_cycles;
    solar_charged_kwh = float_of_dec summary.solar_charged_kwh;
    solar_charge_cycles = summary.solar_charge_cycles;
    avg_charge_price = float_of_dec summary.avg_charge_price;
    min_charge_price = float_of_dec summary.min_charge_price;
    avg_discharge_price = float_of_dec summary.avg_discharge_price;
    max_discharge_price = float_of_dec summary.max_discharge_price;
    total_pnl_eur = float_of_dec total_pnl;
  }

  unfoldable pub next_action : Option (TradingPlan N) → Time → String
  next_action none t = "no profitable trades today"
  next_action (some plan) t =
      if not plan.is_profitable
      then "no profitable trades today"
      else if is_in_charge_window N plan t
      then "in charge window"
      else if is_in_discharge_window N plan t
      then "in discharge window"
      else "waiting for next window"

  abbrev pub price_or_zero : Option Decimal → Float
  price_or_zero none = literal (pos 0) 1
  price_or_zero (some price) = float_of_dec price

  -- The status at `t`, from what the battery has answered.
  unfoldable pub status_at : Service N → Result (EsStatus N) → Time → CurrentStatus N
  unfolding next_action
  status_at s (ok es) t = record {
    state = s.state;
    battery_available = true;
    battery_soc = es.battery_soc;
    battery_power_w = es.battery_power;
    current_price = price_or_zero (get_current_price N s.today_prices t);
    next_action = next_action s.current_plan t;
  }
  status_at s (failed e) t = record {
    state = s.state;
    battery_available = false;
    battery_soc = pos 0;
    battery_power_w = literal (pos 0) 1;
    current_price = price_or_zero (get_current_price N s.today_prices t);
    next_action = next_action s.current_plan t;
  }

module _ {N : Platform} {E : Env N} where
  open N use {local_midnight, hour, minute_of_hour, float_of_dec}

  unfoldable pub get_current_status : Action E (CurrentStatus N)
  unfolding status_at
  get_current_status = do answer ← ask E.get_es_status; t ← now; gets λ s. status_at N s answer t

  -- The recorder reads the machine's own clock for "today".
  abbrev pub today_summary : Action E (DailySummary N)
  today_summary = do
    t ← ask E.wall_now
    trades ← λ m. (m.trades, m)
    pure (get_today_summary N trades t)

  abbrev pub total_pnl : Action E N.Decimal
  total_pnl m = (get_total_pnl N m.trades, m)

  unfoldable pub check_daily_summary : Action E (Unit {0})
  check_daily_summary = do
    t ← now
    sent ← gets λ s. local_midnight s.last_daily_summary == local_midnight t
    if hour t == 23 && minute_of_hour t == 59 && not sent
        then (do
          modify λ s. record s { last_daily_summary = t }
          summary ← today_summary
          total ← total_pnl
          notify (Notification.daily_summary (summary_data N t summary total)))
        else skip

  unfoldable pub send_telegram_status : Action E (Unit {0})
  send_telegram_status =
      if E.telegram_enabled
      then (do
        status ← get_current_status
        summary ← today_summary
        total ← total_pnl
        notify (Notification.status status (float_of_dec summary.pnl_eur) (float_of_dec total)))
      else skip

  unfoldable pub answer_commands : List String → Action E (Unit {0})
  answer_commands [] = skip
  answer_commands (c ∷ commands) =
      (if Text.◌==◌ c "/status" then send_telegram_status else skip) >> answer_commands commands

  unfoldable pub handle_telegram_commands : Action E (Unit {0})
  handle_telegram_commands =
      if E.telegram_enabled
      then (do
        answer ← ask E.poll_commands
        elim answer [ failed e ↦ skip | ok commands ↦ answer_commands commands ])
      else skip

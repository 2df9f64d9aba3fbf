-- ===== src/Service/Prices.antt =====
-- The prices and the plan made from them in service/service.go: `analyzerConfig`,
-- `logAndNotifyTradingPlan`, `fetchTodayPrices`, `fetchTomorrowPrices` and `checkPriceFetch`.
use marstek_energy_trading.Prelude.{
  ℕ, ◌+◌, not, ◌&&◌, Option, none, some, List, [], ◌∷◌, map, length, String, ltb, ◌==◌,
  if◌then◌else◌,
}
use marstek_energy_trading.Platform.{Time, Platform, before}
use marstek_energy_trading.Analyzer.Types.{Price, TradeCycle, TradingPlan, AnalyzerConfig}
use marstek_energy_trading.Analyzer.Windows.{quarter}
use marstek_energy_trading.Analyzer.Plan.{analyze_prices}
use marstek_energy_trading.Service.Types.{
  ok, failed, Config, TradingPlanCycle, TradingPlanData, Notification, Env,
}
use marstek_energy_trading.Service.Machine.{
  Action, pure, ◌>>=◌, ◌>>◌, skip, gets, modify, ask, now, notify,
}
use marstek_energy_trading.Service.Control.{notify_error}

module _ (N : Platform) where
  open N use {float_of_dec, dec_div, dec_sub, dec_of_float}

  unfoldable pub analyzer_config : Config N → AnalyzerConfig N
  analyzer_config cfg = record {
    efficiency = cfg.battery_efficiency;
    min_price_spread = cfg.min_price_spread;
    battery_capacity_kwh = cfg.battery_capacity_kwh;
    battery_min_soc = cfg.battery_min_soc;
    charge_power_w = cfg.charge_power_w;
    discharge_power_w = cfg.discharge_power_w;
    max_cycles_per_day = cfg.max_cycles_per_day;
  }

  -- The slots that have not ended before `t`.
  unfoldable pub future_prices : Time → List (Price N) → List (Price N)
  future_prices t [] = []
  future_prices t (p ∷ prices) =
      if not (before (p.time + quarter) t)
      then p ∷ future_prices t prices
      else future_prices t prices

  abbrev pub cycle_data : TradeCycle N → TradingPlanCycle N
  cycle_data c = record {
    charge_start = c.charge_window.start;
    charge_end = c.charge_window.end;
    charge_price = float_of_dec c.charge_window.price;
    discharge_start = c.discharge_window.start;
    discharge_end = c.discharge_window.end;
    discharge_price = float_of_dec c.discharge_window.price;
    profit_per_kwh = float_of_dec c.profit;
  }

  unfoldable pub plan_data : Config N → TradingPlan N → String → ℕ → ℕ → TradingPlanData N
  plan_data cfg plan day slots_total slots_analyzed =
      let efficiency = dec_of_float cfg.battery_efficiency in
      let break_even_discharge = dec_div plan.min_price efficiency in
      record {
        day = day;
        date = plan.date;
        slots_total = slots_total;
        slots_analyzed = slots_analyzed;
        price_min = float_of_dec plan.min_price;
        price_max = float_of_dec plan.max_price;
        is_profitable = plan.is_profitable;
        min_spread_for_efficiency = float_of_dec (dec_sub break_even_discharge plan.min_price);
        min_spread_configured = cfg.min_price_spread;
        battery_efficiency = cfg.battery_efficiency;
        cycles = map cycle_data plan.cycles;
      }

module _ {N : Platform} {E : Env N} where
  open N use {local_midnight, hour, minute_of_hour}

  unfoldable pub log_and_notify_trading_plan : TradingPlan N → String → ℕ → ℕ → Action E (Unit {0})
  log_and_notify_trading_plan plan day slots_total slots_analyzed = do
    cfg ← gets λ s. s.cfg
    notify (Notification.trading_plan (plan_data N cfg plan day slots_total slots_analyzed))

  -- The whole day is kept for lookups; the plan is made from the slots that are not over.
  unfoldable pub fetch_today_prices : Action E (Option String)
  fetch_today_prices = do
    answer ← ask E.fetch_today_prices
    elim answer [
      | failed e ↦ pure (some e)
      | ok prices ↦ do
        t ← now
        plan ← gets λ s. analyze_prices N (future_prices N t prices) (analyzer_config N s.cfg)
        modify λ s. record s { today_prices = prices; current_plan = some plan }
        log_and_notify_trading_plan plan "today" (length prices) (length (future_prices N t prices))
        pure none
    ]

  unfoldable pub fetch_tomorrow_prices : Action E (Option String)
  fetch_tomorrow_prices = do
    answer ← ask E.fetch_tomorrow_prices
    elim answer [
      | failed e ↦ pure (some e)
      | ok prices ↦ do
        if length prices == 0 then pure none else (do
          modify λ s. record s { tomorrow_prices = prices }
          plan ← gets λ s. analyze_prices N prices (analyzer_config N s.cfg)
          log_and_notify_trading_plan plan "tomorrow" (length prices) (length prices)
          pure none)
    ]

  abbrev pub report : String → Option String → Action E (Unit {0})
  report prefix none = skip
  report prefix (some e) = notify_error prefix e

  unfoldable pub check_tomorrow : Time → Action E (Unit {0})
  check_tomorrow t = do
    missing ← gets λ s. length s.tomorrow_prices == 0
    if hour t == 13 && missing
        then (do err ← fetch_tomorrow_prices; report "Failed to fetch tomorrow's prices: " err)
        else skip

  -- Tomorrow's prices become today's.
  unfoldable pub swap_prices : Time → Action E (Unit {0})
  swap_prices t = do
    prices ← gets λ s. s.tomorrow_prices
    plan ← gets λ s. analyze_prices N s.tomorrow_prices (analyzer_config N s.cfg)
    modify λ s. record s {
      today_prices = prices;
      tomorrow_prices = [];
      current_plan = some plan;
      last_midnight_swap = t;
    }
    log_and_notify_trading_plan plan "today" (length prices) (length prices)

  unfoldable pub check_midnight : Time → Action E (Unit {0})
  check_midnight t = do
    swapped ← gets λ s. local_midnight s.last_midnight_swap == local_midnight t
    known ← gets λ s. ltb 0 (length s.tomorrow_prices)
    if hour t == 0 && ltb (minute_of_hour t) 15 && not swapped
        then (if known then swap_prices t else (do
          modify λ s. record s { last_midnight_swap = t }
          err ← fetch_today_prices
          report "Failed to fetch today's prices at midnight: " err))
        else skip

  unfoldable pub check_price_fetch : Action E (Unit {0})
  check_price_fetch = do t ← now; check_tomorrow t; check_midnight t

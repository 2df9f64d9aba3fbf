-- ===== src/Service/Induction/Reports.antt =====
-- The handlers that plan and report keep what the collaborators keep.
use marstek_energy_trading.Prelude.{ℕ, Option, none, some, String, List, [], ◌∷◌, if◌then◌else◌}
use marstek_energy_trading.Platform.{Time, Platform}
use marstek_energy_trading.Analyzer.Types.{TradingPlan}
use marstek_energy_trading.Service.Types.{Env}
use marstek_energy_trading.Service.Machine.{Action, skip, ◌>>◌}
use marstek_energy_trading.Service.Prices.{
  log_and_notify_trading_plan, fetch_today_prices, fetch_tomorrow_prices, report, check_tomorrow,
  swap_prices, check_midnight, check_price_fetch,
}
use marstek_energy_trading.Service.Status.{
  check_daily_summary, get_current_status, send_telegram_status, answer_commands,
  handle_telegram_commands,
}
use marstek_energy_trading.Service.Induction.Steps.{notify_error-Keeps}
use text.Mathlib.Text
use marstek_energy_trading.Service.Induction.{Relation, IsKept, Keeps, Keeps-read, keeps_rules}

module _ {N : Platform} {E : Env N} {P : Relation E} (k : IsKept E P) where
  open N use {Decimal, Float}

  log_and_notify_trading_plan-Keeps :
      (plan : TradingPlan N) (day : String) (total analyzed : ℕ)
      → Keeps P (log_and_notify_trading_plan {E = E} plan day total analyzed)
  unfolding log_and_notify_trading_plan
  log_and_notify_trading_plan-Keeps plan day total analyzed = search keeps_rules depth 20

  pub fetch_today_prices-Keeps : Keeps P (fetch_today_prices {E = E})
  unfolding fetch_today_prices
  fetch_today_prices-Keeps = search (keeps_rules, log_and_notify_trading_plan-Keeps) depth 20

  pub fetch_tomorrow_prices-Keeps : Keeps P (fetch_tomorrow_prices {E = E})
  unfolding fetch_tomorrow_prices
  fetch_tomorrow_prices-Keeps = search (keeps_rules, log_and_notify_trading_plan-Keeps) depth 20

  report-Keeps : (prefix : String) (err : Option String) → Keeps P (report {E = E} prefix err)
  report-Keeps prefix none = search keeps_rules depth 20
  report-Keeps prefix (some e) = search (keeps_rules, notify_error-Keeps) depth 20

  check_tomorrow-Keeps : (t : Time) → Keeps P (check_tomorrow {E = E} t)
  unfolding check_tomorrow
  check_tomorrow-Keeps t = search (keeps_rules, fetch_tomorrow_prices-Keeps, report-Keeps) depth 20

  swap_prices-Keeps : (t : Time) → Keeps P (swap_prices {E = E} t)
  unfolding swap_prices
  swap_prices-Keeps t = search (keeps_rules, log_and_notify_trading_plan-Keeps) depth 20

  check_midnight-Keeps : (t : Time) → Keeps P (check_midnight {E = E} t)
  unfolding check_midnight
  check_midnight-Keeps t =
      search (keeps_rules, swap_prices-Keeps, fetch_today_prices-Keeps, report-Keeps) depth 20

  pub check_price_fetch-Keeps : Keeps P (check_price_fetch {E = E})
  unfolding check_price_fetch
  check_price_fetch-Keeps =
      search (keeps_rules, check_tomorrow-Keeps, check_midnight-Keeps) depth 20

  pub check_daily_summary-Keeps : Keeps P (check_daily_summary {E = E})
  unfolding check_daily_summary
  check_daily_summary-Keeps = search (keeps_rules, Keeps-read) depth 20

  get_current_status-Keeps : Keeps P (get_current_status {E = E})
  unfolding get_current_status
  get_current_status-Keeps = search keeps_rules depth 20

  send_telegram_status-Keeps : Keeps P (send_telegram_status {E = E})
  unfolding send_telegram_status
  send_telegram_status-Keeps = search (keeps_rules, get_current_status-Keeps, Keeps-read) depth 20

  answer-Keeps :
      (c : String) (rest : Action E (Unit {0}))
      → Keeps P rest
      → Keeps P ((if Text.◌==◌ c "/status" then send_telegram_status else skip) >> rest)
  answer-Keeps c rest h = search (keeps_rules, send_telegram_status-Keeps) depth 20

  answer_commands-Keeps : (commands : List String) → Keeps P (answer_commands {E = E} commands)
  unfolding answer_commands
  answer_commands-Keeps [] = search keeps_rules
  answer_commands-Keeps (c ∷ commands) =
      answer-Keeps c (answer_commands commands) (answer_commands-Keeps commands)

  pub handle_telegram_commands-Keeps : Keeps P (handle_telegram_commands {E = E})
  unfolding handle_telegram_commands
  handle_telegram_commands-Keeps = search (keeps_rules, answer_commands-Keeps) depth 20

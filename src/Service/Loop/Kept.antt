-- ===== src/Service/Loop/Kept.antt =====
-- The main loop keeps what the collaborators keep.
use marstek_energy_trading.Prelude.{ℕ, Option, none, some, String, List, [], ◌∷◌, arith}
use marstek_energy_trading.Platform.{Platform}
use marstek_energy_trading.Service.Types.{Env}
use marstek_energy_trading.Service.Loop.{
  Event, ticker, price_ticker, daily_ticker, cmd_ticker, solar_ticker, restore_trades, greet,
  after_reset, after_connect, start_up, handle, run, shut_down, after_start_up, start, Refusal,
}
use marstek_energy_trading.Service.Induction.Reports.{
  fetch_today_prices-Keeps, fetch_tomorrow_prices-Keeps, check_price_fetch-Keeps,
  check_daily_summary-Keeps, handle_telegram_commands-Keeps,
}
use marstek_energy_trading.Service.Induction.{Relation, IsKept, Keeps, Keeps-bind, keeps_rules}
use marstek_energy_trading.Service.Induction.Steps.{stop_battery_on_shutdown-Keeps}
use marstek_energy_trading.Service.Induction.Ticks.{tick-Keeps, solar_tick-Keeps}

module _ {N : Platform} {E : Env N} {P : Relation E} (k : IsKept E P) where
  restore_trades-Keeps : Keeps P (restore_trades {E = E})
  unfolding restore_trades
  restore_trades-Keeps = record {
    at = λ m h. ground (arith, k.load_trades m.trades m.commands m.world h);
  }

  greet-Keeps : Keeps P (greet {E = E})
  unfolding greet
  greet-Keeps = search (keeps_rules, fetch_today_prices-Keeps, fetch_tomorrow_prices-Keeps) depth 20

  after_reset-Keeps : (err : Option String) → Keeps P (after_reset {E = E} err)
  unfolding after_reset
  after_reset-Keeps none = search (keeps_rules, greet-Keeps) depth 20
  after_reset-Keeps (some e) = search keeps_rules

  after_connect-Keeps : (err : Option String) → Keeps P (after_connect {E = E} err)
  unfolding after_connect
  after_connect-Keeps none = search (keeps_rules, after_reset-Keeps) depth 20
  after_connect-Keeps (some e) = search keeps_rules

  pub start_up-Keeps : Keeps P (start_up {E = E})
  unfolding start_up
  start_up-Keeps = search (keeps_rules, restore_trades-Keeps, after_connect-Keeps) depth 20

  handle-Keeps : (event : Event) → Keeps P (handle {E = E} event)
  unfolding handle
  handle-Keeps ticker = tick-Keeps k
  handle-Keeps price_ticker = check_price_fetch-Keeps k
  handle-Keeps daily_ticker = check_daily_summary-Keeps k
  handle-Keeps cmd_ticker = handle_telegram_commands-Keeps k
  handle-Keeps solar_ticker = solar_tick-Keeps k

  pub run-Keeps : (events : List Event) → Keeps P (run {E = E} events)
  unfolding run
  run-Keeps [] = search keeps_rules
  run-Keeps (event ∷ events) =
      Keeps-bind (handle event) (λ _. run events) (handle-Keeps event) (λ _. run-Keeps events)

  shut_down-Keeps : (ticks : ℕ) → Keeps P (shut_down {E = E} ticks)
  unfolding shut_down
  shut_down-Keeps ticks = search (keeps_rules, stop_battery_on_shutdown-Keeps)

  after_start_up-Keeps :
      (events : List Event) (ticks : ℕ) (refused : Option Refusal)
      → Keeps P (after_start_up {E = E} events ticks refused)
  unfolding after_start_up
  after_start_up-Keeps events ticks none = search (keeps_rules, run-Keeps, shut_down-Keeps)
  after_start_up-Keeps events ticks (some refusal) = search keeps_rules

  pub start-Keeps : (events : List Event) (ticks : ℕ) → Keeps P (start {E = E} events ticks)
  unfolding start
  start-Keeps events ticks = search (keeps_rules, start_up-Keeps, after_start_up-Keeps)

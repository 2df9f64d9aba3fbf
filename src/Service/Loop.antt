-- ===== src/Service/Loop.antt =====
-- `Start` of service/service.go: the startup, the main loop and the shutdown.
pub mod Kept
pub mod Invariant
pub mod Shutdown
pub mod Recovery
use marstek_energy_trading.Prelude.{
  ℕ, Bool, Option, none, some, List, [], ◌∷◌, String, if◌then◌else◌,
}
use marstek_energy_trading.Platform.{Platform}
use marstek_energy_trading.Recorder.History.{get_last_charge_trade}
use marstek_energy_trading.Service.Types.{Command, Notification, Env}
use marstek_energy_trading.Service.Machine.{
  Machine, Action, pure, ◌>>=◌, ◌>>◌, skip, gets, modify, ask, command, notify,
}
use marstek_energy_trading.Service.Control.{stop_battery_on_shutdown}
use marstek_energy_trading.Service.Prices.{
  fetch_today_prices, fetch_tomorrow_prices, check_price_fetch,
}
use marstek_energy_trading.Service.Status.{check_daily_summary, handle_telegram_commands}
use marstek_energy_trading.Service.Tick.{tick}
use marstek_energy_trading.Service.SolarTick.{solar_tick}

-- What the `select` of the main loop receives, other than the end of the context. Go takes the ready
-- cases in any order, so a run is any list of these.
pub data Event : Type 0 where
  ticker price_ticker daily_ticker cmd_ticker solar_ticker : Event

-- Why the engine did not start.
pub data Refusal : Type 0 where
  connect_failed : String → Refusal
  reset_failed : String → Refusal

-- The error that `Start` returns.
pub data Exit : Type 0 where
  not_started : Refusal → Exit
  shutdown_failed : String → Exit
  cancelled : Exit

-- What the end of the main loop returns, after the stop.
unfoldable pub exit_of : Option String → Exit
exit_of (some e) = Exit.shutdown_failed e
exit_of none = Exit.cancelled

module _ {N : Platform} {E : Env N} where
  unfoldable pub restore_trades : Action E (Unit {0})
  restore_trades m =
      let ((trades, err), w) = E.load_trades m.trades m.world in
      let m₁ : Machine E = record m { trades = trades; world = w } in
      elim (get_last_charge_trade N trades) [
        | none ↦ skip m₁
        | some last ↦ modify (λ s. record s { last_charge_price = last.price_eur }) m₁
      ]

  -- What follows an accepted reset; failures are only logged.
  unfoldable pub greet : Action E (Unit {0})
  greet = do
    ask E.discover
    fetch_today_prices
    fetch_tomorrow_prices
    name ← gets λ s. s.cfg.service_name
    notify (Notification.startup name)

  -- The startup once the battery has answered to the reset.
  unfoldable pub after_reset : Option String → Action E (Option Refusal)
  after_reset (some e) = pure (some (Refusal.reset_failed e))
  after_reset none = do greet; pure none

  unfoldable pub after_connect : Option String → Action E (Option Refusal)
  after_connect (some e) = pure (some (Refusal.connect_failed e))
  after_connect none = do err ← command Command.stop; after_reset err

  -- The startup, up to the main loop.
  unfoldable pub start_up : Action E (Option Refusal)
  start_up = do restore_trades; refused ← ask E.connect; after_connect refused

  unfoldable pub handle : Event → Action E (Unit {0})
  handle ticker = tick
  handle price_ticker = check_price_fetch
  handle daily_ticker = check_daily_summary
  handle cmd_ticker = handle_telegram_commands
  handle solar_ticker = solar_tick

  unfoldable pub run : List Event → Action E (Unit {0})
  run [] = skip
  run (event ∷ events) = handle event >> run events

  unfoldable pub shut_down : ℕ → Action E Exit
  shut_down ticks = do err ← stop_battery_on_shutdown ticks; pure (exit_of err)

  -- What follows the startup.
  unfoldable pub after_start_up : List Event → ℕ → Option Refusal → Action E Exit
  after_start_up events ticks (some refusal) = pure (Exit.not_started refusal)
  after_start_up events ticks none = do run events; shut_down ticks

  -- `Start`, for the events before the context ends and a shutdown with `ticks` retries.
  unfoldable pub start : List Event → ℕ → Action E Exit
  start events ticks = do refused ← start_up; after_start_up events ticks refused

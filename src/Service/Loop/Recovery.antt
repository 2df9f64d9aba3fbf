-- ===== src/Service/Loop/Recovery.antt =====
-- How the engine leaves `stopping`: `tick`, `solarTick` and `retryStopping` of service/service.go.
use marstek_energy_trading.Prelude.{◌≡◌, ◌||◌, Bool, true, false, not, none, ltb_ℤ, arith}
use marstek_energy_trading.Platform.{Platform, is_zero_time, sub_time}
use marstek_energy_trading.Service.Types.{stopping, idle, Command, Env}
use marstek_energy_trading.Service.Machine.{Machine}
use marstek_energy_trading.Service.Control.{
  stop_retry_delay, idle_battery, transition_to_idle, retry_stopping,
}
use marstek_energy_trading.Service.Safety.{is_settled}
use marstek_energy_trading.Service.Tick.{tick}
use marstek_energy_trading.Service.SolarTick.{solar_tick}
use marstek_energy_trading.Service.Loop.{
  Event, ticker, solar_ticker, price_ticker, daily_ticker, cmd_ticker, handle,
}

-- The events on which a stop is tried again.
abbrev pub retries_stop : Event → Bool
retries_stop ticker = true
retries_stop solar_ticker = true
retries_stop _ = false

module _ {N : Platform} {E : Env N} where
  -- The delay since the last attempt has passed, or there was none.
  abbrev pub is_due : Machine E → Bool
  is_due m =
      is_zero_time m.svc.last_stop_attempt
      || not (ltb_ℤ (sub_time (E.now m.world).0 m.svc.last_stop_attempt) (stop_retry_delay N m.svc))

  transition_to_idle-due :
      (m : Machine E)
      → ((w : Env.World E) → (E.command Command.stop w).0 ≡ none)
      → is_due m ≡ true
      → ((transition_to_idle m).1.svc.state ≡ idle)
        × (is_settled (transition_to_idle m).1.commands ≡ true)
  unfolding transition_to_idle idle_battery
  transition_to_idle-due m accepts due =
      let w = (E.now m.world).1 in ground (arith, accepts w, accepts (E.now w).1)

  retry_stopping-due :
      (m : Machine E)
      → m.svc.state ≡ stopping
      → ((w : Env.World E) → (E.command Command.stop w).0 ≡ none)
      → is_due m ≡ true
      → let (retried, m') = retry_stopping m in
        (retried ≡ true) × (m'.svc.state ≡ idle) × (is_settled m'.commands ≡ true)
  unfolding retry_stopping
  retry_stopping-due m at_stopping accepts due =
      let h = transition_to_idle-due m accepts due in ground (arith, h)

  -- The engine when the event comes to its retry: `tick` reads the clock first.
  abbrev pub at_retry : Event → Machine E → Machine E
  at_retry ticker m = record m { world = (E.now m.world).1 }
  at_retry _ m = m

  -- The engine leaves `stopping`: once the delay since the last attempt has passed, the next tick of
  -- the trading loop or of the solar loop ends in `idle` with an accepted stop as the last command, if
  -- the battery accepts its stops.
  pub handle-leaves_stopping :
      (event : Event) (m : Machine E)
      → retries_stop event ≡ true
      → m.svc.state ≡ stopping
      → ((w : Env.World E) → (E.command Command.stop w).0 ≡ none)
      → is_due (at_retry event m) ≡ true
      → ((handle event m).1.svc.state ≡ idle) × (is_settled (handle event m).1.commands ≡ true)
  unfolding handle tick solar_tick
  handle-leaves_stopping ticker m control at_stopping accepts due =
      let h = retry_stopping-due (at_retry ticker m) at_stopping accepts due in ground (arith, h)
  handle-leaves_stopping solar_ticker m control at_stopping accepts due =
      let h = retry_stopping-due m at_stopping accepts due in ground (arith, h)
  handle-leaves_stopping price_ticker m control at_stopping accepts due = cc
  handle-leaves_stopping daily_ticker m control at_stopping accepts due = cc
  handle-leaves_stopping cmd_ticker m control at_stopping accepts due = cc

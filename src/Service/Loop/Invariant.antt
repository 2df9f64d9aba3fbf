-- ===== src/Service/Loop/Invariant.antt =====
-- The invariant of service/service.go over the whole run of the main loop.
use marstek_energy_trading.Prelude.{
  ℕ, Bool, true, Option, none, some, List, [], ◌∷◌, ◌≡◌, refl, ◌∙◌, String, arith, inl, inr, pos,
  ◌<ℤ◌,
}
use marstek_energy_trading.Platform.{Time, Platform}
use marstek_energy_trading.Analyzer.Types.{TradingPlan}
use marstek_energy_trading.Service.Types.{idle, Result-cases, Command, Env}
use marstek_energy_trading.Service.Machine.{Machine, is_ok, command}
use marstek_energy_trading.Service.Control.{notify_error}
use marstek_energy_trading.Service.Prices.{
  log_and_notify_trading_plan, fetch_today_prices, fetch_tomorrow_prices, report, check_tomorrow,
  swap_prices, check_midnight, check_price_fetch,
}
use marstek_energy_trading.Service.Status.{
  check_daily_summary, get_current_status, send_telegram_status, answer_commands,
  handle_telegram_commands,
}
use marstek_energy_trading.Service.Safety.{IsSafe, are_forward}
use marstek_energy_trading.Service.Safety.Handlers.{tick-IsSafe}
use marstek_energy_trading.Service.Safety.SolarHandlers.{solar_tick-IsSafe}
use marstek_energy_trading.Service.Loop.{
  Event, ticker, price_ticker, daily_ticker, cmd_ticker, solar_ticker, restore_trades, greet,
  after_reset, after_connect, start_up, handle, run,
}

module _ {N : Platform} {E : Env N} where
  -- What a handler that only reads the battery keeps.
  pub record Keeps (m m' : Machine E) : Type 0 where
    pub state : m'.svc.state ≡ m.svc.state
    pub cfg : m'.svc.cfg ≡ m.svc.cfg
    pub solar_charge_power : m'.svc.solar_charge_power ≡ m.svc.solar_charge_power
    pub trades : m'.trades ≡ m.trades
    pub commands : m'.commands ≡ m.commands

  Keeps-trans : {m m₁ m₂ : Machine E} → Keeps m m₁ → Keeps m₁ m₂ → Keeps m m₂
  Keeps-trans h k = record {
    state = k.state ∙ h.state;
    cfg = k.cfg ∙ h.cfg;
    solar_charge_power = k.solar_charge_power ∙ h.solar_charge_power;
    trades = k.trades ∙ h.trades;
    commands = k.commands ∙ h.commands;
  }

  Keeps-IsSafe : {m m' : Machine E} → Keeps m m' → IsSafe m → IsSafe m'
  Keeps-IsSafe k h = ground (arith, k.state, k.cfg, k.solar_charge_power, k.commands)

  log_and_notify_trading_plan-Keeps :
      (plan : TradingPlan N) (day : String) (total analyzed : ℕ) (m : Machine E)
      → Keeps m (log_and_notify_trading_plan plan day total analyzed m).1
  unfolding log_and_notify_trading_plan
  log_and_notify_trading_plan-Keeps plan day total analyzed m = ground arith

  fetch_today_prices-Keeps : (m : Machine E) → Keeps m (fetch_today_prices m).1
  unfolding fetch_today_prices log_and_notify_trading_plan
  fetch_today_prices-Keeps m = ground arith

  fetch_tomorrow_prices-Keeps : (m : Machine E) → Keeps m (fetch_tomorrow_prices m).1
  unfolding fetch_tomorrow_prices log_and_notify_trading_plan
  fetch_tomorrow_prices-Keeps m = ground arith

  report-Keeps :
      (prefix : String) (err : Option String) (m : Machine E) → Keeps m (report prefix err m).1
  unfolding notify_error
  report-Keeps prefix err m = ground arith

  check_tomorrow-Keeps : (t : Time) (m : Machine E) → Keeps m (check_tomorrow t m).1
  unfolding check_tomorrow
  check_tomorrow-Keeps t m =
      let (err, m₁) = fetch_tomorrow_prices m in
      let k = fetch_tomorrow_prices-Keeps m in
      ground (arith, Keeps-trans k (report-Keeps "Failed to fetch tomorrow's prices: " err m₁))

  swap_prices-Keeps : (t : Time) (m : Machine E) → Keeps m (swap_prices t m).1
  unfolding swap_prices log_and_notify_trading_plan
  swap_prices-Keeps t m = ground arith

  check_midnight-Keeps : (t : Time) (m : Machine E) → Keeps m (check_midnight t m).1
  unfolding check_midnight
  check_midnight-Keeps t m =
      let m₁ : Machine E = record m { svc = record (m.svc) { last_midnight_swap = t } } in
      let (err, m₂) = fetch_today_prices m₁ in
      let k = fetch_today_prices-Keeps m₁ in
      ground (
        arith,
        swap_prices-Keeps t m,
        Keeps-trans k (report-Keeps "Failed to fetch today's prices at midnight: " err m₂),
      )

  pub check_price_fetch-Keeps : (m : Machine E) → Keeps m (check_price_fetch m).1
  unfolding check_price_fetch
  check_price_fetch-Keeps m =
      let (t, w) = E.now m.world in
      let m₁ : Machine E = record m { world = w } in
      let k = check_tomorrow-Keeps t m₁ in
      let l = check_midnight-Keeps t (check_tomorrow t m₁).1 in
      Keeps-trans
        (record {
          state = refl;
          cfg = refl;
          solar_charge_power = refl;
          trades = refl;
          commands = refl;
        })
        (Keeps-trans k l)

  check_daily_summary-Keeps : (m : Machine E) → Keeps m (check_daily_summary m).1
  unfolding check_daily_summary
  check_daily_summary-Keeps m = ground arith

  send_telegram_status-Keeps : (m : Machine E) → Keeps m (send_telegram_status m).1
  unfolding send_telegram_status get_current_status
  send_telegram_status-Keeps m = ground arith

  answer_commands-Keeps :
      (commands : List String) (m : Machine E) → Keeps m (answer_commands commands m).1
  unfolding answer_commands
  answer_commands-Keeps [] m = ground arith
  answer_commands-Keeps (c ∷ commands) m = ground (
    arith,
    answer_commands-Keeps commands m,
    Keeps-trans (send_telegram_status-Keeps m)
        (answer_commands-Keeps commands (send_telegram_status m).1),
  )

  handle_telegram_commands-Keeps : (m : Machine E) → Keeps m (handle_telegram_commands m).1
  unfolding handle_telegram_commands
  handle_telegram_commands-Keeps m =
      let (answer, w) = E.poll_commands m.world in
      elim (Result-cases answer) [
        | inl (commands, e) ↦
            ground (arith, answer_commands-Keeps commands (record m { world = w }))
        | inr (f, e) ↦ ground arith
      ]

  handle-IsSafe : (event : Event) (m : Machine E) → IsSafe m → IsSafe (handle event m).1
  unfolding handle
  handle-IsSafe ticker m h = tick-IsSafe m h
  handle-IsSafe price_ticker m h = Keeps-IsSafe (check_price_fetch-Keeps m) h
  handle-IsSafe daily_ticker m h = Keeps-IsSafe (check_daily_summary-Keeps m) h
  handle-IsSafe cmd_ticker m h = Keeps-IsSafe (handle_telegram_commands-Keeps m) h
  handle-IsSafe solar_ticker m h = solar_tick-IsSafe m h

  -- The invariant holds after any events of the main loop, in any order, however the battery, the
  -- meter, the price service and Telegram answer, if it holds before them: while idle the last command
  -- was an accepted stop, while charging from the grid or on solar surplus the last accepted command
  -- draws power into the battery and none after it would draw power out, and while discharging the
  -- other way round; every charge and discharge that was sent has a positive power.
  pub run-IsSafe : (events : List Event) (m : Machine E) → IsSafe m → IsSafe (run events m).1
  unfolding run
  run-IsSafe [] m h = h
  run-IsSafe (event ∷ events) m h = run-IsSafe events (handle event m).1 (handle-IsSafe event m h)

  -- The handlers that only report and plan leave the battery, the state and the trades alone.
  pub reports-Keeps :
      (m : Machine E)
      → Keeps m (handle price_ticker m).1
        × Keeps m (handle daily_ticker m).1
        × Keeps m (handle cmd_ticker m).1
  unfolding handle
  reports-Keeps m =
      (check_price_fetch-Keeps m, check_daily_summary-Keeps m, handle_telegram_commands-Keeps m)

  -- The engine as `New` makes it, with positive powers in its settings and in the commands before.
  pub record IsNew (m : Machine E) : Type 0 where
    pub at_rest : m.svc.state ≡ idle
    pub charge_positive : pos 0 <ℤ m.svc.cfg.charge_power_w
    pub discharge_positive : pos 0 <ℤ m.svc.cfg.discharge_power_w
    pub forward : are_forward m.commands ≡ true

  greet-Keeps : (m : Machine E) → Keeps m (greet m).1
  unfolding greet
  greet-Keeps m =
      let m₁ : Machine E = record m { world = (E.discover m.world).1 } in
      let m₂ = (fetch_today_prices m₁).1 in
      let k = Keeps-trans (fetch_today_prices-Keeps m₁) (fetch_tomorrow_prices-Keeps m₂) in
      ground (arith, k)

  restore_trades-only :
      (m : Machine E)
      → let m' = (restore_trades m).1 in
        (m'.svc.state ≡ m.svc.state)
        × (m'.svc.cfg ≡ m.svc.cfg)
        × (m'.svc.solar_charge_power ≡ m.svc.solar_charge_power)
        × (m'.commands ≡ m.commands)
  unfolding restore_trades
  restore_trades-only m = ground arith

  -- The engine after the reset command, which was accepted if `err` is none.
  after_reset-IsSafe :
      (err : Option String) (commands : List (Command × Bool)) (m : Machine E)
      → IsNew m
      → m.commands ≡ (Command.stop, is_ok err) ∷ commands
      → are_forward commands ≡ true
      → (after_reset err m).0 ≡ none
      → IsSafe (after_reset err m).1
  unfolding after_reset
  after_reset-IsSafe none commands m h c f e =
      Keeps-IsSafe (greet-Keeps m)
        (ground (arith, h.at_rest, h.charge_positive, h.discharge_positive, c, f))
  after_reset-IsSafe (some _) commands m h c f e = cc

  after_connect-IsSafe :
      (refused : Option String) (m : Machine E)
      → IsNew m
      → (after_connect refused m).0 ≡ none
      → IsSafe (after_connect refused m).1
  unfolding after_connect
  after_connect-IsSafe (some f) m h e = cc
  after_connect-IsSafe none m h e =
      let (err, m₁) = command Command.stop m in
      after_reset-IsSafe err m.commands m₁
        (record {
          at_rest = h.at_rest;
          charge_positive = h.charge_positive;
          discharge_positive = h.discharge_positive;
          forward = h.forward;
        })
        refl h.forward e

  -- A startup that is not refused establishes the invariant, for a new engine and whatever the
  -- battery did before.
  pub start_up-IsSafe : (m : Machine E) → IsNew m → (start_up m).0 ≡ none → IsSafe (start_up m).1
  unfolding start_up
  start_up-IsSafe m h e =
      let m₁ = (restore_trades m).1 in
      let (refused, w) = E.connect m₁.world in
      let m₂ : Machine E = record m₁ { world = w } in
      let k = restore_trades-only m in
      after_connect-IsSafe refused m₂
        (ground (arith, k, h.at_rest, h.charge_positive, h.discharge_positive, h.forward)) e

  -- For a new engine with positive powers in its settings, after a startup that is not refused, the
  -- invariant holds at every point of the main loop, for any events in any order and whatever the
  -- collaborators answer: while idle the last command was an accepted stop; while charging from the
  -- grid or on surplus the last accepted command sends energy into the battery, and no command after
  -- it would send energy out; while discharging the other way round; while stopping it claims nothing
  -- of the last commands. Every charge and discharge that was sent has a positive power.
  pub start_up-run-IsSafe :
      (events : List Event) (m : Machine E)
      → IsNew m
      → (start_up m).0 ≡ none
      → IsSafe (run events (start_up m).1).1
  start_up-run-IsSafe events m h e = run-IsSafe events (start_up m).1 (start_up-IsSafe m h e)

-- ===== src/Service/Grid.antt =====
-- The sessions on grid prices in service/service.go: `startChargingLocked`, `stopChargingLocked`,
-- `startDischargingLocked` and `stopDischargingLocked`.
use marstek_energy_trading.Prelude.{
  ◌+◌, Bool, true, false, Option, none, some, String, if◌then◌else◌, ℤ,
}
use marstek_energy_trading.Platform.{Time, Platform}
use marstek_energy_trading.Service.Types.{
  charging, discharging, stopping, Result, ok, failed, Command, Notification, Env,
  battery_control_failure_cooldown,
}
use marstek_energy_trading.Service.Machine.{
  Action, pure, ◌>>=◌, ◌>>◌, skip, gets, modify, now, command, notify, record_trade,
}
use marstek_energy_trading.Service.Control.{
  wait_for_battery_power, idle_battery, notify_error, transition_to_idle,
}
use marstek_energy_trading.Service.Trades.{charge_trade, discharge_trade}

module _ {N : Platform} {E : Env N} where
  open N use {
    Decimal, Float, dec_zero, dec_mul, dec_div, dec_is_zero, dec_of_float, dec_of_int, float_of_dec,
    truncate, seconds_of,
  }

  -- The beginning that the three starts share: the command, the wait for the power, and a stop if
  -- either failed. The second part is the error of that stop.
  unfoldable pub begin_session : Command → Bool → ℤ → Action E (Result Float × Option String)
  begin_session c inward power_w = do
    err ← command c
    result ← elim err [ none ↦ wait_for_battery_power inward power_w | some e ↦ pure (failed e) ]
    elim result [
      | ok power ↦ pure (ok power, none)
      | failed e ↦ do idle_err ← idle_battery; pure (failed e, idle_err)
    ]

  -- Their common failure branch: without an accepted stop the engine goes on stopping.
  abbrev pub mark_stopping : Option String → Action E (Unit {0})
  mark_stopping none = skip
  mark_stopping (some e) = do
    t ← now
    modify λ s. record s { state = stopping; last_stop_attempt = t }

  abbrev pub cool_down : Action E (Unit {0})
  cool_down = do
    t ← now
    modify λ s. record s { battery_cooldown_until = t + battery_control_failure_cooldown }

  unfoldable pub start_failed : String → Option String → String → Action E (Unit {0})
  start_failed prefix idle_err e = do mark_stopping idle_err; cool_down; notify_error prefix e

  -- `startChargingLocked` once the battery has answered.
  unfoldable pub charging_begun : Decimal → ℤ → Result Float → Option String → Action E (Unit {0})
  charging_begun price soc (failed e) idle_err =
      start_failed "Failed to start charging: " idle_err e
  charging_begun price soc (ok measured) idle_err = do
    t ← now
    u ← now
    modify λ s. record s {
      state = charging;
      current_trade_start = t;
      current_trade_price = price;
      current_trade_soc = soc;
      last_passive_refresh = u;
      last_charge_price = price;
      battery_cooldown_until = 0;
    }
    notify (Notification.trade_start "Charging" (float_of_dec price) soc)

  unfoldable pub start_charging : Decimal → ℤ → Action E (Unit {0})
  start_charging price soc = do
    power_w ← gets λ s. s.cfg.charge_power_w
    timeout_s ← gets λ s. s.cfg.passive_mode_timeout_s
    (result, idle_err) ← begin_session (Command.charge power_w timeout_s) true power_w
    charging_begun price soc result idle_err

  -- `startDischargingLocked` once the battery has answered.
  unfoldable pub discharging_begun :
      Decimal → ℤ → Result Float → Option String → Action E (Unit {0})
  discharging_begun price soc (failed e) idle_err =
      start_failed "Failed to start discharging: " idle_err e
  discharging_begun price soc (ok measured) idle_err = do
    t ← now
    u ← now
    modify λ s. record s {
      state = discharging;
      current_trade_start = t;
      current_trade_price = price;
      current_trade_soc = soc;
      last_passive_refresh = u;
      battery_cooldown_until = 0;
    }
    notify (Notification.trade_start "Discharging" (float_of_dec price) soc)

  unfoldable pub start_discharging : Decimal → ℤ → Action E (Unit {0})
  start_discharging price soc = do
    power_w ← gets λ s. s.cfg.discharge_power_w
    timeout_s ← gets λ s. s.cfg.passive_mode_timeout_s
    (result, idle_err) ← begin_session (Command.discharge power_w timeout_s) false power_w
    discharging_begun price soc result idle_err

  -- The end of a session whose stop was accepted.
  abbrev pub close_charging : Time → ℤ → Action E (Unit {0})
  close_charging stop_time end_soc = do
    trade ← gets λ s. charge_trade s stop_time end_soc
    modify λ s. record s { last_charge_price = trade.price_eur }
    record_trade trade
    notify (
        Notification.trade_end "Charging" (float_of_dec trade.energy_kwh)
          (float_of_dec trade.price_eur) end_soc)

  unfoldable pub stop_charging : ℤ → Action E (Unit {0})
  stop_charging end_soc = do
    stop_time ← now
    stopped ← transition_to_idle
    if stopped then close_charging stop_time end_soc else skip

  -- The end of a session whose stop was accepted.
  abbrev pub close_discharging : Time → ℤ → Action E (Unit {0})
  close_discharging stop_time end_soc = do
    trade ← gets λ s. discharge_trade s stop_time end_soc
    record_trade trade
    notify (
        Notification.trade_end "Discharging" (float_of_dec trade.energy_kwh)
          (float_of_dec trade.price_eur) end_soc)

  unfoldable pub stop_discharging : ℤ → Action E (Unit {0})
  stop_discharging end_soc = do
    stop_time ← now
    stopped ← transition_to_idle
    if stopped then close_discharging stop_time end_soc else skip

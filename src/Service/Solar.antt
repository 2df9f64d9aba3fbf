-- ===== src/Service/Solar.antt =====
-- The sessions on solar surplus in service/service.go: `accumulateSolarEnergyLocked`,
-- `startSolarChargingLocked`, `stopSolarChargingLocked` and `handleSolarStatusFailure`.
use marstek_energy_trading.Prelude.{
  Option, ℕ, suc, ◌+◌, true, false, String, if◌then◌else◌, ℤ, pos, ltb_ℤ, ltb, leb,
}
use marstek_energy_trading.Platform.{Time, Duration, Platform, sub_time, is_zero_time}
use marstek_energy_trading.Recorder.Types.{TradeAction, Trade}
use marstek_energy_trading.Service.Types.{
  idle, solar_charging, SolarStopReason, surplus_gone, telemetry_failure, Result, ok, failed,
  BatteryStatus, Command, Service, Notification, Env, battery_control_failure_cooldown,
  solar_restart_cooldown, solar_short_session_cooldown, solar_long_backoff_cooldown,
  solar_short_session_threshold, solar_short_session_backoff_count, solar_status_failure_threshold,
}
use marstek_energy_trading.Service.Machine.{
  Action, ◌>>=◌, ◌>>◌, skip, gets, modify, ask, now, notify, record_trade,
}
use marstek_energy_trading.Service.Control.{is_state, notify_error, transition_to_idle}
use marstek_energy_trading.Service.Grid.{begin_session, start_failed}

-- The cooldown after a session, and the new count of short sessions.
unfoldable pub adaptive_cooldown : SolarStopReason → Duration → ℕ → ℕ × ℕ
adaptive_cooldown telemetry_failure duration sessions = (battery_control_failure_cooldown, 0)
adaptive_cooldown surplus_gone duration sessions =
    if ltb_ℤ duration (pos solar_short_session_threshold)
    then (
      if leb solar_short_session_backoff_count (suc sessions)
          then solar_long_backoff_cooldown
          else solar_short_session_cooldown,
      suc sessions,
    )
    else (solar_restart_cooldown, 0)
adaptive_cooldown _ duration sessions = (solar_restart_cooldown, 0)

-- The status read as a fallback replaces the state of charge at the start of the session.
abbrev pub soc_or : ℤ → Result BatteryStatus → ℤ
soc_or soc (ok status) = status.soc
soc_or soc (failed e) = soc

module _ {N : Platform} where
  open N use {
    Decimal, Float, dec_zero, dec_of_float, truncate, seconds_of, float_add, float_mul, float_div,
    literal,
  }

  -- `accumulateSolarEnergyLocked` at the time `t`.
  unfoldable pub accumulate_solar_energy : Time → Float → Service N → Service N
  accumulate_solar_energy t measured_charge_power_w s =
      let elapsed = sub_time t s.solar_last_update in
      let counts = if is_zero_time s.solar_last_update then false else ltb_ℤ (pos 0) elapsed in
      record s {
        solar_energy_ws =
            if counts
            then float_add s.solar_energy_ws
                (float_mul s.solar_measured_charge_power_w (seconds_of elapsed))
            else s.solar_energy_ws;
        solar_measured_charge_power_w = measured_charge_power_w;
        solar_last_update = t;
      }

  unfoldable pub solar_trade : Service N → Time → ℤ → Trade N
  solar_trade s stop_time end_soc = record {
    timestamp = s.current_trade_start;
    action = TradeAction.solar_charge;
    price_eur = dec_zero;
    power_w = s.solar_charge_power;
    duration_s = truncate (seconds_of (sub_time stop_time s.current_trade_start));
    energy_kwh = dec_of_float (float_div s.solar_energy_ws (literal (pos 3_600_000) 1));
    start_soc = s.current_trade_soc;
    end_soc = end_soc;
  }

module _ {N : Platform} {E : Env N} where
  open N use {Float, dec_zero, float_of_dec, float_max, literal}

  -- `startSolarChargingLocked` once the battery has answered.
  unfoldable pub solar_begun : ℤ → ℤ → Result Float → Option String → Action E (Unit {0})
  solar_begun power_w soc (failed e) idle_err = do
    modify λ s. record s { solar_surplus_count = 0 }
    start_failed "Battery did not start solar charging: " idle_err e
  solar_begun power_w soc (ok measured) idle_err = do
    t ← now
    u ← now
    v ← now
    modify λ s. record s {
      state = solar_charging;
      current_trade_start = t;
      current_trade_price = dec_zero;
      current_trade_soc = soc;
      last_passive_refresh = u;
      solar_charge_power = power_w;
      solar_surplus_count = 0;
      solar_stop_count = 0;
      solar_energy_ws = N.literal (pos 0) 1;
      solar_last_update = v;
      solar_measured_charge_power_w = float_max measured (N.literal (pos 0) 1);
      solar_surplus_ema = N.literal (pos 0) 1;
      battery_cooldown_until = 0;
    }
    notify (Notification.trade_start "Solar charging" (N.literal (pos 0) 1) soc)

  unfoldable pub start_solar_charging : ℤ → ℤ → Action E (Unit {0})
  start_solar_charging power_w soc = do
    timeout_s ← gets λ s. s.cfg.passive_mode_timeout_s
    (result, idle_err) ← begin_session (Command.charge power_w timeout_s) true power_w
    solar_begun power_w soc result idle_err

  unfoldable pub stop_solar_charging : ℤ → SolarStopReason → Action E (Unit {0})
  stop_solar_charging end_soc reason = do
    stop_time ← now
    t ← now
    modify λ s. accumulate_solar_energy t s.solar_measured_charge_power_w s
    stopped ← transition_to_idle
    if stopped
        then (do
          trade ← gets λ s. solar_trade s stop_time end_soc
          (cooldown, sessions) ← gets λ s.
              adaptive_cooldown reason (sub_time stop_time s.current_trade_start)
                s.solar_consecutive_short_sessions
          modify λ s. record s { solar_consecutive_short_sessions = sessions }
          record_trade trade
          u ← now
          modify λ s. record s {
            solar_surplus_count = 0;
            solar_stop_count = 0;
            solar_charge_power = pos 0;
            solar_measured_charge_power_w = N.literal (pos 0) 1;
            solar_status_failures = 0;
            solar_energy_ws = N.literal (pos 0) 1;
            solar_cooldown_until = u + cooldown;
            solar_surplus_ema = N.literal (pos 0) 1;
          }
          notify (
              Notification.trade_end "Solar charging" (float_of_dec trade.energy_kwh)
                (N.literal (pos 0) 1) end_soc))
        else skip

  -- The end of `handleSolarStatusFailure`, once the failures have reached the threshold. The state
  -- is still solar charging when the lock is taken again, since no other handler runs.
  unfoldable pub give_up_solar : String → Action E (Unit {0})
  give_up_solar telemetry_err = do
    start_soc ← gets λ s. s.current_trade_soc
    status ← ask E.get_battery_status
    stop_solar_charging (soc_or start_soc status) telemetry_failure
    after ← gets λ s. s.state
    if is_state after idle
        then notify_error "Solar charging stopped because battery telemetry is unavailable: "
            telemetry_err
        else notify_error
            "Solar charging telemetry is unavailable and the battery stop is not yet confirmed: "
            telemetry_err

  unfoldable pub handle_solar_status_failure : String → Action E (Unit {0})
  handle_solar_status_failure telemetry_err = do
    s ← gets λ s. s.state
    if is_state s solar_charging
        then (do
          failures ← gets λ s. suc s.solar_status_failures
          modify λ s. record s { solar_status_failures = failures }
          if ltb failures solar_status_failure_threshold then skip else give_up_solar telemetry_err)
        else skip

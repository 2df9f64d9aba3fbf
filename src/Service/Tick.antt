-- ===== src/Service/Tick.antt =====
-- `tick` of service/service.go, the decision that is taken every minute.
use marstek_energy_trading.Prelude.{
  Bool, false, not, ◌&&◌, Option, none, some, if◌then◌else◌, ℤ, pos, ltb_ℤ, leb_ℤ, neg,
}
use marstek_energy_trading.Platform.{Time, Platform, before}
use marstek_energy_trading.Analyzer.Types.{TradingPlan}
use marstek_energy_trading.Analyzer.Lookup.{
  get_current_price, is_in_charge_window, is_in_discharge_window, should_trade,
}
use marstek_energy_trading.Service.Types.{
  State, idle, charging, discharging, solar_charging, stopping, yield_window, ok, failed,
  BatteryStatus, Config, Env,
}
use marstek_energy_trading.Service.Machine.{Action, ◌>>=◌, ◌>>◌, skip, gets, ask, now}
use marstek_energy_trading.Service.Control.{
  is_state, notify_error, retry_stopping, refresh_passive_mode,
}
use marstek_energy_trading.Service.Grid.{
  start_charging, stop_charging, start_discharging, stop_discharging,
}
use marstek_energy_trading.Service.Solar.{stop_solar_charging}

-- Whether a plan exists that says that trading should occur.
abbrev pub has_trading_plan : {N : Platform} → Option (TradingPlan N) → Bool
has_trading_plan none = false
has_trading_plan {N} (some plan) = should_trade N plan

abbrev pub plan_charges : {N : Platform} → Option (TradingPlan N) → Time → Bool
plan_charges none t = false
plan_charges {N} (some plan) t = is_in_charge_window N plan t

abbrev pub plan_discharges : {N : Platform} → Option (TradingPlan N) → Time → Bool
plan_discharges none t = false
plan_discharges {N} (some plan) t = is_in_discharge_window N plan t

module _ {N : Platform} where
  open N use {literal, float_mul, truncate}

  -- `int(s.cfg.BatteryMinSOC * 100)`.
  unfoldable pub min_soc : Config N → ℤ
  min_soc cfg = truncate (float_mul cfg.battery_min_soc (literal (pos 100) 1))

module _ {N : Platform} {E : Env N} where
  open N use {Decimal}

  -- The branch without a plan that trades.
  unfoldable pub tick_without_plan : State → ℤ → Action E (Unit {0})
  tick_without_plan charging soc = stop_charging soc
  tick_without_plan discharging soc = stop_discharging soc
  tick_without_plan _ soc = skip

  unfoldable pub tick_idle : Bool → Bool → Decimal → Time → BatteryStatus → Action E (Unit {0})
  tick_idle in_charge in_discharge price t status = do
    cooldown_until ← gets λ s. s.battery_cooldown_until
    lowest ← gets λ s. min_soc s.cfg
    if before t cooldown_until
        then skip
        else if in_charge
        then (if leb_ℤ (pos 100) status.soc
            then skip
            else if not status.charging_flag
            then skip
            else start_charging price status.soc)
        else if in_discharge
        then (if leb_ℤ status.soc lowest
            then skip
            else if not status.discharg_flag
            then skip
            else start_discharging price status.soc)
        else skip

  -- Solar charging yields to a scheduled window, and the scheduled session starts if the stop was
  -- accepted.
  unfoldable pub tick_solar : Bool → Bool → Decimal → BatteryStatus → Action E (Unit {0})
  tick_solar in_charge in_discharge price status = do
    lowest ← gets λ s. min_soc s.cfg
    if in_charge
        then (do
          stop_solar_charging status.soc yield_window
          after ← gets λ s. s.state
          if is_state after idle && (ltb_ℤ status.soc (pos 100) && status.charging_flag)
              then start_charging price status.soc
              else skip)
        else if in_discharge
        then (do
          stop_solar_charging status.soc yield_window
          after ← gets λ s. s.state
          if is_state after idle && (ltb_ℤ lowest status.soc && status.discharg_flag)
              then start_discharging price status.soc
              else skip)
        else skip

  unfoldable pub tick_charging : Bool → BatteryStatus → Action E (Unit {0})
  tick_charging in_charge status = do
    power ← gets λ s. neg s.cfg.charge_power_w
    if not in_charge
        then stop_charging status.soc
        else if leb_ℤ (pos 100) status.soc
        then stop_charging status.soc
        else refresh_passive_mode power

  unfoldable pub tick_discharging : Bool → BatteryStatus → Action E (Unit {0})
  tick_discharging in_discharge status = do
    lowest ← gets λ s. min_soc s.cfg
    power ← gets λ s. s.cfg.discharge_power_w
    if not in_discharge
        then stop_discharging status.soc
        else if leb_ℤ status.soc lowest
        then stop_discharging status.soc
        else refresh_passive_mode power

  -- The last `switch`.
  unfoldable pub tick_state :
      State → Bool → Bool → Decimal → Time → BatteryStatus → Action E (Unit {0})
  tick_state idle in_charge in_discharge price t status =
      tick_idle in_charge in_discharge price t status
  tick_state solar_charging in_charge in_discharge price t status =
      tick_solar in_charge in_discharge price status
  tick_state charging in_charge in_discharge price t status = tick_charging in_charge status
  tick_state discharging in_charge in_discharge price t status =
      tick_discharging in_discharge status
  tick_state stopping in_charge in_discharge price t status = skip

  -- What follows once the battery status is known.
  unfoldable pub tick_with_status : Time → BatteryStatus → Action E (Unit {0})
  tick_with_status t status = do
    state ← gets λ s. s.state
    plan ← gets λ s. s.current_plan
    if not (has_trading_plan plan) then tick_without_plan state status.soc else (do
      price ← gets λ s. get_current_price N s.today_prices t
      elim price [
        | none ↦ skip
        | some p ↦ tick_state state (plan_charges plan t) (plan_discharges plan t) p t status
      ])

  unfoldable pub tick : Action E (Unit {0})
  tick = do
    t ← now
    retried ← retry_stopping
    if retried then skip else (do
      answer ← ask E.get_battery_status
      elim answer [
        | failed e ↦ notify_error "Battery unreachable: " e
        | ok status ↦ tick_with_status t status
      ])

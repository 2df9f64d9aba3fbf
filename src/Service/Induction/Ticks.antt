-- ===== src/Service/Induction/Ticks.antt =====
-- The two ticks that trade keep what the collaborators keep.
use marstek_energy_trading.Prelude.{Bool, ℤ}
use marstek_energy_trading.Platform.{Time, Duration, Platform}
use marstek_energy_trading.Service.Types.{
  Env, BatteryStatus, State, idle, charging, discharging, solar_charging, stopping,
}
use marstek_energy_trading.Service.Tick.{
  tick_without_plan, tick_idle, tick_solar, tick_charging, tick_discharging, tick_state,
  tick_with_status, tick,
}
use marstek_energy_trading.Service.SolarTick.{
  is_in_scheduled_window, qualify, solar_idle, adjust_power, follow_surplus, debounce,
  solar_session, solar_state, solar_tick,
}
use marstek_energy_trading.Service.Induction.Steps.{
  notify_error-Keeps, retry_stopping-Keeps, refresh_passive_mode-Keeps,
}
use marstek_energy_trading.Service.Induction.Sessions.{
  start_charging-Keeps, start_discharging-Keeps, stop_charging-Keeps, stop_discharging-Keeps,
  start_solar_charging-Keeps, stop_solar_charging-Keeps, handle_solar_status_failure-Keeps,
}
use marstek_energy_trading.Service.Induction.{Relation, IsKept, Keeps, keeps_rules}

module _ {N : Platform} {E : Env N} {P : Relation E} (k : IsKept E P) where
  open N use {Decimal, Float}

  tick_without_plan-Keeps : (s : State) (soc : ℤ) → Keeps P (tick_without_plan {E = E} s soc)
  unfolding tick_without_plan
  tick_without_plan-Keeps idle soc = search keeps_rules
  tick_without_plan-Keeps charging soc = search (keeps_rules, stop_charging-Keeps) depth 20
  tick_without_plan-Keeps discharging soc = search (keeps_rules, stop_discharging-Keeps) depth 20
  tick_without_plan-Keeps solar_charging soc = search keeps_rules
  tick_without_plan-Keeps stopping soc = search keeps_rules

  tick_idle-Keeps :
      (in_charge in_discharge : Bool) (price : Decimal) (t : Time) (status : BatteryStatus)
      → Keeps P (tick_idle {E = E} in_charge in_discharge price t status)
  unfolding tick_idle
  tick_idle-Keeps in_charge in_discharge price t status =
      search (keeps_rules, start_charging-Keeps, start_discharging-Keeps) depth 20

  tick_solar-Keeps :
      (in_charge in_discharge : Bool) (price : Decimal) (status : BatteryStatus)
      → Keeps P (tick_solar {E = E} in_charge in_discharge price status)
  unfolding tick_solar
  tick_solar-Keeps in_charge in_discharge price status =
      search (keeps_rules, start_charging-Keeps, start_discharging-Keeps, stop_solar_charging-Keeps)
        depth 20

  tick_charging-Keeps :
      (in_charge : Bool) (status : BatteryStatus) → Keeps P (tick_charging {E = E} in_charge status)
  unfolding tick_charging
  tick_charging-Keeps in_charge status =
      search (keeps_rules, stop_charging-Keeps, refresh_passive_mode-Keeps) depth 20

  tick_discharging-Keeps :
      (in_discharge : Bool) (status : BatteryStatus)
      → Keeps P (tick_discharging {E = E} in_discharge status)
  unfolding tick_discharging
  tick_discharging-Keeps in_discharge status =
      search (keeps_rules, stop_discharging-Keeps, refresh_passive_mode-Keeps) depth 20

  tick_state-Keeps :
      (s : State) (in_charge in_discharge : Bool) (price : Decimal) (t : Time)
      (status : BatteryStatus)
      → Keeps P (tick_state {E = E} s in_charge in_discharge price t status)
  unfolding tick_state
  tick_state-Keeps idle in_charge in_discharge price t status =
      search (keeps_rules, tick_idle-Keeps) depth 20
  tick_state-Keeps charging in_charge in_discharge price t status =
      search (keeps_rules, tick_charging-Keeps) depth 20
  tick_state-Keeps discharging in_charge in_discharge price t status =
      search (keeps_rules, tick_discharging-Keeps) depth 20
  tick_state-Keeps solar_charging in_charge in_discharge price t status =
      search (keeps_rules, tick_solar-Keeps) depth 20
  tick_state-Keeps stopping in_charge in_discharge price t status = search keeps_rules

  tick_with_status-Keeps :
      (t : Time) (status : BatteryStatus) → Keeps P (tick_with_status {E = E} t status)
  unfolding tick_with_status
  tick_with_status-Keeps t status =
      search (keeps_rules, tick_without_plan-Keeps, tick_state-Keeps) depth 20

  pub tick-Keeps : Keeps P (tick {E = E})
  unfolding tick
  tick-Keeps =
      search (keeps_rules, retry_stopping-Keeps, notify_error-Keeps, tick_with_status-Keeps) depth
        20

  is_in_scheduled_window-Keeps : Keeps P (is_in_scheduled_window {E = E})
  unfolding is_in_scheduled_window
  is_in_scheduled_window-Keeps = search keeps_rules depth 20

  qualify-Keeps : (surplus : Float) (soc : ℤ) → Keeps P (qualify {E = E} surplus soc)
  unfolding qualify
  qualify-Keeps surplus soc = search (keeps_rules, start_solar_charging-Keeps) depth 20

  solar_idle-Keeps : (surplus : Float) (soc : ℤ) → Keeps P (solar_idle {E = E} surplus soc)
  unfolding solar_idle
  solar_idle-Keeps surplus soc =
      search (keeps_rules, is_in_scheduled_window-Keeps, qualify-Keeps) depth 20

  adjust_power-Keeps : (target : ℤ) → Keeps P (adjust_power {E = E} target)
  unfolding adjust_power
  adjust_power-Keeps target = search (keeps_rules, refresh_passive_mode-Keeps) depth 20

  follow_surplus-Keeps : (age : Duration) (soc : ℤ) → Keeps P (follow_surplus {E = E} age soc)
  unfolding follow_surplus
  follow_surplus-Keeps age soc =
      search (keeps_rules, stop_solar_charging-Keeps, adjust_power-Keeps) depth 20

  debounce-Keeps : (age : Duration) → Keeps P (debounce {E = E} age)
  unfolding debounce
  debounce-Keeps age = search keeps_rules depth 20

  solar_session-Keeps :
      (surplus measured : Float) (soc : ℤ) → Keeps P (solar_session {E = E} surplus measured soc)
  unfolding solar_session
  solar_session-Keeps surplus measured soc =
      search
        (
          keeps_rules, stop_solar_charging-Keeps, is_in_scheduled_window-Keeps, debounce-Keeps,
          follow_surplus-Keeps,
        )
        depth 20

  solar_state-Keeps :
      (s : State) (surplus measured : Float) (soc : ℤ)
      → Keeps P (solar_state {E = E} s surplus measured soc)
  unfolding solar_state
  solar_state-Keeps idle surplus measured soc = search (keeps_rules, solar_idle-Keeps) depth 20
  solar_state-Keeps charging surplus measured soc = search keeps_rules
  solar_state-Keeps discharging surplus measured soc = search keeps_rules
  solar_state-Keeps solar_charging surplus measured soc =
      search (keeps_rules, solar_session-Keeps) depth 20
  solar_state-Keeps stopping surplus measured soc = search keeps_rules

  pub solar_tick-Keeps : Keeps P (solar_tick {E = E})
  unfolding solar_tick
  solar_tick-Keeps =
      search
        (keeps_rules, retry_stopping-Keeps, handle_solar_status_failure-Keeps, solar_state-Keeps)
        depth 20

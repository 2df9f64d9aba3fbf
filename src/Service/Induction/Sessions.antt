-- ===== src/Service/Induction/Sessions.antt =====
-- The sessions keep what the collaborators keep.
use marstek_energy_trading.Prelude.{Option, none, some, String, ℤ}
use marstek_energy_trading.Platform.{Platform}
use marstek_energy_trading.Service.Types.{Env, Result, ok, failed, SolarStopReason}
use marstek_energy_trading.Service.Grid.{
  mark_stopping, start_failed, charging_begun, start_charging, discharging_begun, start_discharging,
  stop_charging, stop_discharging,
}
use marstek_energy_trading.Service.Solar.{
  solar_begun, start_solar_charging, stop_solar_charging, give_up_solar,
  handle_solar_status_failure,
}
use marstek_energy_trading.Service.Induction.Steps.{
  notify_error-Keeps, transition_to_idle-Keeps, begin_session-Keeps,
}
use marstek_energy_trading.Service.Induction.{Relation, IsKept, Keeps, keeps_rules}

module _ {N : Platform} {E : Env N} {P : Relation E} (k : IsKept E P) where
  open N use {Decimal, Float}

  mark_stopping-Keeps : (e : Option String) → Keeps P (mark_stopping {E = E} e)
  mark_stopping-Keeps none = search keeps_rules depth 20
  mark_stopping-Keeps (some e) = search keeps_rules depth 20

  start_failed-Keeps :
      (prefix : String) (idle_err : Option String) (e : String)
      → Keeps P (start_failed {E = E} prefix idle_err e)
  unfolding start_failed
  start_failed-Keeps prefix idle_err e =
      search (keeps_rules, mark_stopping-Keeps, notify_error-Keeps) depth 20

  charging_begun-Keeps :
      (price : Decimal) (soc : ℤ) (result : Result Float) (idle_err : Option String)
      → Keeps P (charging_begun {E = E} price soc result idle_err)
  unfolding charging_begun
  charging_begun-Keeps price soc (failed e) idle_err =
      search (keeps_rules, start_failed-Keeps) depth 20
  charging_begun-Keeps price soc (ok measured) idle_err = search keeps_rules depth 20

  pub start_charging-Keeps :
      (price : Decimal) (soc : ℤ) → Keeps P (start_charging {E = E} price soc)
  unfolding start_charging
  start_charging-Keeps price soc =
      search (keeps_rules, begin_session-Keeps, charging_begun-Keeps) depth 20

  discharging_begun-Keeps :
      (price : Decimal) (soc : ℤ) (result : Result Float) (idle_err : Option String)
      → Keeps P (discharging_begun {E = E} price soc result idle_err)
  unfolding discharging_begun
  discharging_begun-Keeps price soc (failed e) idle_err =
      search (keeps_rules, start_failed-Keeps) depth 20
  discharging_begun-Keeps price soc (ok measured) idle_err = search keeps_rules depth 20

  pub start_discharging-Keeps :
      (price : Decimal) (soc : ℤ) → Keeps P (start_discharging {E = E} price soc)
  unfolding start_discharging
  start_discharging-Keeps price soc =
      search (keeps_rules, begin_session-Keeps, discharging_begun-Keeps) depth 20

  pub stop_charging-Keeps : (soc : ℤ) → Keeps P (stop_charging {E = E} soc)
  unfolding stop_charging
  stop_charging-Keeps soc = search (keeps_rules, transition_to_idle-Keeps) depth 20

  pub stop_discharging-Keeps : (soc : ℤ) → Keeps P (stop_discharging {E = E} soc)
  unfolding stop_discharging
  stop_discharging-Keeps soc = search (keeps_rules, transition_to_idle-Keeps) depth 20

  solar_begun-Keeps :
      (power_w soc : ℤ) (result : Result Float) (idle_err : Option String)
      → Keeps P (solar_begun {E = E} power_w soc result idle_err)
  unfolding solar_begun
  solar_begun-Keeps power_w soc (failed e) idle_err =
      search (keeps_rules, start_failed-Keeps) depth 20
  solar_begun-Keeps power_w soc (ok measured) idle_err = search keeps_rules depth 20

  pub start_solar_charging-Keeps :
      (power_w soc : ℤ) → Keeps P (start_solar_charging {E = E} power_w soc)
  unfolding start_solar_charging
  start_solar_charging-Keeps power_w soc =
      search (keeps_rules, begin_session-Keeps, solar_begun-Keeps) depth 20

  pub stop_solar_charging-Keeps :
      (soc : ℤ) (reason : SolarStopReason) → Keeps P (stop_solar_charging {E = E} soc reason)
  unfolding stop_solar_charging
  stop_solar_charging-Keeps soc reason = search (keeps_rules, transition_to_idle-Keeps) depth 20

  give_up_solar-Keeps : (e : String) → Keeps P (give_up_solar {E = E} e)
  unfolding give_up_solar
  give_up_solar-Keeps e =
      search (keeps_rules, stop_solar_charging-Keeps, notify_error-Keeps) depth 20

  pub handle_solar_status_failure-Keeps :
      (e : String) → Keeps P (handle_solar_status_failure {E = E} e)
  unfolding handle_solar_status_failure
  handle_solar_status_failure-Keeps e = search (keeps_rules, give_up_solar-Keeps) depth 20

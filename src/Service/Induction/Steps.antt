-- ===== src/Service/Induction/Steps.antt =====
-- The shared steps of the handlers keep what the collaborators keep.
use marstek_energy_trading.Prelude.{ℕ, zero, suc, Bool, Option, none, some, String, ℤ}
use marstek_energy_trading.Platform.{Platform}
use marstek_energy_trading.Service.Types.{Env, Command, Result}
use marstek_energy_trading.Service.Machine.{Action, command, ◌>>=◌}
use marstek_energy_trading.Service.Control.{
  wait_loop, wait_for_battery_power, idle_battery, notify_error, transition_to_idle, retry_stopping,
  refresh_passive_mode, poll, at_deadline, attempt_stop, or_retry, stop_battery_on_shutdown,
}
use marstek_energy_trading.Service.Grid.{begin_session}
use marstek_energy_trading.Service.Induction.{Relation, IsKept, Keeps, keeps_rules}

module _ {N : Platform} {E : Env N} {P : Relation E} (k : IsKept E P) where
  open N use {Float}

  at_deadline-Keeps : (e : Option String) → Keeps P (at_deadline {E = E} e)
  at_deadline-Keeps none = search keeps_rules depth 14
  at_deadline-Keeps (some e) = search keeps_rules depth 14

  poll-Keeps :
      (inward : Bool) (threshold : Float) (next : Option String → Action E (Result Float))
      → ((e : Option String) → Keeps P (next e))
      → (e : Option String) → Keeps P (poll {E = E} inward threshold next e)
  poll-Keeps inward threshold next h e = search (keeps_rules, h) depth 14

  wait_loop-Keeps :
      (inward : Bool) (threshold : Float) (ticks : ℕ) (e : Option String)
      → Keeps P (wait_loop {E = E} inward threshold ticks e)
  unfolding wait_loop
  wait_loop-Keeps inward threshold zero = poll-Keeps inward threshold at_deadline at_deadline-Keeps
  wait_loop-Keeps inward threshold (suc ticks) =
      poll-Keeps inward threshold (wait_loop inward threshold ticks)
        (wait_loop-Keeps inward threshold ticks)

  pub wait_for_battery_power-Keeps :
      (inward : Bool) (power_w : ℤ) → Keeps P (wait_for_battery_power {E = E} inward power_w)
  unfolding wait_for_battery_power
  wait_for_battery_power-Keeps inward power_w = search (keeps_rules, wait_loop-Keeps) depth 14

  pub idle_battery-Keeps : Keeps P (idle_battery {E = E})
  unfolding idle_battery
  idle_battery-Keeps = search keeps_rules depth 14

  pub notify_error-Keeps : (p e : String) → Keeps P (notify_error {E = E} p e)
  unfolding notify_error
  notify_error-Keeps p e = search keeps_rules depth 14

  attempt_stop-Keeps : Keeps P (attempt_stop {E = E})
  attempt_stop-Keeps = search (keeps_rules, idle_battery-Keeps, notify_error-Keeps) depth 14

  pub transition_to_idle-Keeps : Keeps P (transition_to_idle {E = E})
  unfolding transition_to_idle
  transition_to_idle-Keeps = search (keeps_rules, attempt_stop-Keeps) depth 14

  pub retry_stopping-Keeps : Keeps P (retry_stopping {E = E})
  unfolding retry_stopping
  retry_stopping-Keeps = search (keeps_rules, transition_to_idle-Keeps) depth 14

  retry-Keeps :
      (next : Action E (Option String))
      → Keeps P next
      → Keeps P (command {E = E} Command.stop >>= or_retry next)
  retry-Keeps next h = search keeps_rules depth 14

  pub stop_battery_on_shutdown-Keeps :
      (ticks : ℕ) → Keeps P (stop_battery_on_shutdown {E = E} ticks)
  unfolding stop_battery_on_shutdown
  stop_battery_on_shutdown-Keeps zero = search keeps_rules depth 14
  stop_battery_on_shutdown-Keeps (suc ticks) =
      retry-Keeps (stop_battery_on_shutdown ticks) (stop_battery_on_shutdown-Keeps ticks)

  pub refresh_passive_mode-Keeps : (power : ℤ) → Keeps P (refresh_passive_mode {E = E} power)
  unfolding refresh_passive_mode
  refresh_passive_mode-Keeps power = search keeps_rules depth 14

  pub begin_session-Keeps :
      (c : Command) (inward : Bool) (power_w : ℤ) → Keeps P (begin_session {E = E} c inward power_w)
  unfolding begin_session
  begin_session-Keeps c inward power_w =
      search (keeps_rules, wait_for_battery_power-Keeps, idle_battery-Keeps) depth 14

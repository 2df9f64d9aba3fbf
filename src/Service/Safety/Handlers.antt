-- ===== src/Service/Safety/Handlers.antt =====
-- The handlers of the main loop keep the invariant.
use marstek_energy_trading.Prelude.{
  Bool, true, ◌≡◌, ◌≢◌, refl, Bool-cases, Option-cases, inl, inr, ℤ, neg, arith,
}
use marstek_energy_trading.Platform.{Time, Platform}
use marstek_energy_trading.Service.Types.{
  State, idle, charging, discharging, solar_charging, stopping, Env, BatteryStatus, yield_window,
  Result-cases,
}
use marstek_energy_trading.Service.Machine.{Machine, now}
use marstek_energy_trading.Service.Control.{retry_stopping, is_state}
use marstek_energy_trading.Service.Solar.{stop_solar_charging}
use marstek_energy_trading.Service.Tick.{
  tick_without_plan, tick_idle, tick_solar, tick_charging, tick_discharging, tick_state,
  tick_with_status, tick, has_trading_plan, plan_charges, plan_discharges,
}
use marstek_energy_trading.Analyzer.Lookup.{get_current_price}
use marstek_energy_trading.Service.Safety.{IsSafe}
use marstek_energy_trading.Service.Safety.Steps.{
  retry_stopping-IsSafe, notify_error-IsSafe, refresh_passive_mode-IsSafe,
}
use marstek_energy_trading.Service.Safety.Sessions.{
  start_charging-IsSafe, start_discharging-IsSafe, stop_charging-IsSafe, stop_discharging-IsSafe,
  stop_solar_charging-IsSafe,
}

is_state-eq : (a b : State) → is_state a b ≡ true → a ≡ b
is_state-eq a b h = ground arith

module _ {N : Platform} {E : Env N} where
  open N use {Decimal, Float}

  tick_without_plan-IsSafe :
      (state : State) (soc : ℤ) (m : Machine E)
      → IsSafe m
      → m.svc.state ≡ state
      → IsSafe (tick_without_plan state soc m).1
  unfolding tick_without_plan
  tick_without_plan-IsSafe charging soc m h e = stop_charging-IsSafe soc m h (λ i. cc)
  tick_without_plan-IsSafe discharging soc m h e = stop_discharging-IsSafe soc m h (λ i. cc)
  tick_without_plan-IsSafe _ soc m h e = h

  tick_idle-IsSafe :
      (c d : Bool) (price : Decimal) (t : Time) (status : BatteryStatus) (m : Machine E)
      → IsSafe m
      → m.svc.state ≡ idle
      → IsSafe (tick_idle c d price t status m).1
  unfolding tick_idle
  tick_idle-IsSafe c d price t status m h i = ground (
    arith,
    start_charging-IsSafe price status.soc m h i,
    start_discharging-IsSafe price status.soc m h i,
  )

  tick_solar-IsSafe :
      (c d : Bool) (price : Decimal) (status : BatteryStatus) (m : Machine E)
      → IsSafe m
      → m.svc.state ≢ idle
      → IsSafe (tick_solar c d price status m).1
  unfolding tick_solar
  tick_solar-IsSafe c d price status m h ne =
      let m₁ = (stop_solar_charging status.soc yield_window m).1 in
      let h₁ : IsSafe m₁ = stop_solar_charging-IsSafe status.soc yield_window m h ne in
      ground (
        arith,
        h₁,
        is_state-eq m₁.svc.state idle,
        start_charging-IsSafe price status.soc m₁ h₁,
        start_discharging-IsSafe price status.soc m₁ h₁,
      )

  tick_charging-IsSafe :
      (c : Bool) (status : BatteryStatus) (m : Machine E)
      → IsSafe m
      → m.svc.state ≡ charging
      → IsSafe (tick_charging c status m).1
  unfolding tick_charging neg
  tick_charging-IsSafe c status m h e = ground (
    arith,
    stop_charging-IsSafe status.soc m h,
    refresh_passive_mode-IsSafe (neg m.svc.cfg.charge_power_w) m h,
  )

  tick_discharging-IsSafe :
      (d : Bool) (status : BatteryStatus) (m : Machine E)
      → IsSafe m
      → m.svc.state ≡ discharging
      → IsSafe (tick_discharging d status m).1
  unfolding tick_discharging
  tick_discharging-IsSafe d status m h e = ground (
    arith,
    stop_discharging-IsSafe status.soc m h,
    refresh_passive_mode-IsSafe m.svc.cfg.discharge_power_w m h,
  )

  tick_state-IsSafe :
      (state : State) (c d : Bool) (price : Decimal) (t : Time) (status : BatteryStatus)
      (m : Machine E)
      → IsSafe m
      → m.svc.state ≡ state
      → IsSafe (tick_state state c d price t status m).1
  unfolding tick_state
  tick_state-IsSafe idle c d price t status m h e = tick_idle-IsSafe c d price t status m h e
  tick_state-IsSafe solar_charging c d price t status m h e =
      tick_solar-IsSafe c d price status m h (λ i. cc)
  tick_state-IsSafe charging c d price t status m h e = tick_charging-IsSafe c status m h e
  tick_state-IsSafe discharging c d price t status m h e = tick_discharging-IsSafe d status m h e
  tick_state-IsSafe stopping c d price t status m h e = h

  tick_with_status-IsSafe :
      (t : Time) (status : BatteryStatus) (m : Machine E)
      → IsSafe m
      → IsSafe (tick_with_status t status m).1
  unfolding tick_with_status
  tick_with_status-IsSafe t status m h =
      let s = m.svc in
      elim (Bool-cases (has_trading_plan s.current_plan)) [
        | inl traded ↦ elim (Option-cases (get_current_price N s.today_prices t)) [
          | inl unknown ↦ ground arith
          | inr (p, known) ↦ ground (
            arith,
            tick_state-IsSafe s.state (plan_charges s.current_plan t)
                (plan_discharges s.current_plan t) p t status m h refl,
          )
        ]
        | inr idle_plan ↦ ground (arith, tick_without_plan-IsSafe s.state status.soc m h refl)
      ]

  -- One `tick` keeps the invariant between the state and the commands, whatever the battery answers.
  pub tick-IsSafe : (m : Machine E) → IsSafe m → IsSafe (tick m).1
  unfolding tick
  tick-IsSafe m h =
      let m₁ = (now m).1 in
      let m₂ = (retry_stopping m₁).1 in
      let h₂ : IsSafe m₂ = retry_stopping-IsSafe m₁ (ground arith) in
      let (answer, w) = E.get_battery_status m₂.world in
      let m₃ : Machine E = record m₂ { world = w } in
      let h₃ : IsSafe m₃ = ground (arith, h₂) in
      elim (Result-cases answer) [
        | inl (status, e) ↦ ground (arith, h₂, tick_with_status-IsSafe (now m).0 status m₃ h₃)
        | inr (f, e) ↦ ground (arith, h₂, notify_error-IsSafe "Battery unreachable: " f m₃ h₃)
      ]

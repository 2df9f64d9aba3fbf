-- ===== src/Service/Safety/SolarHandlers.antt =====
-- The solar handler keeps the invariant.
use marstek_energy_trading.Prelude.{suc, ◌≡◌, refl, inl, inr, ap, ◌∙◌, ℤ, pos, neg, arith, ◌<ℤ◌}
use marstek_energy_trading.Platform.{Duration, Platform, sub_time}
use marstek_energy_trading.Service.Types.{
  State, idle, solar_charging, Env, surplus_gone, yield_window, battery_full, Result-cases,
}
use marstek_energy_trading.Service.Machine.{Machine, now, ask}
use marstek_energy_trading.Service.Control.{retry_stopping}
use marstek_energy_trading.Service.Solar.{accumulate_solar_energy}
use marstek_energy_trading.Service.SolarTick.{
  clamp_charge_power, is_in_scheduled_window, qualify, solar_idle, adjust_power, follow_surplus,
  debounce, solar_session, solar_state, solar_tick, next_ema,
}
use marstek_energy_trading.Service.Safety.{IsSafe}
use marstek_energy_trading.Service.Safety.Steps.{
  IsUntouched, IsUntouched-IsSafe, retry_stopping-IsSafe, refresh_passive_mode-IsSafe,
}
use marstek_energy_trading.Service.Safety.Sessions.{
  start_solar_charging-IsSafe, stop_solar_charging-IsSafe, handle_solar_status_failure-IsSafe,
}

pub clamp_charge_power_pos :
    (power limit : ℤ) → pos 0 <ℤ limit → pos 0 <ℤ clamp_charge_power power limit
unfolding clamp_charge_power
clamp_charge_power_pos power limit h = ground arith

module _ {N : Platform} {E : Env N} where
  open N use {Float, truncate, float_add, float_neg, float_max, literal}

  is_in_scheduled_window-IsUntouched : (m : Machine E) → IsUntouched m (is_in_scheduled_window m).1
  unfolding is_in_scheduled_window
  is_in_scheduled_window-IsUntouched m = ground arith

  qualify-IsSafe :
      (surplus : Float) (soc : ℤ) (m : Machine E)
      → IsSafe m
      → m.svc.state ≡ idle
      → IsSafe (qualify surplus soc m).1
  unfolding qualify
  qualify-IsSafe surplus soc m h i =
      let m₁ : Machine E = record m {
        svc = record (m.svc) { solar_surplus_count = suc m.svc.solar_surplus_count };
      } in
      let power = clamp_charge_power (truncate surplus) m.svc.cfg.charge_power_w in
      ground (
        arith,
        start_solar_charging-IsSafe power soc m₁ (ground arith) i,
        clamp_charge_power_pos (truncate surplus) m.svc.cfg.charge_power_w,
      )

  solar_idle-IsSafe :
      (surplus : Float) (soc : ℤ) (m : Machine E)
      → IsSafe m
      → m.svc.state ≡ idle
      → IsSafe (solar_idle surplus soc m).1
  unfolding solar_idle
  solar_idle-IsSafe surplus soc m h i =
      let m₁ : Machine E = (now (now m).1).1 in
      let m₂ = (is_in_scheduled_window m₁).1 in
      let u = is_in_scheduled_window-IsUntouched m₁ in
      let h₂ : IsSafe m₂ = IsUntouched-IsSafe u (ground arith) in
      let i₂ : m₂.svc.state ≡ idle = ap (λ s. s.state) u.svc ∙ i in
      ground (arith, h₂, i₂, qualify-IsSafe surplus soc m₂ h₂ i₂)

  adjust_power-IsSafe :
      (target : ℤ) (m : Machine E)
      → IsSafe m
      → m.svc.state ≡ solar_charging
      → pos 0 <ℤ target
      → IsSafe (adjust_power target m).1
  unfolding adjust_power neg
  adjust_power-IsSafe target m h e p =
      ground
        (arith, refresh_passive_mode-IsSafe (neg m.svc.solar_charge_power) m h, h.solar_positive e)

  follow_surplus-IsSafe :
      (age : Duration) (soc : ℤ) (m : Machine E)
      → IsSafe m
      → m.svc.state ≡ solar_charging
      → IsSafe (follow_surplus age soc m).1
  unfolding follow_surplus
  follow_surplus-IsSafe age soc m h e =
      let m₁ = (now m).1 in
      let target = clamp_charge_power (truncate m.svc.solar_surplus_ema) m.svc.cfg.charge_power_w in
      let h₁ : IsSafe m₁ = ground arith in
      let p : pos 0 <ℤ target = clamp_charge_power_pos _ _ h.charge_positive in
      ground (
        arith,
        adjust_power-IsSafe target m₁ h₁ e p,
        stop_solar_charging-IsSafe soc surplus_gone m₁ h₁ (λ i. cc),
      )

  debounce-IsSafe : (age : Duration) (m : Machine E) → IsSafe m → IsSafe (debounce age m).1
  unfolding debounce
  debounce-IsSafe age m h = ground arith

  debounce-state : (age : Duration) (m : Machine E) → (debounce age m).1.svc.state ≡ m.svc.state
  unfolding debounce
  debounce-state age m = ground arith

  solar_session-IsSafe :
      (surplus measured : Float) (soc : ℤ) (m : Machine E)
      → IsSafe m
      → m.svc.state ≡ solar_charging
      → IsSafe (solar_session surplus measured soc m).1
  unfolding solar_session accumulate_solar_energy
  solar_session-IsSafe surplus measured soc m h e =
      let t = (now m).0 in
      let s₁ = accumulate_solar_energy t measured m.svc in
      let ema = next_ema N s₁.solar_surplus_ema (float_add surplus measured) in
      let m₁ : Machine E =
        (now (record (now m).1 { svc = record s₁ { solar_surplus_ema = ema } })).1 in
      let age = sub_time (now (now m).1).0 m.svc.current_trade_start in
      let h₁ : IsSafe m₁ = ground arith in
      let m₂ = (is_in_scheduled_window m₁).1 in
      let u = is_in_scheduled_window-IsUntouched m₁ in
      let h₂ : IsSafe m₂ = IsUntouched-IsSafe u h₁ in
      let e₂ : m₂.svc.state ≡ solar_charging = ap (λ s. s.state) u.svc ∙ e in
      let m₃ = (debounce age m₂).1 in
      let h₃ : IsSafe m₃ = debounce-IsSafe age m₂ h₂ in
      let e₃ : m₃.svc.state ≡ solar_charging = debounce-state age m₂ ∙ e₂ in
      ground (
        arith,
        stop_solar_charging-IsSafe soc battery_full m₁ h₁ (λ i. cc),
        stop_solar_charging-IsSafe soc yield_window m₂ h₂ (λ i. cc),
        stop_solar_charging-IsSafe soc surplus_gone m₃ h₃ (λ i. cc),
        follow_surplus-IsSafe age soc m₃ h₃ e₃,
      )

  solar_state-IsSafe :
      (state : State) (surplus measured : Float) (soc : ℤ) (m : Machine E)
      → IsSafe m
      → m.svc.state ≡ state
      → IsSafe (solar_state state surplus measured soc m).1
  unfolding solar_state
  solar_state-IsSafe idle surplus measured soc m h e = solar_idle-IsSafe surplus soc m h e
  solar_state-IsSafe solar_charging surplus measured soc m h e =
      solar_session-IsSafe surplus measured soc m h e
  solar_state-IsSafe _ surplus measured soc m h e = h

  -- One `solarTick` keeps the invariant between the state and the commands, whatever the meter and the
  -- battery answer.
  pub solar_tick-IsSafe : (m : Machine E) → IsSafe m → IsSafe (solar_tick m).1
  unfolding solar_tick
  solar_tick-IsSafe m h =
      let m₁ = (retry_stopping m).1 in
      let h₁ : IsSafe m₁ = retry_stopping-IsSafe m h in
      let m₂ : Machine E = (ask E.get_active_power m₁).1 in
      let m₃ : Machine E = (ask E.get_es_status m₂).1 in
      let h₃ : IsSafe m₃ = ground (arith, h₁) in
      let m₄ : Machine E = record m₃ { svc = record (m₃.svc) { solar_status_failures = 0 } } in
      let h₄ : IsSafe m₄ = ground (arith, h₁) in
      elim (Result-cases (E.get_active_power m₁.world).0) [
        | inr (f, e) ↦ ground (arith, h₁)
        | inl (power, p) ↦ elim (Result-cases (E.get_es_status m₂.world).0) [
          | inr (f, e) ↦ ground (arith, h₁, handle_solar_status_failure-IsSafe f m₃ h₃)
          | inl (status, e) ↦ ground (
            arith,
            h₁,
            solar_state-IsSafe m₁.svc.state (float_neg power)
                (float_max status.battery_power (literal (pos 0) 1)) status.battery_soc m₄ h₄ refl,
          )
        ]
      ]

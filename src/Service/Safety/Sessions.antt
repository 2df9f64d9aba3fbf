-- ===== src/Service/Safety/Sessions.antt =====
-- Starting and stopping a session keeps the invariant.
use marstek_energy_trading.Prelude.{
  suc, true, false, Option, none, some, ◌≡◌, ◌≢◌, refl, Bool-cases, inl, inr, sym, ap, subst, ℤ,
  pos, arith, String, ◌<ℤ◌,
}
use marstek_energy_trading.Platform.{Platform}
use marstek_energy_trading.Service.Types.{
  idle, Command, Service, Env, Result, ok, failed, telemetry_failure, SolarStopReason,
}
use marstek_energy_trading.Service.Machine.{Machine, is_ok, now, record_trade}
use marstek_energy_trading.Service.Control.{is_state}
use marstek_energy_trading.Service.Grid.{
  begin_session, start_failed, charging_begun, discharging_begun, start_charging, start_discharging,
  stop_charging, stop_discharging,
}
use marstek_energy_trading.Service.Solar.{
  solar_begun, start_solar_charging, stop_solar_charging, accumulate_solar_energy,
  handle_solar_status_failure, give_up_solar, soc_or,
}
use marstek_energy_trading.Service.Safety.{IsSafe, is_settled, are_forward}
use marstek_energy_trading.Service.Safety.Steps.{
  IsBegun, begin_session-IsBegun, notify_error-IsSafe, transition_to_idle-idle,
  transition_to_idle-IsSafe,
}

module _ {N : Platform} where
  -- A machine between two sessions: the state is idle, and the powers are as the invariant has them.
  record IsPoised (s : Service N) : Type 0 where
    at_rest : s.state ≡ idle
    charge_positive : pos 0 <ℤ s.cfg.charge_power_w
    discharge_positive : pos 0 <ℤ s.cfg.discharge_power_w

module _ {N : Platform} {E : Env N} where
  open N use {Decimal, Float}

  IsPoised-begun :
      {m : Machine E} (s : Service N) → s ≡ m.svc → IsSafe m → m.svc.state ≡ idle → IsPoised s
  IsPoised-begun {m} s e h i = subst IsPoised (sym e) (record {
    at_rest = i;
    charge_positive = h.charge_positive;
    discharge_positive = h.discharge_positive;
  })

  start_failed-IsSafe :
      (prefix e : String) (idle_err : Option String) (m : Machine E)
      → IsPoised m.svc
      → are_forward m.commands ≡ true
      → (is_ok idle_err ≡ true → is_settled m.commands ≡ true)
      → IsSafe (start_failed prefix idle_err e m).1
  unfolding start_failed
  start_failed-IsSafe prefix e none m p f k =
      notify_error-IsSafe prefix e _ (ground (arith, k refl))
  start_failed-IsSafe prefix e (some _) m p f k = notify_error-IsSafe prefix e _ (ground arith)

  charging_begun-IsSafe :
      (price : Decimal) (soc power_w timeout_s : ℤ) (result : Result Float)
      (idle_err : Option String) (m m' : Machine E)
      → IsPoised m'.svc
      → are_forward m'.commands ≡ true
      → m'.svc.cfg.charge_power_w ≡ power_w
      → IsBegun (Command.charge power_w timeout_s) m m' result idle_err
      → IsSafe (charging_begun price soc result idle_err m').1
  unfolding charging_begun
  charging_begun-IsSafe price soc power_w timeout_s (failed e) idle_err m m' p f c b =
      start_failed-IsSafe _ e idle_err m' p f (b.stopped refl)
  charging_begun-IsSafe price soc power_w timeout_s (ok measured) idle_err m m' p f c b =
      ground (arith, b.started refl)

  pub start_charging-IsSafe :
      (price : Decimal) (soc : ℤ) (m : Machine E)
      → IsSafe m
      → m.svc.state ≡ idle
      → IsSafe (start_charging price soc m).1
  unfolding start_charging
  start_charging-IsSafe price soc m h i =
      let cfg = m.svc.cfg in
      let c = Command.charge cfg.charge_power_w cfg.passive_mode_timeout_s in
      let ((result, idle_err), m') = begin_session c true cfg.charge_power_w m in
      let b = begin_session-IsBegun c true cfg.charge_power_w m in
      charging_begun-IsSafe price soc cfg.charge_power_w cfg.passive_mode_timeout_s result idle_err
        m m' (IsPoised-begun m'.svc b.svc h i) (b.forward (ground arith) h.forward)
        (ap (λ s. s.cfg.charge_power_w) b.svc) b

  discharging_begun-IsSafe :
      (price : Decimal) (soc power_w timeout_s : ℤ) (result : Result Float)
      (idle_err : Option String) (m m' : Machine E)
      → IsPoised m'.svc
      → are_forward m'.commands ≡ true
      → m'.svc.cfg.discharge_power_w ≡ power_w
      → IsBegun (Command.discharge power_w timeout_s) m m' result idle_err
      → IsSafe (discharging_begun price soc result idle_err m').1
  unfolding discharging_begun
  discharging_begun-IsSafe price soc power_w timeout_s (failed e) idle_err m m' p f c b =
      start_failed-IsSafe _ e idle_err m' p f (b.stopped refl)
  discharging_begun-IsSafe price soc power_w timeout_s (ok measured) idle_err m m' p f c b =
      ground (arith, b.started refl)

  pub start_discharging-IsSafe :
      (price : Decimal) (soc : ℤ) (m : Machine E)
      → IsSafe m
      → m.svc.state ≡ idle
      → IsSafe (start_discharging price soc m).1
  unfolding start_discharging
  start_discharging-IsSafe price soc m h i =
      let cfg = m.svc.cfg in
      let c = Command.discharge cfg.discharge_power_w cfg.passive_mode_timeout_s in
      let ((result, idle_err), m') = begin_session c false cfg.discharge_power_w m in
      let b = begin_session-IsBegun c false cfg.discharge_power_w m in
      discharging_begun-IsSafe price soc cfg.discharge_power_w cfg.passive_mode_timeout_s result
        idle_err m m' (IsPoised-begun m'.svc b.svc h i) (b.forward (ground arith) h.forward)
        (ap (λ s. s.cfg.discharge_power_w) b.svc) b

  solar_begun-IsSafe :
      (power_w soc timeout_s : ℤ) (result : Result Float) (idle_err : Option String)
      (m m' : Machine E)
      → IsPoised m'.svc
      → are_forward m'.commands ≡ true
      → pos 0 <ℤ power_w
      → IsBegun (Command.charge power_w timeout_s) m m' result idle_err
      → IsSafe (solar_begun power_w soc result idle_err m').1
  unfolding solar_begun
  solar_begun-IsSafe power_w soc timeout_s (failed e) idle_err m m' p f c b =
      start_failed-IsSafe _ e idle_err _ (ground (arith, p)) f (b.stopped refl)
  solar_begun-IsSafe power_w soc timeout_s (ok measured) idle_err m m' p f c b =
      ground (arith, b.started refl)

  pub start_solar_charging-IsSafe :
      (power_w soc : ℤ) (m : Machine E)
      → IsSafe m
      → m.svc.state ≡ idle
      → pos 0 <ℤ power_w
      → IsSafe (start_solar_charging power_w soc m).1
  unfolding start_solar_charging
  start_solar_charging-IsSafe power_w soc m h i p =
      let timeout_s = m.svc.cfg.passive_mode_timeout_s in
      let c = Command.charge power_w timeout_s in
      let ((result, idle_err), m') = begin_session c true power_w m in
      let b = begin_session-IsBegun c true power_w m in
      solar_begun-IsSafe power_w soc timeout_s result idle_err m m'
        (IsPoised-begun m'.svc b.svc h i) (b.forward (ground arith) h.forward) p b

  pub stop_charging-IsSafe :
      (soc : ℤ) (m : Machine E) → IsSafe m → m.svc.state ≢ idle → IsSafe (stop_charging soc m).1
  unfolding stop_charging record_trade
  stop_charging-IsSafe soc m h ne = ground (arith, transition_to_idle-IsSafe (now m).1)

  pub stop_discharging-IsSafe :
      (soc : ℤ) (m : Machine E) → IsSafe m → m.svc.state ≢ idle → IsSafe (stop_discharging soc m).1
  unfolding stop_discharging record_trade
  stop_discharging-IsSafe soc m h ne = ground (arith, transition_to_idle-IsSafe (now m).1)

  pub stop_solar_charging-IsSafe :
      (soc : ℤ) (reason : SolarStopReason) (m : Machine E)
      → IsSafe m
      → m.svc.state ≢ idle
      → IsSafe (stop_solar_charging soc reason m).1
  unfolding stop_solar_charging record_trade accumulate_solar_energy
  stop_solar_charging-IsSafe soc reason m h ne =
      let m₁ = (now (now m).1).1 in
      let t = (now (now m).1).0 in
      let m₂ = record m₁ {
        svc = accumulate_solar_energy t m.svc.solar_measured_charge_power_w m.svc;
      } in
      ground (arith, transition_to_idle-IsSafe m₂ (ground arith), transition_to_idle-idle m₂)

  give_up_solar-IsSafe :
      (e : String) (m : Machine E) → IsSafe m → m.svc.state ≢ idle → IsSafe (give_up_solar e m).1
  unfolding give_up_solar
  give_up_solar-IsSafe e m h ne =
      let (status, w) = E.get_battery_status m.world in
      let m₁ = record m { world = w } in
      let m₂ =
        (stop_solar_charging (soc_or m.svc.current_trade_soc status) telemetry_failure m₁).1 in
      let h₂ : IsSafe m₂ = stop_solar_charging-IsSafe _ _ m₁ (ground arith) ne in
      elim (Bool-cases (is_state m₂.svc.state idle)) [
        | inl at_rest ↦ rw at_rest (notify_error-IsSafe _ e m₂ h₂)
        | inr busy ↦ rw busy (notify_error-IsSafe _ e m₂ h₂)
      ]

  pub handle_solar_status_failure-IsSafe :
      (e : String) (m : Machine E) → IsSafe m → IsSafe (handle_solar_status_failure e m).1
  unfolding handle_solar_status_failure
  handle_solar_status_failure-IsSafe e m h =
      let m₁ = record m {
        svc = record (m.svc) { solar_status_failures = suc m.svc.solar_status_failures };
      } in
      ground (arith, give_up_solar-IsSafe e m₁ (ground arith))

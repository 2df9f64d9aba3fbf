-- ===== src/Service/Safety/Starts.antt =====
-- When `tick` and `solarTick` of service/service.go start a session, and what a start leaves.
use marstek_energy_trading.Prelude.{
  ◌≡◌, ◌≤◌, ◌⊎◌, inl, inr, refl, Bool, true, false, Option, none, some, String, ℤ, pos, ◌<ℤ◌, arith,
}
use marstek_energy_trading.Platform.{Time, Platform}
use marstek_energy_trading.Service.Types.{
  State, idle, charging, discharging, stopping, Result, ok, failed, Command, Service, BatteryStatus,
  Env,
}
use marstek_energy_trading.Service.Machine.{Machine, is_ok}
use marstek_energy_trading.Service.Control.{notify_error}
use marstek_energy_trading.Service.Grid.{
  begin_session, start_failed, charging_begun, start_charging, discharging_begun, start_discharging,
}
use marstek_energy_trading.Service.Tick.{tick_idle, min_soc}
use marstek_energy_trading.Service.Safety.{is_settled, flow, direction}
use marstek_energy_trading.Service.Safety.Steps.{begin_session-IsBegun, IsBegun}

module _ {N : Platform} where
  open N use {Decimal}

  -- The session of a state, as the engine has noted it.
  abbrev IsNoted : State → Decimal → ℤ → Service N → Type 0
  IsNoted state price soc s =
      (s.state ≡ state)
      × (s.current_trade_price ≡ price)
      × (s.current_trade_soc ≡ soc)
      × (s.battery_cooldown_until ≡ 0)

module _ {N : Platform} {E : Env N} where
  open N use {Decimal, Float}

  -- What a start from rest leads to.
  abbrev pub IsStarted : State → Command → Decimal → ℤ → Machine E → Type 0
  IsStarted state c price soc m =
      (IsNoted state price soc m.svc × (flow m.commands ≡ direction c))
      ⊎ (((m.svc.state ≡ idle) × (is_settled m.commands ≡ true)) ⊎ (m.svc.state ≡ stopping))

  start_failed-IsStarted :
      (prefix e : String) (idle_err : Option String) (state : State) (c : Command) (price : Decimal)
      (soc : ℤ) (m : Machine E)
      → m.svc.state ≡ idle
      → (is_ok idle_err ≡ true → is_settled m.commands ≡ true)
      → IsStarted state c price soc (start_failed prefix idle_err e m).1
  unfolding start_failed notify_error
  start_failed-IsStarted prefix e none state c price soc m i k = inr (inl (ground (arith, k refl)))
  start_failed-IsStarted prefix e (some f) state c price soc m i k = inr (inr (ground arith))

  charging_begun-IsStarted :
      (price : Decimal) (soc : ℤ) (c : Command) (result : Result Float) (idle_err : Option String)
      (m m' : Machine E)
      → m.svc.state ≡ idle
      → IsBegun c m m' result idle_err
      → IsStarted charging c price soc (charging_begun price soc result idle_err m').1
  unfolding charging_begun
  charging_begun-IsStarted price soc c (ok p) idle_err m m' i b =
      inl (ground (arith, b.started refl))
  charging_begun-IsStarted price soc c (failed e) idle_err m m' i b =
      start_failed-IsStarted _ e idle_err charging c price soc m' (ground (arith, b.svc))
        (b.stopped refl)

  -- A start of charging from idle ends in one of three ways: charging, with the price and the state of
  -- charge noted, no cooldown, and a last accepted command that sends energy as the charge command
  -- does; idle, with an accepted stop as the last command; or stopping.
  pub start_charging-IsStarted :
      (price : Decimal) (soc : ℤ) (m : Machine E)
      → m.svc.state ≡ idle
      → IsStarted charging
          (Command.charge m.svc.cfg.charge_power_w m.svc.cfg.passive_mode_timeout_s)
          price
          soc
          (start_charging price soc m).1
  unfolding start_charging
  start_charging-IsStarted price soc m i =
      let p = m.svc.cfg.charge_power_w in
      let c = Command.charge p m.svc.cfg.passive_mode_timeout_s in
      let ((result, idle_err), m') = begin_session c true p m in
      charging_begun-IsStarted price soc c result idle_err m m' i (begin_session-IsBegun c true p m)

  discharging_begun-IsStarted :
      (price : Decimal) (soc : ℤ) (c : Command) (result : Result Float) (idle_err : Option String)
      (m m' : Machine E)
      → m.svc.state ≡ idle
      → IsBegun c m m' result idle_err
      → IsStarted discharging c price soc (discharging_begun price soc result idle_err m').1
  unfolding discharging_begun
  discharging_begun-IsStarted price soc c (ok p) idle_err m m' i b =
      inl (ground (arith, b.started refl))
  discharging_begun-IsStarted price soc c (failed e) idle_err m m' i b =
      start_failed-IsStarted _ e idle_err discharging c price soc m' (ground (arith, b.svc))
        (b.stopped refl)

  -- A start of discharging from idle ends in one of three ways: discharging, with the price and the
  -- state of charge noted, no cooldown, and a last accepted command that sends energy as the discharge
  -- command does; idle, with an accepted stop as the last command; or stopping.
  pub start_discharging-IsStarted :
      (price : Decimal) (soc : ℤ) (m : Machine E)
      → m.svc.state ≡ idle
      → IsStarted discharging
          (Command.discharge m.svc.cfg.discharge_power_w m.svc.cfg.passive_mode_timeout_s)
          price
          soc
          (start_discharging price soc m).1
  unfolding start_discharging
  start_discharging-IsStarted price soc m i =
      let p = m.svc.cfg.discharge_power_w in
      let c = Command.discharge p m.svc.cfg.passive_mode_timeout_s in
      let ((result, idle_err), m') = begin_session c false p m in
      discharging_begun-IsStarted price soc c result idle_err m m' i
        (begin_session-IsBegun c false p m)

  -- Where the idle branch of `tick`, from the idle state, starts to charge, the time is taken to lie in a charge window, the battery is
  -- not full and allows charging, and the cooldown is over.
  pub tick_idle_charges :
      (in_charge in_discharge : Bool) (price : Decimal) (t : Time) (status : BatteryStatus)
      (m : Machine E)
      → m.svc.state ≡ idle
      → (tick_idle in_charge in_discharge price t status m).1.svc.state ≡ charging
      → (in_charge ≡ true)
        × (status.soc <ℤ pos 100)
        × (status.charging_flag ≡ true)
        × (m.svc.battery_cooldown_until ≤ t)
  unfolding tick_idle
  tick_idle_charges in_charge in_discharge price t status m i h =
      ground (arith, start_discharging-IsStarted price status.soc m i)

  -- Where the idle branch of `tick`, from the idle state, starts to discharge, the time is taken to lie in a discharge window and in no
  -- charge window, the battery is above the minimum and allows discharging, and the cooldown is over.
  pub tick_idle_discharges :
      (in_charge in_discharge : Bool) (price : Decimal) (t : Time) (status : BatteryStatus)
      (m : Machine E)
      → m.svc.state ≡ idle
      → (tick_idle in_charge in_discharge price t status m).1.svc.state ≡ discharging
      → (in_charge ≡ false)
        × (in_discharge ≡ true)
        × (min_soc m.svc.cfg <ℤ status.soc)
        × (status.discharg_flag ≡ true)
        × (m.svc.battery_cooldown_until ≤ t)
  unfolding tick_idle
  tick_idle_discharges in_charge in_discharge price t status m i h =
      ground (arith, start_charging-IsStarted price status.soc m i)

-- ===== src/Service/Outcomes/Entries.antt =====
-- When `tick` of service/service.go starts a session: by the plan, the clock and the battery.
use mathlib.Core.List.{Memᴰ}
use mathlib.Core.List.Memᴰ
use marstek_energy_trading.Prelude.{
  ◌≡◌, subst, ◌≤◌, ◌<◌, refl, sym, ◌∙◌, ap, true, false, Bool-cases, Option, none, some,
  Option-cases, inl, inr, List, [], ◌∷◌, pos, ◌<ℤ◌, arith,
}
use marstek_energy_trading.Platform.{Time, Platform}
use marstek_energy_trading.Analyzer.Types.{TimeWindow, TradingPlan}
use marstek_energy_trading.Analyzer.Lookup.{
  get_current_price, is_in_windows, is_in_charge_window, is_in_discharge_window, should_trade,
  is_within,
}
use marstek_energy_trading.Service.Types.{
  State, idle, charging, discharging, Result-cases, ok, BatteryStatus, Env,
}
use marstek_energy_trading.Service.Machine.{Machine}
use marstek_energy_trading.Service.Control.{is_state, notify_error, retry_stopping}
use marstek_energy_trading.Service.Tick.{
  has_trading_plan, plan_charges, plan_discharges, min_soc, tick_without_plan, tick_idle,
  tick_state, tick_with_status, tick,
}
use marstek_energy_trading.Service.Safety.Starts.{tick_idle_charges, tick_idle_discharges}

moved : (s s' : State) → s ≡ s' → is_state s' idle ≡ false → is_state s idle ≡ false
moved s s' e h = cc

module _ {N : Platform} where
  -- One of the windows holds the time, from its start on and before its end.
  abbrev pub HasWindow : List (TimeWindow N) → Time → Type 0
  HasWindow windows t = (w : TimeWindow N) × Memᴰ w windows × (w.start ≤ t) × (t < w.end)

  is_in_windows-HasWindow :
      (windows : List (TimeWindow N)) (t : Time)
      → is_in_windows N windows t ≡ true
      → HasWindow windows t
  unfolding is_in_windows
  is_in_windows-HasWindow [] t h = cc
  is_in_windows-HasWindow (w ∷ windows) t h = elim (Bool-cases (is_within t w.start w.end)) [
    | inl e ↦ (w, Memᴰ.head refl, ground arith, ground arith)
    | inr e ↦
        let (v, k, p, q) = is_in_windows-HasWindow windows t (ground arith) in
        (v, Memᴰ.tail k, p, q)
  ]

  -- A plan that says to trade, with a window of the chosen kind at the time.
  abbrev pub IsPlanned :
      (TradingPlan N → List (TimeWindow N)) → Option (TradingPlan N) → Time → Type 0
  IsPlanned windows o t =
      (plan : TradingPlan N) × (o ≡ some plan)
      × (should_trade N plan ≡ true)
      × HasWindow (windows plan) t

  plan_charges-IsPlanned :
      (o : Option (TradingPlan N)) (t : Time)
      → has_trading_plan o ≡ true
      → plan_charges o t ≡ true
      → IsPlanned (λ plan. plan.charge_windows) o t
  unfolding is_in_charge_window
  plan_charges-IsPlanned none t h k = cc
  plan_charges-IsPlanned (some plan) t h k =
      (plan, refl, h, is_in_windows-HasWindow plan.charge_windows t k)

  plan_discharges-IsPlanned :
      (o : Option (TradingPlan N)) (t : Time)
      → has_trading_plan o ≡ true
      → plan_discharges o t ≡ true
      → IsPlanned (λ plan. plan.discharge_windows) o t
  unfolding is_in_discharge_window
  plan_discharges-IsPlanned none t h k = cc
  plan_discharges-IsPlanned (some plan) t h k =
      (plan, refl, h, is_in_windows-HasWindow plan.discharge_windows t k)

  HasWindow-is_in_windows :
      (windows : List (TimeWindow N)) (t : Time)
      → HasWindow windows t
      → is_in_windows N windows t ≡ true
  unfolding is_in_windows
  HasWindow-is_in_windows [] t (v, k, p, q) = absurd (Memᴰ.not-nil k)
  HasWindow-is_in_windows (w ∷ windows) t (v, Memᴰ.head e, p, q) = ground arith
  HasWindow-is_in_windows (w ∷ windows) t (v, Memᴰ.tail k, p, q) =
      ground (arith, HasWindow-is_in_windows windows t (v, k, p, q))

  IsPlanned-plan_charges :
      (o : Option (TradingPlan N)) (t : Time)
      → IsPlanned (λ plan. plan.charge_windows) o t
      → plan_charges o t ≡ true
  unfolding is_in_charge_window
  IsPlanned-plan_charges o t (plan, e, h, w) =
      rw e (HasWindow-is_in_windows plan.charge_windows t w)

  plan_charges-none :
      (o : Option (TradingPlan N)) (t : Time)
      → plan_charges o t ≡ false
      → ¬ IsPlanned (λ plan. plan.charge_windows) o t
  plan_charges-none o t off h = let on = IsPlanned-plan_charges o t h in cc

module _ {N : Platform} {E : Env N} where
  open N use {Decimal}

  -- The idle branch of `tick`, for the plan of the machine.
  abbrev idle_tick : Decimal → Time → BatteryStatus → Machine E → Machine E
  idle_tick p t status m =
      (tick_idle (plan_charges m.svc.current_plan t) (plan_discharges m.svc.current_plan t) p t
        status m).1

  tick_with_status_moves :
      (t : Time) (status : BatteryStatus) (m : Machine E)
      → m.svc.state ≡ idle
      → is_state (tick_with_status t status m).1.svc.state idle ≡ false
      → (p : Decimal) × (has_trading_plan m.svc.current_plan ≡ true)
        × ((tick_with_status t status m).1 ≡ idle_tick p t status m)
  unfolding tick_with_status tick_without_plan tick_state
  tick_with_status_moves t status m i h = elim (Bool-cases (has_trading_plan m.svc.current_plan)) [
    | inr off ↦ absurd (ground arith)
    | inl traded ↦ elim (Option-cases (get_current_price N m.svc.today_prices t)) [
      | inl unknown ↦ absurd (ground arith)
      | inr (p, e) ↦ (p, traded, ground arith)
    ]
  ]

  -- The machine once the clock is read and the battery has answered.
  abbrev asked : Machine E → Machine E
  asked m = record m { world = (E.get_battery_status (E.now m.world).1).1 }

  tick_moves :
      (m : Machine E)
      → m.svc.state ≡ idle
      → is_state (tick m).1.svc.state idle ≡ false
      → (status : BatteryStatus) × ((E.get_battery_status (E.now m.world).1).0 ≡ ok status)
        × (p : Decimal) × (has_trading_plan m.svc.current_plan ≡ true)
        × ((tick m).1 ≡ idle_tick p (E.now m.world).0 status (asked m))
  unfolding tick retry_stopping notify_error
  tick_moves m i h = elim (Result-cases (E.get_battery_status (E.now m.world).1).0) [
    | inr (e, r) ↦ absurd (ground arith)
    | inl (status, r) ↦
        let same : (tick m).1 ≡ (tick_with_status (E.now m.world).0 status (asked m)).1 =
          ground arith in
        let (p, traded, e) =
          tick_with_status_moves (E.now m.world).0 status (asked m) i
            (subst (λ (m' : Machine E). is_state m'.svc.state idle ≡ false) same h) in
        (
          status,
          r,
          p,
          traded,
          subst (λ m'. m' ≡ idle_tick p (E.now m.world).0 status (asked m)) (sym same) e,
        )
  ]

  -- What the battery has answered to a `tick` that starts a session.
  abbrev pub IsAnswer : Machine E → BatteryStatus → Type 0
  IsAnswer m status = (E.get_battery_status (E.now m.world).1).0 ≡ ok status

  -- Where a `tick` of an idle engine starts to charge, the engine has a plan that says to trade, the
  -- time lies in one of its charge windows, the battery has answered that it is not full and allows
  -- charging, and the cooldown is over.
  pub tick_charges :
      (m : Machine E)
      → m.svc.state ≡ idle
      → (tick m).1.svc.state ≡ charging
      → IsPlanned (λ plan. plan.charge_windows) m.svc.current_plan (E.now m.world).0
        × (m.svc.battery_cooldown_until ≤ (E.now m.world).0)
        × (status : BatteryStatus) × IsAnswer m status
        × (status.soc <ℤ pos 100)
        × (status.charging_flag ≡ true)
  tick_charges m i h =
      let t = (E.now m.world).0 in
      let (status, r, p, traded, e) = tick_moves m i (moved _ charging h refl) in
      let (c, low, allowed, over) =
        tick_idle_charges (plan_charges m.svc.current_plan t) (plan_discharges m.svc.current_plan t)
          p t status (asked m) i (ap (λ (m' : Machine E). m'.svc.state) (sym e) ∙ h) in
      (plan_charges-IsPlanned m.svc.current_plan t traded c, over, status, r, low, allowed)

  -- Where a `tick` of an idle engine starts to discharge, the engine has a plan that says to trade, the
  -- time lies in one of its discharge windows and in none of its charge windows, the battery has
  -- answered that it is above its minimum and allows discharging, and the cooldown is over.
  pub tick_discharges :
      (m : Machine E)
      → m.svc.state ≡ idle
      → (tick m).1.svc.state ≡ discharging
      → IsPlanned (λ plan. plan.discharge_windows) m.svc.current_plan (E.now m.world).0
        × ¬ IsPlanned (λ plan. plan.charge_windows) m.svc.current_plan (E.now m.world).0
        × (m.svc.battery_cooldown_until ≤ (E.now m.world).0)
        × (status : BatteryStatus) × IsAnswer m status
        × (min_soc m.svc.cfg <ℤ status.soc)
        × (status.discharg_flag ≡ true)
  tick_discharges m i h =
      let t = (E.now m.world).0 in
      let (status, r, p, traded, e) = tick_moves m i (moved _ discharging h refl) in
      let (off, d, above, allowed, over) =
        tick_idle_discharges (plan_charges m.svc.current_plan t)
          (plan_discharges m.svc.current_plan t) p t status (asked m) i
          (ap (λ (m' : Machine E). m'.svc.state) (sym e) ∙ h) in
      (
        plan_discharges-IsPlanned m.svc.current_plan t traded d,
        plan_charges-none m.svc.current_plan t off,
        over,
        status,
        r,
        above,
        allowed,
      )

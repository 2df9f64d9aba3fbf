-- ===== src/Service/Outcomes/Sessions.antt =====
-- When `tick` of service/service.go ends a session.
use marstek_energy_trading.Prelude.{
  ◌≡◌, refl, sym, subst, ◌&&◌, ◌||◌, Bool, true, false, not, none, some, [], ◌∷◌, ◌++◌, ℤ, pos,
  leb_ℤ, arith,
}
use marstek_energy_trading.Platform.{Time, Platform}
use marstek_energy_trading.Recorder.Types.{Trade}
use marstek_energy_trading.Analyzer.Lookup.{get_current_price}
use marstek_energy_trading.Service.Types.{
  State, idle, charging, discharging, stopping, BatteryStatus, Service, Command, Env, ok,
}
use marstek_energy_trading.Service.Machine.{Machine, now}
use marstek_energy_trading.Service.Safety.{is_settled}
use marstek_energy_trading.Service.Control.{
  transition_to_idle, idle_battery, retry_stopping, is_state,
}
use marstek_energy_trading.Service.Trades.{charge_trade, discharge_trade}
use marstek_energy_trading.Service.Grid.{stop_charging, stop_discharging}
use marstek_energy_trading.Service.Tick.{
  has_trading_plan, plan_charges, plan_discharges, min_soc, tick_without_plan, tick_charging,
  tick_discharging, tick_state, tick_with_status, tick,
}
use marstek_energy_trading.Service.Outcomes.Stops.{
  stop_charging-IsStoppedBy, stop_discharging-IsStoppedBy,
}

module _ {N : Platform} where
  -- A price is known for the time.
  abbrev has_price : Service N → Time → Bool
  has_price s t = elim (get_current_price N s.today_prices t) [ none ↦ false | some p ↦ true ]

  -- Whether a session has to end at `t`: no plan says to trade, or its window is over, or the battery
  -- is full or at its minimum; the last two only where a price is known.
  abbrev pub is_due_to_end : State → Service N → Time → BatteryStatus → Bool
  is_due_to_end charging s t status =
      not (has_trading_plan s.current_plan)
      || has_price s t && (not (plan_charges s.current_plan t) || leb_ℤ (pos 100) status.soc)
  is_due_to_end discharging s t status =
      not (has_trading_plan s.current_plan)
      || has_price s t
        && (not (plan_discharges s.current_plan t) || leb_ℤ status.soc (min_soc s.cfg))
  is_due_to_end _ s t status = false

  not_stopping :
      (s : State) (v : Service N) (t : Time) (status : BatteryStatus)
      → is_due_to_end s v t status ≡ true
      → is_state s stopping ≡ false
  not_stopping s v t status h = ground arith

  -- The trade of a session that ends at `t`.
  abbrev pub session_trade : State → Service N → Time → ℤ → Trade N
  session_trade discharging s t soc = discharge_trade s t soc
  session_trade _ s t soc = charge_trade s t soc

module _ {N : Platform} {E : Env N} where
  -- What the end of a session leaves.
  abbrev pub IsEnded : Machine E → Trade N → Machine E → Type 0
  IsEnded m trade m' =
      (m'.svc.state ≡ idle) × (is_settled m'.commands ≡ true) × (m'.trades ≡ m.trades ++ trade ∷ [])

  tick_with_status-charging :
      (t : Time) (status : BatteryStatus) (m : Machine E)
      → m.svc.state ≡ charging
      → is_due_to_end charging m.svc t status ≡ true
      → (tick_with_status t status m).1 ≡ (stop_charging status.soc m).1
  unfolding tick_with_status tick_without_plan tick_state tick_charging
  tick_with_status-charging t status m e due = ground arith

  tick_with_status-discharging :
      (t : Time) (status : BatteryStatus) (m : Machine E)
      → m.svc.state ≡ discharging
      → is_due_to_end discharging m.svc t status ≡ true
      → (tick_with_status t status m).1 ≡ (stop_discharging status.soc m).1
  unfolding tick_with_status tick_without_plan tick_state tick_discharging
  tick_with_status-discharging t status m e due = ground arith

  -- A tick that is not stopping and gets the status of the battery.
  tick-answered :
      (status : BatteryStatus) (m : Machine E)
      → is_state m.svc.state stopping ≡ false
      → (E.get_battery_status (E.now m.world).1).0 ≡ ok status
      → (tick m).1
        ≡ (tick_with_status
            (E.now m.world).0
            status
            (record m { world = (E.get_battery_status (E.now m.world).1).1 })).1
  unfolding tick retry_stopping
  tick-answered status m e a = ground arith

  module _ (accepts : (w : Env.World E) → (E.command Command.stop w).0 ≡ none) where
    transition_to_idle-true :
        (m : Machine E) → m.svc.last_stop_attempt ≡ 0 → (transition_to_idle m).0 ≡ true
    unfolding transition_to_idle idle_battery
    transition_to_idle-true m h = ground (arith, accepts (E.now m.world).1)

    stop_charging-IsEnded :
        (soc : ℤ) (m : Machine E)
        → m.svc.last_stop_attempt ≡ 0
        → IsEnded m (charge_trade m.svc (E.now m.world).0 soc) (stop_charging soc m).1
    stop_charging-IsEnded soc m h =
        let (t, m₁) = now m in
        let k = rw (transition_to_idle-true m₁ h) at (stop_charging-IsStoppedBy soc m) in k

    stop_discharging-IsEnded :
        (soc : ℤ) (m : Machine E)
        → m.svc.last_stop_attempt ≡ 0
        → IsEnded m (discharge_trade m.svc (E.now m.world).0 soc) (stop_discharging soc m).1
    stop_discharging-IsEnded soc m h =
        let (t, m₁) = now m in
        let k = rw (transition_to_idle-true m₁ h) at (stop_discharging-IsStoppedBy soc m) in k

    tick_with_status-IsEnded :
        (s : State) (t : Time) (status : BatteryStatus) (m : Machine E)
        → m.svc.state ≡ s
        → m.svc.last_stop_attempt ≡ 0
        → is_due_to_end s m.svc t status ≡ true
        → IsEnded m
            (session_trade s m.svc (E.now m.world).0 status.soc)
            (tick_with_status t status m).1
    tick_with_status-IsEnded charging t status m e h due =
        subst (λ (m' : Machine E). IsEnded m (charge_trade m.svc (E.now m.world).0 status.soc) m')
          (sym (tick_with_status-charging t status m e due)) (stop_charging-IsEnded status.soc m h)
    tick_with_status-IsEnded discharging t status m e h due =
        subst
          (λ (m' : Machine E). IsEnded m (discharge_trade m.svc (E.now m.world).0 status.soc) m')
          (sym (tick_with_status-discharging t status m e due))
          (stop_discharging-IsEnded status.soc m h)
    tick_with_status-IsEnded _ t status m e h due = cc

    -- A `tick` ends a session that is due to end, if the battery answers with its status and accepts its
    -- stops and no stop is under way: charging where no plan says to trade, or where a price is known
    -- for the time and the charge window is over or the battery is full; discharging where no plan says
    -- to trade, or where a price is known and the discharge window is over or the battery is at its
    -- minimum. The engine is then idle, its last command an accepted stop, and the trade of
    -- the session is appended.
    pub tick-IsEnded :
        (status : BatteryStatus) (m : Machine E)
        → m.svc.last_stop_attempt ≡ 0
        → (E.get_battery_status (E.now m.world).1).0 ≡ ok status
        → is_due_to_end m.svc.state m.svc (E.now m.world).0 status ≡ true
        → let stop_time = (E.now (E.get_battery_status (E.now m.world).1).1).0 in
          IsEnded m (session_trade m.svc.state m.svc stop_time status.soc) (tick m).1
    tick-IsEnded status m h answered due =
        let m₁ : Machine E = record m { world = (E.get_battery_status (E.now m.world).1).1 } in
        let k = tick_with_status-IsEnded m.svc.state (E.now m.world).0 status m₁ refl h due in
        subst
          (λ (m' : Machine E).
            IsEnded m (session_trade m.svc.state m.svc (E.now m₁.world).0 status.soc) m')
          (sym (tick-answered status m (not_stopping m.svc.state _ _ _ due) answered)) k

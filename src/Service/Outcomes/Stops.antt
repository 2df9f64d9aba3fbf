-- ===== src/Service/Outcomes/Stops.antt =====
-- The outcomes of a stop: `transitionToIdleLocked`, `stopChargingLocked`, `stopDischargingLocked` and
-- `stopSolarChargingLocked` of service/service.go.
use marstek_energy_trading.Prelude.{
  Option-cases, Bool-cases, inl, inr, refl, ltb_ℤ, ◌≡◌, ap, ap₂, ◌∙◌, if◌then◌else◌, Bool, true,
  false, ◌||◌, List, [], ◌∷◌, ◌++◌, ℤ, arith,
}
use marstek_energy_trading.Platform.{Time, Platform, is_zero_time, sub_time}
use marstek_energy_trading.Recorder.Types.{Trade}
use marstek_energy_trading.Service.Types.{idle, Command, Env}
use marstek_energy_trading.Service.Machine.{Machine, is_ok, skip, now, record_trade}
use marstek_energy_trading.Service.Control.{
  notify_error, idle_battery, attempt_stop, transition_to_idle, stop_retry_delay,
}
use marstek_energy_trading.Service.Trades.{charge_trade, discharge_trade}
use marstek_energy_trading.Service.Grid.{
  close_charging, close_discharging, stop_charging, stop_discharging,
}
use marstek_energy_trading.Service.Safety.{is_settled}

abbrev pub are_stops : List (Command × Bool) → Bool
are_stops [] = true
are_stops ((Command.stop, ok) ∷ sent) = are_stops sent
are_stops (_ ∷ sent) = false

-- Whether any of the commands was accepted.
abbrev pub is_accepted : List (Command × Bool) → Bool
is_accepted [] = false
is_accepted ((c, accepted) ∷ sent) = accepted || is_accepted sent

module _ {N : Platform} {E : Env N} where
  -- What a transition to idle leaves, by its answer.
  abbrev pub IsTransition : Machine E → Bool → Machine E → Type 0
  IsTransition m true m' =
      (m'.svc.state ≡ idle)
      × (m'.svc.last_stop_attempt ≡ 0)
      × (is_settled m'.commands ≡ true)
      × (m'.trades ≡ m.trades)
      × (record (m'.svc) { state = m.svc.state; last_stop_attempt = m.svc.last_stop_attempt }
          ≡ m.svc)
  IsTransition m false m' =
      (m'.svc.state ≡ m.svc.state)
      × (m'.trades ≡ m.trades)
      × (record (m'.svc) {
        last_stop_attempt = m.svc.last_stop_attempt;
        last_error_notify = m.svc.last_error_notify;
      }
          ≡ m.svc)

  -- A transition that reports success has made the engine idle, with an accepted stop as the last
  -- command and no stop attempt noted; it changes no other field, and no trade. One that reports no
  -- success changes at most the times of the last attempt and of the last error notification.
  pub transition_to_idle-IsTransition :
      (m : Machine E) → let (stopped, m') = transition_to_idle m in IsTransition m stopped m'
  unfolding transition_to_idle idle_battery notify_error
  transition_to_idle-IsTransition m = ground arith

  -- Further commands were sent.
  abbrev pub Sends : Machine E → List (Command × Bool) → Machine E → Type 0
  Sends m sent m' = m'.commands ≡ sent ++ m.commands

  -- Nothing but stops was sent, and one was accepted exactly when `stopped` says so.
  abbrev pub Tries : Machine E → Bool → Machine E → Type 0
  Tries m stopped m' =
      (sent : List (Command × Bool)) × Sends m sent m'
      × (are_stops sent ≡ true)
      × (is_accepted sent ≡ stopped)

  idle_battery-Tries : (m : Machine E) → let (err, m') = idle_battery m in Tries m (is_ok err) m'
  unfolding idle_battery
  idle_battery-Tries m = elim (Option-cases (E.command Command.stop m.world).0) [
    | inl e ↦ ((Command.stop, true) ∷ [], ground arith, refl, ground arith)
    | inr (f, e) ↦ elim (Bool-cases (E.context_done (E.command Command.stop m.world).1).0) [
      | inl c ↦
          let again =
            (E.command Command.stop (E.context_done (E.command Command.stop m.world).1).1).0 in
          (
            (Command.stop, is_ok again) ∷ (Command.stop, false) ∷ [],
            ground arith,
            refl,
            ground arith,
          )
      | inr c ↦ ((Command.stop, false) ∷ [], ground arith, refl, ground arith)
    ]
  ]

  -- An attempt of a stop.
  attempt_stop-Tries : (m : Machine E) → let (stopped, m') = attempt_stop m in Tries m stopped m'
  unfolding notify_error
  attempt_stop-Tries m =
      let (t, m₁) = now m in
      let m₂ : Machine E = record m₁ { svc = record (m₁.svc) { last_stop_attempt = t } } in
      let (sent, e, o, k) = idle_battery-Tries m₂ in (sent, ground arith, o, ground arith)

  transition_to_idle-Tries :
      (m : Machine E) → let (stopped, m') = transition_to_idle m in Tries m stopped m'
  unfolding transition_to_idle
  transition_to_idle-Tries m = elim (Bool-cases (is_zero_time m.svc.last_stop_attempt)) [
    | inl z ↦ rw z (attempt_stop-Tries m)
    | inr z ↦
        elim (Bool-cases
          (ltb_ℤ (sub_time (E.now m.world).0 m.svc.last_stop_attempt) (stop_retry_delay N m.svc))) [
            | inl l ↦ rw (z, l) ([], refl, refl, refl)
            | inr l ↦ rw (z, l) (attempt_stop-Tries (now m).1)
          ]
  ]

  -- What a stop of a session leaves, by the answer of its transition to idle.
  abbrev pub IsStoppedBy : Machine E → Bool → Trade N → Machine E → Type 0
  IsStoppedBy m true trade m' =
      (m'.svc.state ≡ idle) × (is_settled m'.commands ≡ true) × (m'.trades ≡ m.trades ++ trade ∷ [])
  IsStoppedBy m false trade m' = (m'.svc.state ≡ m.svc.state) × (m'.trades ≡ m.trades)

  -- What a stop of a session leaves, by what the battery accepted.
  abbrev pub Leaves : Machine E → Bool → Trade N → Machine E → Type 0
  Leaves m true trade m' = (m'.svc.state ≡ idle) × (m'.trades ≡ m.trades ++ trade ∷ [])
  Leaves m false trade m' = (m'.svc.state ≡ m.svc.state) × (m'.trades ≡ m.trades)

  abbrev pub IsStopped : Machine E → Trade N → Machine E → Type 0
  IsStopped m trade m' =
      (sent : List (Command × Bool)) × Sends m sent m'
      × (are_stops sent ≡ true)
      × Leaves m (is_accepted sent) trade m'

  IsStoppedBy-Leaves :
      (m : Machine E) (stopped : Bool) (trade : Trade N) (m' : Machine E)
      → IsStoppedBy m stopped trade m'
      → Leaves m stopped trade m'
  IsStoppedBy-Leaves m true trade m' h = (h.0, h.2)
  IsStoppedBy-Leaves m false trade m' h = h

  IsStopped-Tries :
      (m : Machine E) (stopped : Bool) (trade : Trade N) (m' : Machine E)
      → Tries m stopped m'
      → IsStoppedBy m stopped trade m'
      → IsStopped m trade m'
  IsStopped-Tries m stopped trade m' (sent, e, o, k) h =
      (sent, e, o, rw k (IsStoppedBy-Leaves m stopped trade m' h))

  -- What closing a session changes: one more trade.
  abbrev Closes : Machine E → Trade N → Machine E → Type 0
  Closes m trade m' =
      (m'.svc.state ≡ m.svc.state)
      × (m'.commands ≡ m.commands)
      × (m'.trades ≡ m.trades ++ trade ∷ [])

  Closes-IsStoppedBy :
      (m m₁ m₂ : Machine E) (trade trade₁ : Trade N)
      → IsTransition m true m₁
      → Closes m₁ trade₁ m₂
      → trade₁ ≡ trade
      → IsStoppedBy m true trade m₂
  Closes-IsStoppedBy m m₁ m₂ trade trade₁ h c e =
      (c.0 ∙ h.0, ap is_settled c.1 ∙ h.2, c.2 ∙ ap₂ (λ ts t. ts ++ t ∷ []) h.3 e)

  close_charging-Closes :
      (t : Time) (soc : ℤ) (m : Machine E)
      → Closes m (charge_trade m.svc t soc) (close_charging t soc m).1
  unfolding record_trade
  close_charging-Closes t soc m = ground arith

  close_charging-IsStoppedBy :
      (t : Time) (soc : ℤ) (stopped : Bool) (m m₁ : Machine E)
      → IsTransition m stopped m₁
      → IsStoppedBy m stopped
          (charge_trade m.svc t soc)
          ((if stopped then close_charging t soc else skip) m₁).1
  unfolding charge_trade
  close_charging-IsStoppedBy t soc true m m₁ h =
      Closes-IsStoppedBy m m₁ (close_charging t soc m₁).1 (charge_trade m.svc t soc)
        (charge_trade m₁.svc t soc) h (close_charging-Closes t soc m₁)
        (ap (λ s. charge_trade s t soc) h.4)
  close_charging-IsStoppedBy t soc false m m₁ h = (h.0, h.1)

  -- A stop of charging by the answer of its transition to idle.
  pub stop_charging-IsStoppedBy :
      (soc : ℤ) (m : Machine E)
      → let (t, m₁) = now m in
        IsStoppedBy m (transition_to_idle m₁).0 (charge_trade m.svc t soc) (stop_charging soc m).1
  unfolding stop_charging
  stop_charging-IsStoppedBy soc m =
      let (t, m₁) = now m in
      let (stopped, m₂) = transition_to_idle m₁ in
      close_charging-IsStoppedBy t soc stopped m m₂ (transition_to_idle-IsTransition m₁)

  close_charging-Tries :
      (t : Time) (soc : ℤ) (stopped : Bool) (m m₁ : Machine E)
      → Tries m stopped m₁
      → Tries m stopped ((if stopped then close_charging t soc else skip) m₁).1
  unfolding record_trade
  close_charging-Tries t soc true m m₁ (sent, e, o, k) =
      (sent, (close_charging-Closes t soc m₁).1 ∙ e, o, k)
  close_charging-Tries t soc false m m₁ h = h

  -- A stop of charging sends nothing but stops. If the battery accepts one of them, the engine is then
  -- idle and the one trade of this session is appended; if it accepts none, or none is sent because the
  -- last attempt was too short ago, the state and the trades stay.
  pub stop_charging-IsStopped :
      (soc : ℤ) (m : Machine E)
      → IsStopped m (charge_trade m.svc (E.now m.world).0 soc) (stop_charging soc m).1
  unfolding stop_charging
  stop_charging-IsStopped soc m =
      let (t, m₁) = now m in
      let (stopped, m₂) = transition_to_idle m₁ in
      IsStopped-Tries m stopped (charge_trade m.svc t soc) (stop_charging soc m).1
        (close_charging-Tries t soc stopped m m₂ (transition_to_idle-Tries m₁))
        (stop_charging-IsStoppedBy soc m)

  close_discharging-Closes :
      (t : Time) (soc : ℤ) (m : Machine E)
      → Closes m (discharge_trade m.svc t soc) (close_discharging t soc m).1
  unfolding record_trade
  close_discharging-Closes t soc m = ground arith

  close_discharging-IsStoppedBy :
      (t : Time) (soc : ℤ) (stopped : Bool) (m m₁ : Machine E)
      → IsTransition m stopped m₁
      → IsStoppedBy m stopped
          (discharge_trade m.svc t soc)
          ((if stopped then close_discharging t soc else skip) m₁).1
  unfolding discharge_trade
  close_discharging-IsStoppedBy t soc true m m₁ h =
      Closes-IsStoppedBy m m₁ (close_discharging t soc m₁).1 (discharge_trade m.svc t soc)
        (discharge_trade m₁.svc t soc) h (close_discharging-Closes t soc m₁)
        (ap (λ s. discharge_trade s t soc) h.4)
  close_discharging-IsStoppedBy t soc false m m₁ h = (h.0, h.1)

  -- A stop of discharging by the answer of its transition to idle.
  pub stop_discharging-IsStoppedBy :
      (soc : ℤ) (m : Machine E)
      → let (t, m₁) = now m in
        IsStoppedBy m
          (transition_to_idle m₁).0
          (discharge_trade m.svc t soc)
          (stop_discharging soc m).1
  unfolding stop_discharging
  stop_discharging-IsStoppedBy soc m =
      let (t, m₁) = now m in
      let (stopped, m₂) = transition_to_idle m₁ in
      close_discharging-IsStoppedBy t soc stopped m m₂ (transition_to_idle-IsTransition m₁)

  close_discharging-Tries :
      (t : Time) (soc : ℤ) (stopped : Bool) (m m₁ : Machine E)
      → Tries m stopped m₁
      → Tries m stopped ((if stopped then close_discharging t soc else skip) m₁).1
  unfolding record_trade
  close_discharging-Tries t soc true m m₁ (sent, e, o, k) =
      (sent, (close_discharging-Closes t soc m₁).1 ∙ e, o, k)
  close_discharging-Tries t soc false m m₁ h = h

  -- A stop of discharging sends nothing but stops. If the battery accepts one of them, the engine is then
  -- idle and the one trade of this session is appended; if it accepts none, or none is sent because the
  -- last attempt was too short ago, the state and the trades stay.
  pub stop_discharging-IsStopped :
      (soc : ℤ) (m : Machine E)
      → IsStopped m (discharge_trade m.svc (E.now m.world).0 soc) (stop_discharging soc m).1
  unfolding stop_discharging
  stop_discharging-IsStopped soc m =
      let (t, m₁) = now m in
      let (stopped, m₂) = transition_to_idle m₁ in
      IsStopped-Tries m stopped (discharge_trade m.svc t soc) (stop_discharging soc m).1
        (close_discharging-Tries t soc stopped m m₂ (transition_to_idle-Tries m₁))
        (stop_discharging-IsStoppedBy soc m)

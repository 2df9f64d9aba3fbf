-- ===== src/Service/Control.antt =====
-- The control of the battery in service/service.go: `waitForBatteryPower`, `idleBattery`,
-- `notifyError`, `transitionToIdleLocked`, `retryStopping`, `stopBatteryOnShutdown` and
-- `refreshPassiveModeLocked`.
use marstek_energy_trading.Prelude.{
  ℕ, zero, suc, ◌*◌, Bool, true, false, not, ◌&&◌, ◌||◌, Option, none, some, String, if◌then◌else◌,
  ℤ, pos, leb_ℤ, ltb_ℤ, ◌*ℤ◌,
}
use marstek_energy_trading.Platform.{Duration, Platform, sub_time, minute, second, is_zero_time}
use marstek_energy_trading.Service.Types.{
  State, idle, stopping, Result, ok, failed, Command, Service, Notification, Env,
  battery_start_verification_timeout, battery_start_verification_interval,
  battery_stop_retry_interval,
}
use marstek_energy_trading.Service.Machine.{
  Action, pure, ◌>>=◌, ◌>>◌, skip, gets, modify, ask, now, command, send,
}

abbrev pub is_state : State → State → Bool
is_state State.idle State.idle = true
is_state State.charging State.charging = true
is_state State.discharging State.discharging = true
is_state State.solar_charging State.solar_charging = true
is_state State.stopping State.stopping = true
is_state _ _ = false

abbrev pub or_default : Duration → ℕ → Duration
or_default d default = if leb_ℤ d (pos 0) then pos default else d

module _ (N : Platform) where
  open N use {
    Float, literal, float_of_int, float_mul, float_neg, float_max, float_min, float_le, truncate,
  }

  -- The power from which a start counts as confirmed.
  unfoldable pub power_threshold : ℤ → Float
  power_threshold commanded_power_w = float_min (literal (pos 50) 1) (
      float_max (literal (pos 10) 1)
        (float_mul (float_of_int commanded_power_w) (literal (pos 1) 2)))

  unfoldable pub confirms : Bool → Float → Float → Bool
  confirms charging threshold power =
      charging && float_le threshold power || not charging && float_le power (float_neg threshold)

  abbrev pub stop_retry_delay : Service N → Duration
  stop_retry_delay s =
      if ltb_ℤ (pos 0) s.battery_stop_retry_delay
      then s.battery_stop_retry_delay
      else pos battery_stop_retry_interval

  -- The refresh is due from 80% of the timeout on.
  unfoldable pub refresh_threshold : ℤ → Duration
  unfolding ◌*ℤ◌
  refresh_threshold timeout_s =
      truncate (float_mul (float_of_int timeout_s) (literal (pos 4) 5)) *ℤ pos second

module _ {N : Platform} {E : Env N} where
  open N use {Float}

  -- The end of the wait: the caller's context, the last error or the last power.
  abbrev pub at_deadline : Option String → Action E (Result Float)
  at_deadline last_err = do
    cancelled ← ask E.context_done
    if cancelled then pure (failed "context canceled") else elim last_err [
      | some e ↦ pure (failed e)
      | none ↦ pure (failed "battery power below threshold")
    ]

  abbrev pub poll :
      Bool
      → Float
      → (Option String → Action E (Result Float))
      → Option String
      → Action E (Result Float)
  poll charging threshold next last_err = do
    reading ← ask E.get_battery_power
    elim reading [
      | failed e ↦ next (some e)
      | ok power ↦ do if confirms N charging threshold power then pure (ok power) else next last_err
    ]

  -- The loop of `waitForBatteryPower`, where the ticker fires `ticks` times before the deadline.
  unfoldable pub wait_loop : Bool → Float → ℕ → Option String → Action E (Result Float)
  wait_loop charging threshold zero last_err = poll charging threshold at_deadline last_err
  wait_loop charging threshold (suc ticks) last_err =
      poll charging threshold (λ e. wait_loop charging threshold ticks e) last_err

  unfoldable pub wait_for_battery_power : Bool → ℤ → Action E (Result Float)
  wait_for_battery_power charging commanded_power_w = do
    timeout ← gets λ s. or_default s.battery_verification_timeout battery_start_verification_timeout
    interval ←
        gets λ s. or_default s.battery_verification_interval battery_start_verification_interval
    ticks ← ask (E.ticks_before_deadline timeout interval)
    wait_loop charging (power_threshold N commanded_power_w) ticks none

  -- A stop that is tried again when only the caller's context has ended.
  unfoldable pub idle_battery : Action E (Option String)
  idle_battery = do
    err ← command Command.stop
    elim err [
      | none ↦ pure none
      | some e ↦ do
        cancelled ← ask E.context_done
        if cancelled then command Command.stop else pure (some e)
    ]

  -- At most one error notification in 15 minutes of the machine's own clock.
  unfoldable pub notify_error : String → String → Action E (Unit {0})
  notify_error prefix err =
      if E.telegram_enabled
      then (do
        t ← ask E.wall_now
        last ← gets λ s. s.last_error_notify
        if ltb_ℤ (sub_time t last) (pos (15 * minute)) then skip else (do
          u ← ask E.wall_now
          modify λ s. record s { last_error_notify = u }
          send (Notification.failure prefix err)))
      else skip

  abbrev pub attempt_stop : Action E Bool
  attempt_stop = do
    t ← now
    modify λ s. record s { last_stop_attempt = t }
    err ← idle_battery
    elim err [
      | some e ↦ do
        notify_error "Battery stop failed; forced operation may still be active: " e
        pure false
      | none ↦ do modify λ s. record s { state = idle; last_stop_attempt = 0 }; pure true
    ]

  -- `true` when the battery has accepted the stop. The state of charge is only logged.
  unfoldable pub transition_to_idle : Action E Bool
  transition_to_idle = do
    last ← gets λ s. s.last_stop_attempt
    if is_zero_time last then attempt_stop else (do
      t ← now
      delay ← gets (stop_retry_delay N)
      if ltb_ℤ (sub_time t last) delay then pure false else attempt_stop)

  unfoldable pub retry_stopping : Action E Bool
  retry_stopping = do
    s ← gets λ s. s.state
    if is_state s stopping then (do transition_to_idle; pure true) else pure false

  abbrev pub or_retry : Action E (Option String) → Option String → Action E (Option String)
  or_retry next none = pure none
  or_retry next (some e) = next

  -- The loop of `stopBatteryOnShutdown`, where the retry timer fires `ticks` times before the
  -- shutdown deadline: the last error, if no stop was accepted.
  unfoldable pub stop_battery_on_shutdown : ℕ → Action E (Option String)
  stop_battery_on_shutdown zero = command Command.stop
  stop_battery_on_shutdown (suc ticks) = do
    err ← command Command.stop
    or_retry (stop_battery_on_shutdown ticks) err

  unfoldable pub refresh_passive_mode : ℤ → Action E (Unit {0})
  refresh_passive_mode power = do
    timeout ← gets λ s. s.cfg.passive_mode_timeout_s
    t ← now
    last ← gets λ s. s.last_passive_refresh
    if ltb_ℤ (sub_time t last) (refresh_threshold N timeout) then skip else (do
      err ← command (Command.set_passive_mode power timeout)
      elim err [
        | some e ↦ skip
        | none ↦ do u ← now; modify λ s. record s { last_passive_refresh = u }
      ])
